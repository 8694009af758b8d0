-- ===== src/Graph/Versioning/Commits.antt =====
-- What a commit of graph/src/versioning.rs changes, and what it leaves.
use ckos.Base.{
  ℕ, suc, ◌+◌, ◌<◌, String, List, [], ◌∷◌, ◌++◌, false, some, get_elem?, length, length-append, ◌≡◌,
  refl, arith, if◌then◌else◌, ◌==◌, string_eq, nat_eq, Option-cases, Bool-cases, inl, inr,
}
use ckos.Base.Map
use ckos.Base.Map.{get-insert}
use text.Mathlib.TextEquality.{eq_iff}
use ckos.Graph.{KnowledgeGraph}
use ckos.Graph.Versioning.{Version, GraphRepo, head_id, graph_at, head, commit, log, ancestors}
use ckos.Graph.Versioning.History.{IsSound, head_id-some, get_elem?-last, ancestors-append, tip}

graph_at-append :
    (versions : List Version) (v : Version) (id : ℕ)
    → graph_at (versions ++ v ∷ []) id
      ≡ (if id == length versions then some v.graph else graph_at versions id)
unfolding graph_at
graph_at-append versions v id = elim (Bool-cases (id == length versions)) [
  | inl same ↦ rw (graph_at, get_elem?-last versions v id, same) refl
  | inr differ ↦ rw (graph_at, get_elem?-last versions v id, differ) refl
]

the_next : (n : ℕ) → n + 1 ≡ suc n
the_next n = omega arith

-- What a commit on the current branch leads to.
pub record IsCommitted (repo : GraphRepo) (graph : KnowledgeGraph) (id : ℕ) (repo' : GraphRepo)
    : Type 0 where
  pub shown : head repo' ≡ some graph
  pub isolated : (name : String) → (repo.current == name) ≡ false → tip repo' name ≡ tip repo name
  pub kept :
      (i : ℕ) → i < length repo.versions → graph_at repo'.versions i ≡ graph_at repo.versions i
  pub logged : (out : List ℕ) → log repo ≡ some out → log repo' ≡ some (id ∷ out)

-- In a sound repository a commit does not panic: it shows the graph at the head, leaves the tip of
-- every other branch and the graph of every version as they were, and puts the new version in
-- front of the log.
pub commit-IsCommitted :
    (repo : GraphRepo) (graph : KnowledgeGraph)
    → IsSound repo
    → (id : ℕ) × (repo' : GraphRepo) × (commit repo graph ≡ some (id, repo'))
      × IsCommitted repo graph id repo'
unfolding commit head head_id log ancestors
commit-IsCommitted repo graph h =
    let (parent, at_head, inside) = head_id-some repo h in
    let n = length repo.versions in
    let v : Version = record { id = n; parent = some parent; graph = graph } in
    let at_new : Map.get (Map.insert repo.branches repo.current n) repo.current ≡ some n = ground (
      arith,
      get-insert repo.branches repo.current repo.current n,
      eq_iff repo.current repo.current,
    ) in
    let new_last : get_elem? (repo.versions ++ v ∷ []) n ≡ some v =
      ground (arith, get_elem?-last repo.versions v n) in
    (
      n,
      record repo {
        versions = repo.versions ++ v ∷ [];
        branches = Map.insert repo.branches repo.current n;
      },
      rw (commit, at_head) refl,
      record {
        shown = rw (head, at_new, graph_at-append repo.versions v n) (ground arith);
        isolated = λ name differ.
            rw (tip, get-insert repo.branches repo.current name n, differ)
              (elim (Option-cases (Map.get repo.branches name)) [
                | inl miss ↦ rw (tip, miss) refl
                | inr (i, hit) ↦
                    rw (tip, hit, graph_at-append repo.versions v i)
                      (ground (arith, h.pointed name i hit))
              ]);
        kept = λ i less. rw (graph_at-append repo.versions v i) (ground (arith, less));
        logged = λ out old.
            let old_list : ancestors n repo.versions parent ≡ some out =
              (let e = old in rw (log, at_head) at e) in
            rw (log, at_new, length-append repo.versions (v ∷ []))
              (rw (the_next n) (
                rw
                  (
                    ancestors,
                    new_last,
                    ancestors-append n n repo.versions v parent h.older inside inside inside,
                    old_list,
                  )
                  refl));
      },
    )
