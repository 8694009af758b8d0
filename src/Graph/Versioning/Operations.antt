-- ===== src/Graph/Versioning/Operations.antt =====
-- Sequences of operations on a repository of graph/src/versioning.rs.
use mathlib.Core.Path.{subst}
use ckos.Base.{
  ℕ, String, List, [], ◌∷◌, ◌||◌, true, is_some, Option, none, some, length, ◌<◌, ◌≡◌, refl,
  Option-cases, inl, inr, ◌⊎◌, string_eq, nat_eq,
}
use ckos.Base.Map
use ckos.Graph.{KnowledgeGraph, Node}
use ckos.Graph.Versioning.{
  Version, GraphRepo, MergeStrategy, MergeReport, merge, head, graph_at, commit, branch, checkout,
}
use ckos.Graph.Versioning.History.{
  IsSound, head_id-some, get_elem?-inside, commit-IsSound, branch-IsSound, checkout-IsSound,
}
use ckos.Graph.Versioning.Commits.{commit-IsCommitted}
use ckos.Graph.Versioning.Identity.{name_of, last_of}
use ckos.Graph.Versioning.Contents.{IsMerged, merge_graphs-IsMerged}

graph_at-some :
    (versions : List Version) (id : ℕ)
    → id < length versions
    → (g : KnowledgeGraph) × (graph_at versions id ≡ some g)
unfolding graph_at
graph_at-some versions id inside =
    let (v, found) = get_elem?-inside versions id inside in (v.graph, rw (graph_at, found) refl)

-- The ids that are minted differ.
abbrev pub AreFresh : (ℕ → String) → Type 0
AreFresh mint = (i j : ℕ) → mint i ≡ mint j → i ≡ j

-- What a merge of two branches that exist leads to.
pub record IsJoined (lower : String → String) (strategy : MergeStrategy) (repo : GraphRepo)
    (other_id : ℕ) (result : Option (Option MergeReport × GraphRepo)) : Type 0 where
  pub ours : KnowledgeGraph
  pub theirs : KnowledgeGraph
  pub merged : KnowledgeGraph
  pub report : MergeReport
  pub id : ℕ
  pub repo' : GraphRepo
  pub current : head repo ≡ some ours
  pub other : graph_at repo.versions other_id ≡ some theirs
  pub returned : result ≡ some (some report, repo')
  pub committed : commit repo merged ≡ some (id, repo')
  pub shown : head repo' ≡ some merged
  pub sound : IsSound repo'
  pub held :
      (key : String) (n : Node)
      → (Map.get ours.nodes key ≡ some n) ⊎ (Map.get theirs.nodes key ≡ some n)
      → IsMerged lower strategy ours theirs merged (name_of lower n)
  pub only :
      (key : String) (n : Node)
      → Map.get merged.nodes key ≡ some n
      → (is_some (last_of lower (name_of lower n) (Map.values ours.nodes))
          || is_some (last_of lower (name_of lower n) (Map.values theirs.nodes)))
        ≡ true

-- In a sound repository, where the minted ids differ, the merge of a branch that exists does not
-- panic: it returns a report and commits, on the current branch, a graph that holds a node for the
-- identity (kind token and lower-case label) of every node stored in either tip, with the kind and
-- the label of the last node of ours of that identity, where there is one, and the date, the
-- provenance and the confidence, capped at 100, of the side that the strategy prefers; and every node
-- that the graph holds has the identity of a node of either tip.
pub merge-IsJoined :
    (lower : String → String) (mint : ℕ → String)
    → AreFresh mint
    → (repo : GraphRepo) (other : String) (strategy : MergeStrategy) (other_id : ℕ) → IsSound repo
    → Map.get repo.branches other ≡ some other_id
    → IsJoined lower strategy repo other_id (merge lower mint repo other strategy)
unfolding merge head
merge-IsJoined lower mint fresh repo other strategy other_id h known =
    let (id, tip, inside) = head_id-some repo h in
    let (ours, mine) = graph_at-some repo.versions id inside in
    let (theirs, yours) = graph_at-some repo.versions other_id (h.pointed other other_id known) in
    let at_head : head repo ≡ some ours = rw (head, tip) mine in
    let (merged, report, made, held, only) =
      merge_graphs-IsMerged lower mint fresh strategy ours theirs in
    let (new_id, repo', done, sound) = commit-IsSound repo merged h in
    let (id'', repo'', again, effect) = commit-IsCommitted repo merged h in
    record {
      ours = ours;
      theirs = theirs;
      merged = merged;
      report = report;
      id = new_id;
      repo' = repo';
      current = at_head;
      other = yours;
      returned = rw (merge, known, at_head, yours, made, done) refl;
      committed = done;
      shown =
          let same : repo'' ≡ repo' = cc (again, done) in
          subst (λ r. head r ≡ some merged) same effect.shown;
      sound = sound;
      held = held;
      only = only;
    }

-- One call of an operation on a repository; a merge mints ids of its own.
pub data Operation : Type 0 where
  put : (graph : KnowledgeGraph) → Operation
  fork : (name : String) → Operation
  switch : (name : String) → Operation
  join : (mint : ℕ → String) → AreFresh mint → (other : String) → MergeStrategy → Operation

-- what a call leaves, where it does not panic
unfoldable pub left_by {ℓ} : {A : Type ℓ} → Option (A × GraphRepo) → Option GraphRepo
left_by none = none
left_by (some (a, repo)) = some repo

unfoldable pub perform : (String → String) → Operation → GraphRepo → Option GraphRepo
perform lower (put graph) repo = left_by (commit repo graph)
perform lower (fork name) repo = branch repo name
perform lower (switch name) repo = some (checkout repo name).1
perform lower (join mint fresh other strategy) repo = left_by (merge lower mint repo other strategy)

unfoldable pub perform_all : (String → String) → List Operation → GraphRepo → Option GraphRepo
unfolding perform
perform_all lower [] repo = some repo
perform_all lower (o ∷ os) repo = elim (perform lower o repo) [
  | none ↦ none
  | some repo' ↦ perform_all lower os repo'
]

unknown_branch :
    (lower : String → String) (mint : ℕ → String) (repo : GraphRepo) (other : String)
    (strategy : MergeStrategy)
    → Map.get repo.branches other ≡ none
    → left_by (merge lower mint repo other strategy) ≡ some repo
unfolding left_by merge
unknown_branch lower mint repo other strategy unknown = rw (merge, unknown) refl

perform-IsSound :
    (lower : String → String) (o : Operation) (repo : GraphRepo)
    → IsSound repo
    → (repo' : GraphRepo) × (perform lower o repo ≡ some repo') × IsSound repo'
unfolding perform left_by
perform-IsSound lower (put graph) repo h =
    let (id, repo', done, sound) = commit-IsSound repo graph h in
    (repo', rw (perform, done) refl, sound)
perform-IsSound lower (fork name) repo h = branch-IsSound repo name h
perform-IsSound lower (switch name) repo h =
    ((checkout repo name).1, refl, checkout-IsSound repo name h)
perform-IsSound lower (join mint fresh other strategy) repo h =
    elim (Option-cases (Map.get repo.branches other)) [
      | inl unknown ↦ (repo, unknown_branch lower mint repo other strategy unknown, h)
      | inr (id, known) ↦
          let joined = merge-IsJoined lower mint fresh repo other strategy id h known in
          (joined.repo', rw (perform, joined.returned) refl, joined.sound)
    ]

-- From a sound repository every sequence of commits, branches, checkouts and merges, of branches
-- that exist or not, runs without a panic and leaves a sound repository.
pub perform_all-IsSound :
    (lower : String → String) (os : List Operation) (repo : GraphRepo)
    → IsSound repo
    → (repo' : GraphRepo) × (perform_all lower os repo ≡ some repo') × IsSound repo'
unfolding perform_all
perform_all-IsSound lower [] repo h = (repo, refl, h)
perform_all-IsSound lower (o ∷ os) repo h =
    let (mid, first, sound) = perform-IsSound lower o repo h in
    let (repo', rest, sound') = perform_all-IsSound lower os mid sound in
    (repo', rw (perform_all, first) rest, sound')
