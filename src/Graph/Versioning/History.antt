-- ===== src/Graph/Versioning/History.antt =====
-- The history that the operations of graph/src/versioning.rs build: branches, parents and the log.
use ckos.Base.{
  ℕ, zero, suc, ◌<◌, String, List, [], ◌∷◌, ◌++◌, true, Option, none, some, is_some, get_elem?,
  length, length-append, ◌≡◌, refl, arith, if◌then◌else◌, ◌==◌, string_eq, nat_eq, Bool-cases,
  Option-cases, inl, inr,
}
use ckos.Base.Map
use ckos.Base.Map.{get-insert}
use text.Mathlib.TextEquality.{eq_iff}
use ckos.Graph.{KnowledgeGraph}
use ckos.Graph.Versioning.{
  Version, GraphRepo, new, head_id, graph_at, commit, branch, checkout, ancestors, log,
}

-- The current branch exists, every branch points to a version, and every parent is older.
pub record IsSound (repo : GraphRepo) : Type 0 where
  pub checked_out : is_some (Map.get repo.branches repo.current) ≡ true
  pub pointed :
      (name : String) (id : ℕ) → Map.get repo.branches name ≡ some id → id < length repo.versions
  pub older :
      (i : ℕ) (v : Version) (p : ℕ) → get_elem? repo.versions i ≡ some v → v.parent ≡ some p → p < i

pub get_elem?-inside {ℓ} :
    {A : Type ℓ} (xs : List A) (i : ℕ) → i < length xs → (x : A) × (get_elem? xs i ≡ some x)
get_elem?-inside [] i h = absurd (omega arith)
get_elem?-inside (x ∷ xs) zero h = (x, refl)
get_elem?-inside (x ∷ xs) (suc i) h = get_elem?-inside xs i (omega arith)

pub get_elem?-last {ℓ} :
    {A : Type ℓ} (xs : List A) (x : A) (i : ℕ)
    → get_elem? (xs ++ x ∷ []) i ≡ (if i == length xs then some x else get_elem? xs i)
get_elem?-last [] x zero = refl
get_elem?-last [] x (suc i) = ground arith
get_elem?-last (y ∷ ys) x zero = ground arith
get_elem?-last (y ∷ ys) x (suc i) = ground (arith, get_elem?-last ys x i)

pub head_id-some :
    (repo : GraphRepo)
    → IsSound repo
    → (id : ℕ) × (head_id repo ≡ some id) × (id < length repo.versions)
unfolding head_id
head_id-some repo h = elim (Option-cases (Map.get repo.branches repo.current)) [
  | inl miss ↦ let there = h.checked_out in absurd (cc (rw miss at there))
  | inr (id, hit) ↦ (id, hit, h.pointed repo.current id hit)
]

-- The versions from one on to the first, each the parent of the one before and older.
pub data IsLineage (versions : List Version) : ℕ → List ℕ → Type 0 where
  root :
      (id : ℕ) (v : Version)
      → get_elem? versions id ≡ some v
      → v.parent ≡ none
      → IsLineage versions id (id ∷ [])
  child :
      (id : ℕ) (v : Version) (p : ℕ) (rest : List ℕ)
      → get_elem? versions id ≡ some v
      → v.parent ≡ some p
      → p < id
      → IsLineage versions p rest
      → IsLineage versions id (id ∷ rest)

abbrev pub Older : List Version → Type 0
Older versions =
    (i : ℕ) (v : Version) (p : ℕ) → get_elem? versions i ≡ some v → v.parent ≡ some p → p < i

ancestors-IsLineage :
    (fuel : ℕ) (versions : List Version) (id : ℕ)
    → Older versions
    → id < fuel
    → id < length versions
    → (out : List ℕ) × (ancestors fuel versions id ≡ some out) × IsLineage versions id out
unfolding ancestors
ancestors-IsLineage zero versions id h less inside = absurd (omega arith)
ancestors-IsLineage (suc fuel) versions id h less inside =
    let (v, found) = get_elem?-inside versions id inside in
    elim (Option-cases v.parent) [
      | inl first ↦ (id ∷ [], rw (ancestors, found, first) refl, root id v found first)
      | inr (p, second) ↦
          let earlier : p < id = h id v p found second in
          let (rest, more, line) =
            ancestors-IsLineage fuel versions p h (omega (arith, earlier, less))
              (omega (arith, earlier, inside)) in
          (
            id ∷ rest,
            rw (ancestors, found, second, more) refl,
            child id v p rest found second earlier line,
          )
    ]

-- In a sound repository `log` ends, without a panic, with the lineage of the head: the head first,
-- then parent after parent, each older than the one before, down to a version without parent.
pub log-IsLineage :
    (repo : GraphRepo)
    → IsSound repo
    → (id : ℕ) × (out : List ℕ) × (head_id repo ≡ some id)
      × (log repo ≡ some out)
      × IsLineage repo.versions id out
unfolding log
log-IsLineage repo h =
    let (id, tip, inside) = head_id-some repo h in
    let (out, listed, line) =
      ancestors-IsLineage (length repo.versions) repo.versions id h.older inside inside in
    (id, out, tip, rw (tip, log) listed, line)

-- The graph at the tip of a branch.
abbrev pub tip : GraphRepo → String → Option KnowledgeGraph
tip repo name = elim (Map.get repo.branches name) [
  | none ↦ none
  | some id ↦ graph_at repo.versions id
]

pub commit-IsSound :
    (repo : GraphRepo) (graph : KnowledgeGraph)
    → IsSound repo
    → (id : ℕ) × (repo' : GraphRepo) × (commit repo graph ≡ some (id, repo')) × IsSound repo'
unfolding commit
commit-IsSound repo graph h =
    let (parent, at_head, inside) = head_id-some repo h in
    let n = length repo.versions in
    let v : Version = record { id = n; parent = some parent; graph = graph } in
    let longer = length-append repo.versions (v ∷ []) in
    (
      n,
      record repo {
        versions = repo.versions ++ v ∷ [];
        branches = Map.insert repo.branches repo.current n;
      },
      rw (commit, at_head) refl,
      record {
        checked_out = ground (
          arith,
          get-insert repo.branches repo.current repo.current n,
          eq_iff repo.current repo.current,
        );
        pointed = λ name id e. ground (
          arith,
          longer,
          rw (get-insert repo.branches repo.current name n) at e,
          h.pointed name id,
        );
        older = λ i w p found up.
            let last = get_elem?-last repo.versions v i in
            elim (Bool-cases (i == n)) [
              | inl same ↦ ground (arith, last, found, same, up, inside)
              | inr differ ↦ h.older i w p (ground (arith, last, found, differ)) up
            ];
      },
    )

pub branch-IsSound :
    (repo : GraphRepo) (name : String)
    → IsSound repo
    → (repo' : GraphRepo) × (branch repo name ≡ some repo') × IsSound repo'
unfolding branch
branch-IsSound repo name h =
    let (id, at_head, inside) = head_id-some repo h in
    (
      record repo { branches = Map.insert repo.branches name id },
      rw (branch, at_head) refl,
      record {
        checked_out =
            rw (get-insert repo.branches name repo.current id) (ground (arith, h.checked_out));
        pointed = λ other i e.
            ground
              (arith, rw (get-insert repo.branches name other id) at e, h.pointed other i, inside);
        older = h.older;
      },
    )

pub checkout-IsSound :
    (repo : GraphRepo) (name : String) → IsSound repo → IsSound (checkout repo name).1
unfolding checkout
checkout-IsSound repo name h = elim (Bool-cases (is_some (Map.get repo.branches name))) [
  | inl there ↦ rw there (record { checked_out = there; pointed = h.pointed; older = h.older })
  | inr missing ↦ rw missing h
]

pub new-IsSound : IsSound new
unfolding new Map.get
new-IsSound = record {
  checked_out = refl;
  pointed = λ name id e. ground (arith, e);
  older = first_alone;
}
  where
    first_alone :
        (i : ℕ) (v : Version) (p : ℕ)
        → get_elem? new.versions i ≡ some v
        → v.parent ≡ some p
        → p < i
    first_alone zero v p e up = ground (arith, e, up)
    first_alone (suc i) v p e up = cc e

-- Older versions are where they were, and so is what they descend from.
pub ancestors-append :
    (fuel more : ℕ) (versions : List Version) (v : Version) (id : ℕ)
    → Older versions
    → id < fuel
    → id < more
    → id < length versions
    → ancestors more (versions ++ v ∷ []) id ≡ ancestors fuel versions id
unfolding ancestors
ancestors-append zero more versions v id h less less' inside = absurd (omega arith)
ancestors-append (suc fuel) zero versions v id h less less' inside = absurd (omega arith)
ancestors-append (suc fuel) (suc more) versions v id h less less' inside =
    let (w, found) = get_elem?-inside versions id inside in
    let kept : get_elem? (versions ++ v ∷ []) id ≡ some w =
      ground (arith, get_elem?-last versions v id, found, inside) in
    elim (Option-cases w.parent) [
      | inl first ↦ rw (ancestors, found, kept, first) refl
      | inr (p, second) ↦
          let earlier : p < id = h id w p found second in
          rw
            (
              ancestors,
              found,
              kept,
              second,
              ancestors-append fuel more versions v p h (omega (arith, earlier, less))
                  (omega (arith, earlier, less')) (omega (arith, earlier, inside)),
            )
            refl
    ]
