-- ===== src/Workflow/Placing.antt =====
-- The loop of `topological_order` in workflow/src/lib.rs places a step after all its dependencies.
use ckos.Base.{
  ℕ, zero, suc, ◌+◌, ◌<◌, ◌≤◌, List, [], ◌∷◌, ◌++◌, ◌≡◌, arith, ◌==◌, nat_eq, ltb, if◌then◌else◌,
  All, Bool-cases, inl, inr, ◌⊎◌,
}
use ckos.Workflow.{at_ℕ, at_list, release, place_all}
use ckos.Workflow.Occurs.{occurs, occurs-append}
use ckos.Workflow.Release.{IsCounted, release-IsCounted}

-- How many of the dependencies `ds` are not placed.
abbrev pub open_deps : List ℕ → List ℕ → ℕ
open_deps order [] = 0
open_deps order (d ∷ ds) = (if occurs d order == 0 then 1 else 0) + open_deps order ds

-- The order has every step once, after all its dependencies.
pub data Respects (deps : ℕ → List ℕ) : List ℕ → Type 0 where
  begun : Respects deps []
  placed :
      (order : List ℕ) (node : ℕ)
      → Respects deps order
      → occurs node order ≡ 0
      → All (λ d. 0 < occurs d order) (deps node)
      → Respects deps (order ++ node ∷ [])

open_deps-append :
    (order : List ℕ) (node : ℕ) (ds : List ℕ)
    → occurs node order ≡ 0
    → open_deps (order ++ node ∷ []) ds + occurs node ds ≡ open_deps order ds
open_deps-append order node [] h = omega arith
open_deps-append order node (d ∷ ds) h =
    ground (arith, open_deps-append order node ds h, occurs-append d order (node ∷ []))

occurs-open_deps :
    (order : List ℕ) (node : ℕ) (ds : List ℕ)
    → occurs node order ≡ 0
    → occurs node ds ≤ open_deps order ds
occurs-open_deps order node ds h = omega (arith, open_deps-append order node ds h)

open_deps-zero : (order ds : List ℕ) → open_deps order ds ≡ 0 → All (λ d. 0 < occurs d order) ds
open_deps-zero order [] h = tt
open_deps-zero order (d ∷ ds) h = (ground arith, open_deps-zero order ds (ground arith))

-- Who is ready after a release was ready before or released.
release-source :
    (ds : List ℕ) (st : List ℕ × List ℕ) (i : ℕ)
    → 0 < occurs i (release ds st).1
    → (0 < occurs i st.1) ⊎ (0 < occurs i ds)
unfolding release
release-source [] st i h = inl h
release-source (d ∷ ds) (indegree, ready) i h = elim (release-source ds _ i h) [
  | inl early ↦ elim (Bool-cases (d == i)) [
    | inl same ↦ inr (ground arith)
    | inr differ ↦ inl (ground arith)
  ]
  | inr late ↦ inr (ground arith)
]

module _ (n : ℕ) (deps : ℕ → List ℕ) (dependents : List (List ℕ)) where
  -- The dependents of a step are the steps that depend on it, as often as they do.
  pub record IsLinked : Type 0 where
    pub linked : (i d : ℕ) → occurs i (at_list dependents d) ≡ occurs d (deps i)
    pub inside : (i d : ℕ) → 0 < occurs d (deps i) → i < n

  -- Before every round: the counters are those of the open dependencies, and a step is ready or placed
  -- at most once, and only without open dependencies.
  pub record IsOngoing (order : List ℕ) (st : List ℕ × List ℕ) : Type 0 where
    pub exact : (i : ℕ) → at_ℕ st.0 i ≡ open_deps order (deps i)
    pub once : (i : ℕ) → occurs i st.1 + occurs i order ≤ 1
    pub free : (i : ℕ) → 0 < occurs i st.1 + occurs i order → at_ℕ st.0 i ≡ 0
    pub known : (i : ℕ) → 0 < occurs i st.1 + occurs i order → i < n
    pub respects : Respects deps order

  -- The step is placed, its dependents are still to be released.
  pub place_start :
      (indegree : List ℕ) (node : ℕ) (ready order : List ℕ)
      → IsLinked
      → IsOngoing order (indegree, node ∷ ready)
      → IsCounted (at_list dependents node) (order ++ node ∷ []) (indegree, ready)
  place_start indegree node ready order l h =
      let new : occurs node order ≡ 0 = ground (arith, h.once node) in
      record {
        counted = λ i.
            omega (arith, l.linked i node, occurs-open_deps order node (deps i) new, h.exact i);
        once = λ i. omega (arith, occurs-append i order (node ∷ []), h.once i);
        free = λ i pos. h.free i (omega (arith, occurs-append i order (node ∷ []), pos));
      }

  pub place_one :
      (indegree : List ℕ) (node : ℕ) (ready order : List ℕ)
      → IsLinked
      → IsOngoing order (indegree, node ∷ ready)
      → IsOngoing (order ++ node ∷ []) (release (at_list dependents node) (indegree, ready))
  place_one indegree node ready order l h =
      let ds = at_list dependents node in
      let new : occurs node order ≡ 0 = ground (arith, h.once node) in
      let start = place_start indegree node ready order l h in
      let (after, fallen) = release-IsCounted ds (order ++ node ∷ []) (indegree, ready) start in
      let ended : open_deps order (deps node) ≡ 0 = ground (arith, h.exact node, h.free node) in
      record {
        exact = λ i.
            omega (
              arith,
              fallen i,
              l.linked i node,
              h.exact i,
              open_deps-append order node (deps i) new,
            );
        once = after.once;
        free = after.free;
        known = λ i pos. elim (Bool-cases (ltb 0 (occurs i (release ds (indegree, ready)).1))) [
          | inl waits ↦ elim (release-source ds (indegree, ready) i (ground arith)) [
            | inl early ↦ h.known i (omega (arith, early))
            | inr late ↦ l.inside i node (omega (arith, late, l.linked i node))
          ]
          | inr gone ↦
              let stands : 0 < occurs i (order ++ node ∷ []) = ground arith in
              h.known i (omega (arith, stands, occurs-append i order (node ∷ [])))
        ];
        respects = placed order node h.respects new (open_deps-zero order (deps node) ended);
      }

  -- Whatever the fuel, the order that the loop has made places every step after its dependencies.
  pub place_all-Ongoing :
      (fuel : ℕ) (st : List ℕ × List ℕ) (order : List ℕ)
      → IsLinked
      → IsOngoing order st
      → Respects deps (place_all fuel dependents st order)
        × ((i : ℕ) → 0 < occurs i (place_all fuel dependents st order) → i < n)
  unfolding place_all
  place_all-Ongoing zero st order l h = (h.respects, λ i pos. h.known i (omega (arith, pos)))
  place_all-Ongoing (suc fuel) (indegree, []) order l h =
      (h.respects, λ i pos. h.known i (omega (arith, pos)))
  place_all-Ongoing (suc fuel) (indegree, node ∷ ready) order l h =
      place_all-Ongoing fuel _ (order ++ node ∷ []) l (place_one indegree node ready order l h)
