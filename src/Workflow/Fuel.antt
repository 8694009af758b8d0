-- ===== src/Workflow/Fuel.antt =====
-- The fuel of the loop of `topological_order` in workflow/src/lib.rs is enough.
use mathlib.Core.List.{reverse}
use ckos.Base.{
  ℕ, zero, suc, ◌+◌, ◌<◌, ◌≤◌, List, [], ◌∷◌, ◌++◌, some, ◌≡◌, refl, arith, ◌==◌, nat_eq,
  if◌then◌else◌, keep, Bool-cases, inl, inr,
}
use ckos.Workflow.{Dag, Counts, at_ℕ, range, len, place_all, count_steps}
use ckos.Workflow.Occurs.{occurs, occurs-append}
use ckos.Workflow.Placing.{IsLinked, IsOngoing, place_one}
use ckos.Workflow.Counting.{deps_at, count_steps-IsSummed}
use ckos.Workflow.Order.{fresh, length-replicate, counted_linked, initial-Ongoing}

-- How many of the first `n` steps are not placed.
abbrev pub unplaced : List ℕ → ℕ → ℕ
unplaced order zero = 0
unplaced order (suc n) = unplaced order n + (if occurs n order == 0 then 1 else 0)

unplaced-above :
    (order : List ℕ) (node n : ℕ) → n ≤ node → unplaced (order ++ node ∷ []) n ≡ unplaced order n
unplaced-above order node zero h = refl
unplaced-above order node (suc n) h =
    ground (arith, unplaced-above order node n, occurs-append n order (node ∷ []))

pub unplaced-append :
    (order : List ℕ) (node n : ℕ)
    → node < n
    → occurs node order ≡ 0
    → unplaced (order ++ node ∷ []) n + 1 ≡ unplaced order n
unplaced-append order node zero less new = absurd (omega arith)
unplaced-append order node (suc n) less new = elim (Bool-cases (node == n)) [
  | inl same ↦
      let e : node ≡ n = ground arith in
      ground (arith, e, unplaced-above order node n, occurs-append n order (node ∷ []))
  | inr differ ↦ ground (arith, unplaced-append order node n, occurs-append n order (node ∷ []))
]

unplaced_le : (n : ℕ) → unplaced [] n ≤ n
unplaced_le zero = omega arith
unplaced_le (suc n) = ground (arith, unplaced_le n)

module _ (n : ℕ) (deps : ℕ → List ℕ) (dependents : List (List ℕ)) where
  place_all-fuel :
      (fuel more : ℕ) (st : List ℕ × List ℕ) (order : List ℕ)
      → IsLinked n deps dependents
      → IsOngoing n deps dependents order st
      → unplaced order n < fuel
      → unplaced order n < more
      → place_all more dependents st order ≡ place_all fuel dependents st order
  unfolding place_all
  place_all-fuel zero more st order l h less less' = absurd (omega arith)
  place_all-fuel (suc fuel) zero st order l h less less' = absurd (omega arith)
  place_all-fuel (suc fuel) (suc more) (indegree, []) order l h less less' = refl
  place_all-fuel (suc fuel) (suc more) (indegree, node ∷ ready) order l h less less' =
      let new : occurs node order ≡ 0 = ground (arith, h.once node) in
      let known : node < n = h.known node (ground arith) in
      let fewer = unplaced-append order node n known new in
      place_all-fuel fuel more _ (order ++ node ∷ []) l
        (place_one n deps dependents indegree node ready order l h) (omega (arith, fewer, less))
        (omega (arith, fewer, less'))

-- If the dependencies of a workflow were counted, then with more fuel than `topological_order` gives
-- it, its loop makes the same order.
pub topological_order-fuel :
    (dag : Dag) (c : Counts) (fuel : ℕ)
    → count_steps (len dag) 0 dag.steps (fresh (len dag)) ≡ some c
    → len dag < fuel
    → (let ready = reverse (keep (λ i. at_ℕ c.indegree i == 0) (range 0 (len dag))) in
        place_all fuel c.dependents (c.indegree, ready) []
        ≡ place_all (len dag + 1) c.dependents (c.indegree, ready) [])
unfolding len
topological_order-fuel dag c fuel counted less =
    let h =
      count_steps-IsSummed (len dag) 0 dag.steps (fresh (len dag)) c (omega arith)
        (length-replicate (len dag) 0, length-replicate (len dag) []) counted in
    place_all-fuel (len dag) (deps_at dag.steps) c.dependents (len dag + 1) fuel _ []
      (counted_linked dag c h) (initial-Ongoing dag c h) (omega (arith, unplaced_le (len dag)))
      (omega (arith, unplaced_le (len dag), less))
