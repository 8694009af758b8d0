-- ===== src/Workflow/Acyclic.antt =====
-- A workflow of workflow/src/lib.rs whose steps depend on earlier steps only has an execution order.
use ckos.Base.{
  ℕ, false, zero, suc, ◌+◌, ◌-◌, ◌<◌, ◌≤◌, List, [], ◌∷◌, ◌++◌, some, ◌≡◌, refl, arith, nat_eq, leb,
  length, length-append, set, All, All-mono, Bool-cases, inl, inr,
}
use ckos.Workflow.{
  Step, Dag, Counts, at_ℕ, at_list, len, release, count_deps, count_steps, place_all, order_from,
  topological_order,
}
use ckos.Workflow.Occurs.{occurs, occurs-append, at_ℕ-set}
use ckos.Workflow.Release.{IsCounted, release_one}
use ckos.Workflow.Placing.{open_deps, IsLinked, IsOngoing, place_one, place_start}
use ckos.Workflow.Counting.{deps_at, count_steps-IsSummed}
use ckos.Workflow.Order.{
  IsOrder, fresh, length-replicate, counted_linked, initial, initial_due, initial-Ongoing,
  topological_order-IsOrder,
}
use ckos.Workflow.Fuel.{unplaced, unplaced-append}

-- Every step of the first `n` whose counter is zero is ready or placed.
abbrev Due : ℕ → List ℕ → List ℕ × List ℕ → Type 0
Due n placed st = (i : ℕ) → i < n → at_ℕ st.0 i ≡ 0 → 0 < occurs i st.1 + occurs i placed

release-Due :
    (n : ℕ) (ds placed : List ℕ) (st : List ℕ × List ℕ)
    → IsCounted ds placed st
    → Due n placed st
    → Due n placed (release ds st)
unfolding release
release-Due n [] placed st h due = due
release-Due n (d ∷ ds) placed (indegree, ready) h due =
    let here : 0 < at_ℕ indegree d = ground (arith, h.counted d) in
    let written = at_ℕ-set indegree d (at_ℕ indegree d - 1) in
    release-Due n ds placed _ (release_one d ds placed indegree ready h)
      (λ i less empty. ground (arith, written i here, due i less, empty))

open_deps-All : (order ds : List ℕ) → All (λ d. 0 < occurs d order) ds → open_deps order ds ≡ 0
open_deps-All order [] h = refl
open_deps-All order (d ∷ ds) h = ground (arith, open_deps-All order ds h.1, h.0)

-- The order that the loop ends with: whoever has no open dependency is placed.
record IsExhausted (n : ℕ) (deps : ℕ → List ℕ) (order : List ℕ) : Type 0 where
  closed : (i : ℕ) → i < n → open_deps order (deps i) ≡ 0 → 0 < occurs i order
  balance : unplaced order n + length order ≡ n

module _ (n : ℕ) (deps : ℕ → List ℕ) (dependents : List (List ℕ)) where
  place_all-IsExhausted :
      (fuel : ℕ) (st : List ℕ × List ℕ) (order : List ℕ)
      → IsLinked n deps dependents
      → IsOngoing n deps dependents order st
      → Due n order st
      → unplaced order n + length order ≡ n
      → unplaced order n < fuel
      → IsExhausted n deps (place_all fuel dependents st order)
  unfolding place_all
  place_all-IsExhausted zero st order l h due even less = absurd (omega arith)
  place_all-IsExhausted (suc fuel) (indegree, []) order l h due even less = record {
    closed = λ i inside shut. omega (arith, due i inside (omega (arith, h.exact i, shut)));
    balance = even;
  }
  place_all-IsExhausted (suc fuel) (indegree, node ∷ ready) order l h due even less =
      let new : occurs node order ≡ 0 = ground (arith, h.once node) in
      let known : node < n = h.known node (ground arith) in
      let fewer = unplaced-append order node n known new in
      let long = length-append order (node ∷ []) in
      place_all-IsExhausted fuel _ (order ++ node ∷ []) l
        (place_one n deps dependents indegree node ready order l h)
        (release-Due n (at_list dependents node) (order ++ node ∷ []) (indegree, ready)
          (place_start n deps dependents indegree node ready order l h)
          (λ i inside empty. omega (arith, due i inside empty, occurs-append i order (node ∷ []))))
        (omega (arith, fewer, long, even)) (omega (arith, fewer, less))

-- Where every step depends on earlier steps only, the exhausted order has every step.
module _ (n : ℕ) (deps : ℕ → List ℕ) (order : List ℕ) (h : IsExhausted n deps order)
    (early : (i : ℕ) → All (λ d. d < i) (deps i)) where
  all_placed : (bound i : ℕ) → i < bound → i < n → 0 < occurs i order
  all_placed zero i low inside = absurd (omega arith)
  all_placed (suc bound) i low inside = h.closed i inside (
      open_deps-All order (deps i) (
        All-mono (λ d. d < i) (λ d. 0 < occurs d order) (deps i)
          (λ d less. all_placed bound d (omega (arith, less, low)) (omega (arith, less, inside)))
          (early i)))

  none_unplaced : (m : ℕ) → m ≤ n → unplaced order m ≡ 0
  none_unplaced zero inside = refl
  none_unplaced (suc m) inside =
      ground (arith, none_unplaced m, all_placed (suc m) m (omega arith) inside)

count_deps-in_range :
    (n i : ℕ) (ds : List ℕ) (c : Counts)
    → All (λ d. d < n) ds
    → (c' : Counts) × (count_deps n i ds c ≡ some c')
unfolding count_deps
count_deps-in_range n i [] c h = (c, refl)
count_deps-in_range n i (d ∷ ds) c h =
    let next : Counts = record {
      indegree = set c.indegree i (at_ℕ c.indegree i + 1);
      dependents = set c.dependents d (at_list c.dependents d ++ i ∷ []);
    } in
    let (c', counted) = count_deps-in_range n i ds next h.1 in
    let inside : leb n d ≡ false = ground (arith, h.0) in (c', rw inside counted)

count_steps-in_range :
    (n i : ℕ) (ss : List Step) (c : Counts)
    → ((m : ℕ) → All (λ d. d < n) (deps_at ss m))
    → (c' : Counts) × (count_steps n i ss c ≡ some c')
unfolding count_steps
count_steps-in_range n i [] c h = (c, refl)
count_steps-in_range n i (s ∷ ss) c h =
    let first = count_deps-in_range n i s.deps c (h 0) in
    let rest = count_steps-in_range n (i + 1) ss first.0 (λ m. h (suc m)) in
    (rest.0, rw (first.1, count_steps) rest.1)

-- The steps depend on earlier steps only.
abbrev pub IsForward : Dag → Type 0
IsForward dag = (i : ℕ) → All (λ d. d < i) (deps_at dag.steps i)

unplaced-nil : (n : ℕ) → unplaced [] n ≡ n
unplaced-nil zero = refl
unplaced-nil (suc n) = ground (arith, unplaced-nil n)

pub deps_at-above : (ss : List Step) (i : ℕ) → length ss ≤ i → deps_at ss i ≡ []
deps_at-above [] i h = refl
deps_at-above (s ∷ ss) zero h = absurd (omega arith)
deps_at-above (s ∷ ss) (suc i) h = deps_at-above ss i (omega arith)

forward-in_range :
    (dag : Dag) → IsForward dag → (i : ℕ) → All (λ d. d < len dag) (deps_at dag.steps i)
unfolding len
forward-in_range dag early i = elim (Bool-cases (leb (length dag.steps) i)) [
  | inl out ↦ rw (deps_at-above dag.steps i (ground arith)) tt
  | inr inside ↦
      All-mono (λ d. d < i) (λ d. d < len dag) (deps_at dag.steps i)
        (λ d less. ground (arith, less)) (early i)
]

-- A workflow whose steps depend on earlier steps only has an execution order: topological_order
-- returns one, with every step once, after all its dependencies.
pub forward-topological_order :
    (dag : Dag)
    → IsForward dag
    → (order : List ℕ) × (topological_order dag ≡ some order) × IsOrder dag order
unfolding topological_order order_from len
forward-topological_order dag early =
    let n = len dag in
    let (c, counted) = count_steps-in_range n 0 dag.steps (fresh n) (forward-in_range dag early) in
    let h =
      count_steps-IsSummed n 0 dag.steps (fresh n) c (omega arith)
        (length-replicate n 0, length-replicate n []) counted in
    let made = place_all (n + 1) c.dependents (c.indegree, initial dag c h) [] in
    let nothing = unplaced-nil n in
    let ended : IsExhausted n (deps_at dag.steps) made =
      place_all-IsExhausted n (deps_at dag.steps) c.dependents (n + 1) (c.indegree, initial dag c h)
        [] (counted_linked dag c h) (initial-Ongoing dag c h)
        (λ i inside empty. omega (arith, initial_due dag c h i inside empty))
        (omega (arith, nothing)) (omega (arith, nothing)) in
    let full : length made ≡ n = omega (
      arith,
      ended.balance,
      none_unplaced n (deps_at dag.steps) made ended early n (omega arith),
    ) in
    let found : topological_order dag ≡ some made =
      rw (counted, order_from) (ground (arith, full)) in
    (made, found, topological_order-IsOrder dag made found)
