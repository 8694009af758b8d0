-- ===== src/Workflow/Order.antt =====
-- The execution order that `topological_order` of workflow/src/lib.rs returns.
use mathlib.Core.Path.{subst}
use mathlib.Core.List.{reverse, reverse-cons}
use ckos.Base.{
  ℕ, zero, suc, ◌+◌, ◌<◌, ◌≤◌, List, [], ◌∷◌, Bool, true, some, ◌≡◌, refl, arith, ◌==◌, nat_eq,
  length, keep, Bool-cases, Option-cases, inl, inr,
}
use ckos.Workflow.{
  Step, Dag, Counts, at_ℕ, at_list, replicate, range, len, count_steps, order_from,
  topological_order, place_all,
}
use ckos.Workflow.Occurs.{occurs, occurs-append}
use ckos.Workflow.Placing.{open_deps, Respects, begun, IsLinked, IsOngoing, place_all-Ongoing}
use ckos.Workflow.Counting.{deps_at, IsSummed, count_steps-IsSummed}

at_ℕ-replicate : (n i : ℕ) → at_ℕ (replicate n 0) i ≡ 0
at_ℕ-replicate zero i = refl
at_ℕ-replicate (suc n) zero = refl
at_ℕ-replicate (suc n) (suc i) = at_ℕ-replicate n i

at_list-replicate : (n i : ℕ) → at_list (replicate n []) i ≡ []
at_list-replicate zero i = refl
at_list-replicate (suc n) zero = refl
at_list-replicate (suc n) (suc i) = at_list-replicate n i

pub length-replicate : {A : Type 0} (n : ℕ) (a : A) → length (replicate n a) ≡ n
length-replicate zero a = refl
length-replicate (suc n) a = omega (arith, length-replicate n a)

occurs-reverse : (i : ℕ) (xs : List ℕ) → occurs i (reverse xs) ≡ occurs i xs
occurs-reverse i [] = refl
occurs-reverse i (x ∷ xs) =
    rw (reverse-cons x xs)
      (omega (arith, occurs-append i (reverse xs) (x ∷ []), occurs-reverse i xs))

-- The indexes of a range that pass a test.
occurs-keep : (p : ℕ → Bool) (i from n : ℕ) → i < from → occurs i (keep p (range from n)) ≡ 0
occurs-keep p i from zero h = refl
occurs-keep p i from (suc n) h = ground (arith, occurs-keep p i (suc from) n)

keep_once : (p : ℕ → Bool) (i from n : ℕ) → occurs i (keep p (range from n)) ≤ 1
keep_once p i from zero = omega arith
keep_once p i from (suc n) =
    ground (arith, keep_once p i (suc from) n, occurs-keep p i (suc from) n)

keep_passes :
    (p : ℕ → Bool) (i from n : ℕ)
    → 0 < occurs i (keep p (range from n))
    → (p i ≡ true) × (i < from + n)
keep_passes p i from zero h = absurd (omega arith)
keep_passes p i from (suc n) h = elim (Bool-cases (from == i)) [
  | inl same ↦
      let e : from ≡ i = ground arith in
      elim (Bool-cases (p from)) [
        | inl good ↦ (subst (λ k. p k ≡ true) e good, omega arith)
        | inr bad ↦
            let gone : occurs i (keep p (range (suc from) n)) ≡ 0 =
              occurs-keep p i (suc from) n (omega arith) in
            let there : 0 < occurs i (keep p (range (suc from) n)) = rw bad at h in
            absurd (omega (arith, gone, there))
      ]
  | inr differ ↦ ground (arith, keep_passes p i (suc from) n)
]

keep_has :
    (p : ℕ → Bool) (i from n : ℕ)
    → from ≤ i
    → i < from + n
    → p i ≡ true
    → 0 < occurs i (keep p (range from n))
keep_has p i from zero low high good = absurd (omega arith)
keep_has p i from (suc n) low high good = elim (Bool-cases (from == i)) [
  | inl same ↦
      let e : from ≡ i = ground arith in
      let here : p from ≡ true = rw e good in rw here (ground arith)
  | inr differ ↦
      let rest = keep_has p i (suc from) n (ground arith) (omega (arith, high)) good in
      ground (arith, rest)
]

open_deps-nil : (ds : List ℕ) → open_deps [] ds ≡ length ds
open_deps-nil [] = refl
open_deps-nil (d ∷ ds) = omega (arith, open_deps-nil ds)

deps_at-inside : (ss : List Step) (i d : ℕ) → 0 < occurs d (deps_at ss i) → i < length ss
deps_at-inside [] i d h = absurd (omega arith)
deps_at-inside (s ∷ ss) zero d h = omega arith
deps_at-inside (s ∷ ss) (suc i) d h = omega (arith, deps_at-inside ss i d h)

-- What the order of a workflow is: every step once, after all its dependencies.
pub record IsOrder (dag : Dag) (order : List ℕ) : Type 0 where
  pub complete : length order ≡ len dag
  pub known : (i : ℕ) → 0 < occurs i order → i < len dag
  pub respects : Respects (deps_at dag.steps) order

abbrev pub fresh : ℕ → Counts
fresh n = record { indegree = replicate n 0; dependents = replicate n [] }

module _ (dag : Dag) (c : Counts) (h : IsSummed (len dag) 0 dag.steps (fresh (len dag)) c) where
  counted_indegree : (i : ℕ) → at_ℕ c.indegree i ≡ length (deps_at dag.steps i)
  counted_indegree i =
      let here : 0 + i ≡ i = omega arith in
      let sum = h.indegrees i in
      let sum' : at_ℕ c.indegree i ≡ at_ℕ (replicate (len dag) 0) i + length (deps_at dag.steps i) =
        rw here at sum in
      omega (arith, sum', at_ℕ-replicate (len dag) i)

  pub counted_linked : IsLinked (len dag) (deps_at dag.steps) c.dependents
  unfolding len
  counted_linked = record {
    linked = λ i d.
        let here : 0 + i ≡ i = omega arith in
        let sum = h.entries d i in
        let sum' : occurs i (at_list c.dependents d)
            ≡ occurs i (at_list (replicate (len dag) []) d) + occurs d (deps_at dag.steps i) =
          rw here at sum in
        let none_ : occurs i (at_list (replicate (len dag) []) d) ≡ 0 =
          rw (at_list-replicate (len dag) d) refl in
        omega (arith, sum', none_);
    inside = λ i d pos. deps_at-inside dag.steps i d pos;
  }

  -- The steps that are ready at first.
  abbrev pub initial : List ℕ
  initial = reverse (keep (λ i. at_ℕ c.indegree i == 0) (range 0 (len dag)))

  initial_ready : (i : ℕ) → 0 < occurs i initial → (at_ℕ c.indegree i ≡ 0) × (i < len dag)
  initial_ready i pos =
      let test : ℕ → Bool = λ i. at_ℕ c.indegree i == 0 in
      let kept : 0 < occurs i (keep test (range 0 (len dag))) =
        omega (arith, pos, occurs-reverse i (keep test (range 0 (len dag)))) in
      let (zero_, less) = keep_passes test i 0 (len dag) kept in
      (ground (arith, zero_), omega (arith, less))

  -- Every step without dependencies is ready at first.
  pub initial_due : (i : ℕ) → i < len dag → at_ℕ c.indegree i ≡ 0 → 0 < occurs i initial
  initial_due i inside empty =
      let test : ℕ → Bool = λ i. at_ℕ c.indegree i == 0 in
      omega (
        arith,
        keep_has test i 0 (len dag) (omega arith) (omega (arith, inside)) (ground (arith, empty)),
        occurs-reverse i (keep test (range 0 (len dag))),
      )

  pub initial-Ongoing :
      IsOngoing (len dag) (deps_at dag.steps) c.dependents [] (c.indegree, initial)
  initial-Ongoing = record {
    exact = λ i. omega (arith, counted_indegree i, open_deps-nil (deps_at dag.steps i));
    once = λ i. omega (
      arith,
      keep_once (λ i. at_ℕ c.indegree i == 0) i 0 (len dag),
      occurs-reverse i (keep (λ i. at_ℕ c.indegree i == 0) (range 0 (len dag))),
    );
    free = λ i pos. (initial_ready i (omega (arith, pos))).0;
    known = λ i pos. (initial_ready i (omega (arith, pos))).1;
    respects = begun;
  }

-- An order that `topological_order` returns has as many entries as the workflow has steps, each the
-- index of a step, none twice, and every step after all its dependencies.
pub topological_order-IsOrder :
    (dag : Dag) (order : List ℕ) → topological_order dag ≡ some order → IsOrder dag order
unfolding topological_order order_from len
topological_order-IsOrder dag order e =
    elim (Option-cases (count_steps (len dag) 0 dag.steps (fresh (len dag)))) [
      | inl dangling ↦ cc (rw (dangling, order_from) at e)
      | inr (c, counted) ↦
          let h =
            count_steps-IsSummed (len dag) 0 dag.steps (fresh (len dag)) c (omega arith)
              (length-replicate (len dag) 0, length-replicate (len dag) []) counted in
          let (respects, known) =
            place_all-Ongoing (len dag) (deps_at dag.steps) c.dependents (len dag + 1)
              (c.indegree, initial dag c h) [] (counted_linked dag c h) (initial-Ongoing dag c h) in
          let made = place_all (len dag + 1) c.dependents (c.indegree, initial dag c h) [] in
          elim (Bool-cases (length made == len dag)) [
            | inr short ↦ cc (rw (counted, order_from, short) at e)
            | inl full ↦
                let same : made ≡ order = cc (rw (counted, order_from, full) at e) in
                subst (IsOrder dag) same
                  (record { complete = ground arith; known = known; respects = respects })
          ]
    ]
