-- ===== src/Workflow/Counting.antt =====
-- The loops of `topological_order` in workflow/src/lib.rs that count the dependencies of every step.
use ckos.Base.{
  ℕ, zero, suc, ◌+◌, ◌<◌, ◌≤◌, List, [], ◌∷◌, ◌++◌, some, ◌≡◌, refl, arith, ◌==◌, nat_eq, leb,
  if◌then◌else◌, length, set, Bool-cases, Option-cases, inl, inr, ◌∙◌,
}
use mathlib.Core.Path.{subst}
use ckos.Workflow.{Step, Counts, at_ℕ, at_list, count_deps, count_steps}
use ckos.Workflow.Occurs.{occurs, occurs-append}

-- The dependencies of the step at an index; there are none out of range.
abbrev pub deps_at : List Step → ℕ → List ℕ
deps_at [] i = []
deps_at (s ∷ ss) zero = s.deps
deps_at (s ∷ ss) (suc i) = deps_at ss i

length-set : {A : Type 0} (xs : List A) (i : ℕ) (v : A) → length (set xs i v) ≡ length xs
length-set [] i v = refl
length-set (x ∷ xs) zero v = refl
length-set (x ∷ xs) (suc i) v = omega (arith, length-set xs i v)

at_ℕ-set_in :
    (xs : List ℕ) (i v j : ℕ)
    → i < length xs
    → at_ℕ (set xs i v) j ≡ (if i == j then v else at_ℕ xs j)
at_ℕ-set_in [] i v j h = absurd (omega arith)
at_ℕ-set_in (x ∷ xs) zero v zero h = refl
at_ℕ-set_in (x ∷ xs) zero v (suc j) h = ground arith
at_ℕ-set_in (x ∷ xs) (suc i) v zero h = ground arith
at_ℕ-set_in (x ∷ xs) (suc i) v (suc j) h = ground (arith, at_ℕ-set_in xs i v j)

at_list-set_in :
    (xs : List (List ℕ)) (i : ℕ) (v : List ℕ) (j : ℕ)
    → i < length xs
    → at_list (set xs i v) j ≡ (if i == j then v else at_list xs j)
at_list-set_in [] i v j h = absurd (omega arith)
at_list-set_in (x ∷ xs) zero v zero h = refl
at_list-set_in (x ∷ xs) zero v (suc j) h = ground arith
at_list-set_in (x ∷ xs) (suc i) v zero h = ground arith
at_list-set_in (x ∷ xs) (suc i) v (suc j) h = ground (arith, at_list-set_in xs i v j)

-- What counting the dependencies `ds` of step `i` adds.
pub record IsAdded (n i : ℕ) (ds : List ℕ) (c c' : Counts) : Type 0 where
  pub sizes : (length c'.indegree ≡ n) × (length c'.dependents ≡ n)
  pub indegrees :
      (j : ℕ) → at_ℕ c'.indegree j ≡ at_ℕ c.indegree j + (if i == j then length ds else 0)
  pub entries :
      (d j : ℕ)
      → occurs j (at_list c'.dependents d)
        ≡ occurs j (at_list c.dependents d) + (if i == j then occurs d ds else 0)

abbrev pub IsSized : ℕ → Counts → Type 0
IsSized n c = (length c.indegree ≡ n) × (length c.dependents ≡ n)

-- A step that is noted as a dependent of `d` occurs once more there.
occurs-noted :
    (d i : ℕ) (xs : List (List ℕ)) (x j : ℕ)
    → d < length xs
    → occurs j (at_list (set xs d (at_list xs d ++ i ∷ [])) x)
      ≡ occurs j (at_list xs x) + (if d == x then (if i == j then 1 else 0) else 0)
occurs-noted d i xs x j less = elim (Bool-cases (d == x)) [
  | inl same ↦
      let e : d ≡ x = ground arith in
      rw (at_list-set_in xs d (at_list xs d ++ i ∷ []) x less, same, ← e)
        (omega (arith, occurs-append j (at_list xs d) (i ∷ [])))
  | inr differ ↦ rw (at_list-set_in xs d (at_list xs d ++ i ∷ []) x less, differ) (omega arith)
]

count_deps-IsAdded :
    (n i : ℕ) (ds : List ℕ) (c c' : Counts)
    → i < n
    → IsSized n c
    → count_deps n i ds c ≡ some c'
    → IsAdded n i ds c c'
unfolding count_deps
count_deps-IsAdded n i [] c c' less sized e =
    let same : c ≡ c' = cc in
    subst (IsAdded n i [] c) same
      (record { sizes = sized; indegrees = λ j. ground arith; entries = λ d j. ground arith })
count_deps-IsAdded n i (d ∷ ds) c c' less sized e = elim (Bool-cases (leb n d)) [
  | inl dangling ↦ cc (rw dangling at e)
  | inr inside ↦
      let mid : Counts = record {
        indegree = set c.indegree i (at_ℕ c.indegree i + 1);
        dependents = set c.dependents d (at_list c.dependents d ++ i ∷ []);
      } in
      let sized' : IsSized n mid =
        (length-set c.indegree i _ ∙ sized.0, length-set c.dependents d _ ∙ sized.1) in
      let rest : IsAdded n i ds mid c' =
        count_deps-IsAdded n i ds mid c' less sized' (rw inside at e) in
      let written = at_ℕ-set_in c.indegree i (at_ℕ c.indegree i + 1) in
      record {
        sizes = rest.sizes;
        indegrees = λ j. ground (arith, rest.indegrees j, written j (omega (arith, sized.0)));
        entries = λ x j.
            ground (
              arith,
              rest.entries x j,
              occurs-noted d i c.dependents x j (ground (arith, sized.1)),
            );
      }
]

-- What counting the steps from index `i` on adds.
pub record IsSummed (n i : ℕ) (ss : List Step) (c c' : Counts) : Type 0 where
  pub below : (j : ℕ) → j < i → at_ℕ c'.indegree j ≡ at_ℕ c.indegree j
  pub indegrees :
      (m : ℕ) → at_ℕ c'.indegree (i + m) ≡ at_ℕ c.indegree (i + m) + length (deps_at ss m)
  pub entries_below :
      (d j : ℕ) → j < i → occurs j (at_list c'.dependents d) ≡ occurs j (at_list c.dependents d)
  pub entries :
      (d m : ℕ)
      → occurs (i + m) (at_list c'.dependents d)
        ≡ occurs (i + m) (at_list c.dependents d) + occurs d (deps_at ss m)

-- Counting a step, and then the others from the next index on.
indegrees_next :
    (n i : ℕ) (s : Step) (ss : List Step) (c mid c' : Counts)
    → IsAdded n i s.deps c mid
    → IsSummed n (i + 1) ss mid c'
    → (m : ℕ) → at_ℕ c'.indegree (i + m) ≡ at_ℕ c.indegree (i + m) + length (deps_at (s ∷ ss) m)
indegrees_next n i s ss c mid c' first rest zero =
    let here : i + 0 ≡ i = omega arith in rw here (ground (arith, rest.below i, first.indegrees i))
indegrees_next n i s ss c mid c' first rest (suc m) =
    let there : i + suc m ≡ i + 1 + m = omega arith in
    rw there (ground (arith, rest.indegrees m, first.indegrees (i + 1 + m)))

entries_next :
    (n i : ℕ) (s : Step) (ss : List Step) (c mid c' : Counts)
    → IsAdded n i s.deps c mid
    → IsSummed n (i + 1) ss mid c'
    → (d m : ℕ)
    → occurs (i + m) (at_list c'.dependents d)
      ≡ occurs (i + m) (at_list c.dependents d) + occurs d (deps_at (s ∷ ss) m)
entries_next n i s ss c mid c' first rest d zero =
    let here : i + 0 ≡ i = omega arith in
    rw here (ground (arith, rest.entries_below d i, first.entries d i))
entries_next n i s ss c mid c' first rest d (suc m) =
    let there : i + suc m ≡ i + 1 + m = omega arith in
    rw there (ground (arith, rest.entries d m, first.entries d (i + 1 + m)))

pub count_steps-IsSummed :
    (n i : ℕ) (ss : List Step) (c c' : Counts)
    → i + length ss ≤ n
    → IsSized n c
    → count_steps n i ss c ≡ some c'
    → IsSummed n i ss c c'
unfolding count_steps
count_steps-IsSummed n i [] c c' less sized e =
    let same : c ≡ c' = cc in
    subst (IsSummed n i [] c) same (record {
      below = λ j h. refl;
      indegrees = λ m. omega arith;
      entries_below = λ d j h. refl;
      entries = λ d m. omega arith;
    })
count_steps-IsSummed n i (s ∷ ss) c c' less sized e =
    elim (Option-cases (count_deps n i s.deps c)) [
      | inl dangling ↦ cc (rw (dangling, count_steps) at e)
      | inr (mid, counted) ↦
          let first = count_deps-IsAdded n i s.deps c mid (omega arith) sized counted in
          let rest =
            count_steps-IsSummed n (i + 1) ss mid c' (omega arith) first.sizes
              (rw (counted, count_steps) at e) in
          record {
            below = λ j h. ground (arith, rest.below j, first.indegrees j);
            indegrees = λ m. indegrees_next n i s ss c mid c' first rest m;
            entries_below = λ d j h. ground (arith, rest.entries_below d j, first.entries d j);
            entries = λ d m. entries_next n i s ss c mid c' first rest d m;
          }
    ]
