-- ===== src/Planner/Plans.antt =====
-- What the plans of planner/src/lib.rs are: workflows that have an execution order.
use ckos.Base.{
  ℕ, zero, suc, ◌+◌, ◌<◌, String, List, [], ◌∷◌, ◌++◌, none, some, ◌≡◌, refl, arith, length,
  length-append, get_elem?, All, Bool-cases, length-append, inl, inr, ◌==◌, nat_eq, ltb, contains,
  false, if◌then◌else◌, keep, ◌-◌,
}
use ckos.Kernel.Capability.{capability_eq}
use ckos.Kernel.Task
use ckos.Workflow.{Dag, Step, add_step, topological_order, len}
use ckos.Workflow
use ckos.Workflow.Counting.{deps_at}
use ckos.Workflow.Order.{IsOrder}
use ckos.Engine.Execute.{sensitive_capabilities}
use ckos.Workflow.Acyclic.{deps_at-above, forward-topological_order}
use ckos.Planner.{
  SubTask, Intent, research, code, translate, question, generic, known_refs, wire, plan, decompose,
  pipeline, classify,
}

-- The references are those of the first `n` steps, in order.
IsRefs : List ℕ → ℕ → Type 0
IsRefs refs n = (i : ℕ) → get_elem? refs i ≡ (if ltb i n then some i else none)

known_refs-lem :
    (n : ℕ) (refs is : List ℕ) → IsRefs refs n → known_refs refs is ≡ keep (λ i. ltb i n) is
unfolding known_refs IsRefs
known_refs-lem n refs [] h = refl
known_refs-lem n refs (i ∷ is) h = elim (Bool-cases (ltb i n)) [
  | inl low ↦
      (let at = h i in
        let hit = rw low at at in rw (known_refs, hit, low) (rw (known_refs-lem n refs is h) refl))
  | inr high ↦
      (let at = h i in
        let miss = rw high at at in rw (known_refs, miss, high) (known_refs-lem n refs is h))
]

get_elem?-snoc :
    (refs : List ℕ) (r i : ℕ)
    → get_elem? (refs ++ r ∷ []) i ≡ (if i == length refs then some r else get_elem? refs i)
get_elem?-snoc [] r zero = refl
get_elem?-snoc [] r (suc i) = ground arith
get_elem?-snoc (x ∷ xs) r zero = ground arith
get_elem?-snoc (x ∷ xs) r (suc i) = ground (arith, get_elem?-snoc xs r i)

deps_at-snoc :
    (ss : List Step) (s : Step) (i : ℕ)
    → deps_at (ss ++ s ∷ []) i ≡ (if i == length ss then s.deps else deps_at ss i)
deps_at-snoc [] s zero = refl
deps_at-snoc [] s (suc i) = ground arith
deps_at-snoc (x ∷ xs) s zero = ground arith
deps_at-snoc (x ∷ xs) s (suc i) = ground (arith, deps_at-snoc xs s i)

-- The dependencies that the subtask of an index asks for.
abbrev pub wanted : List SubTask → ℕ → List ℕ
wanted [] i = []
wanted (st ∷ sts) zero = st.depends_on
wanted (st ∷ sts) (suc i) = wanted sts i

length-add_step :
    (dag : Dag) (task : Task.Task) (deps : List ℕ)
    → length (add_step dag task deps).1.steps ≡ suc (length dag.steps)
unfolding add_step
length-add_step dag task deps = omega (arith, length-append dag.steps (_ ∷ []))

deps_at-add_step :
    (dag : Dag) (task : Task.Task) (deps : List ℕ) (i : ℕ)
    → deps_at (add_step dag task deps).1.steps i
      ≡ (if i == length dag.steps then deps else deps_at dag.steps i)
unfolding add_step
deps_at-add_step dag task deps i = deps_at-snoc dag.steps _ i

-- A step for every subtask, which depends on the earlier steps that the subtask names, and an order.
pub record IsPlan (sts : List SubTask) (dag : Dag) : Type 0 where
  pub complete : len dag ≡ length sts
  pub wired : (i : ℕ) → deps_at dag.steps i ≡ keep (λ d. ltb d i) (wanted sts i)
  pub ordered : (order : List ℕ) × (topological_order dag ≡ some order) × IsOrder dag order

module _ (mint : ℕ → String) where
  wire-deps :
      (k : ℕ) (sts : List SubTask) (refs : List ℕ) (dag : Dag) (i : ℕ)
      → length refs ≡ length dag.steps
      → IsRefs refs (length dag.steps)
      → deps_at (wire mint k sts refs dag).steps i ≡ (
          if ltb i (length dag.steps)
          then deps_at dag.steps i
          else keep (λ d. ltb d i) (wanted sts (i - length dag.steps)))
  unfolding wire IsRefs add_step
  wire-deps k [] refs dag i size h = ground (arith, deps_at-above dag.steps i)
  wire-deps k (st ∷ sts) refs dag i size h =
      let n = length dag.steps in
      let deps = known_refs refs st.depends_on in
      let task = Task.new (mint k) st.description st.capability in
      let next = (add_step dag task deps).1 in
      let longer = length-add_step dag task deps in
      let refs' : IsRefs (refs ++ n ∷ []) (length next.steps) =
        λ j. ground (arith, get_elem?-snoc refs n j, h j, size, longer) in
      let size' : length (refs ++ n ∷ []) ≡ length next.steps =
        ground (arith, size, longer, length-append refs (n ∷ [])) in
      let rest = wire-deps (suc k) sts (refs ++ n ∷ []) next i size' refs' in
      let here = deps_at-add_step dag task deps i in
      let filtered = known_refs-lem n refs st.depends_on h in
      elim (Bool-cases (ltb i n)) [
        | inl low ↦ ground (arith, rest, here, longer)
        | inr high ↦ elim (Bool-cases (i == n)) [
          | inl same ↦
              let e : i ≡ n = ground arith in
              let first : i - n ≡ 0 = omega (arith, e) in
              let own : wanted (st ∷ sts) (i - n) ≡ st.depends_on = rw first refl in
              let bound : keep (λ d. ltb d i) st.depends_on ≡ keep (λ d. ltb d n) st.depends_on =
                rw e refl in
              rw (high, own, bound) (ground (arith, rest, here, longer, filtered))
          | inr differ ↦
              let later : i - n ≡ suc (i - length next.steps) = ground (arith, longer) in
              let own : wanted (st ∷ sts) (i - n) ≡ wanted sts (i - length next.steps) =
                rw later refl in
              rw (high, own) (ground (arith, rest, here, longer))
        ]
      ]

  length-wire :
      (k : ℕ) (sts : List SubTask) (refs : List ℕ) (dag : Dag)
      → length (wire mint k sts refs dag).steps ≡ length dag.steps + length sts
  unfolding wire
  length-wire k [] refs dag = omega arith
  length-wire k (st ∷ sts) refs dag =
      let task = Task.new (mint k) st.description st.capability in
      let deps = known_refs refs st.depends_on in
      let longer = length-add_step dag task deps in
      omega (arith, length-wire (suc k) sts _ (add_step dag task deps).1, longer)

  plan-deps :
      (id intent : String) (sts : List SubTask) (i : ℕ)
      → deps_at (plan mint id intent sts).steps i ≡ keep (λ d. ltb d i) (wanted sts i)
  unfolding plan Workflow.new IsRefs
  plan-deps id intent sts i =
      let first : i - 0 ≡ i = omega arith in
      rw (wire-deps 0 sts [] (Workflow.new id intent) i refl (λ j. ground arith), first)
        (ground arith)

  keep_below : (i : ℕ) (ds : List ℕ) → All (λ d. d < i) (keep (λ d. ltb d i) ds)
  keep_below i [] = tt
  keep_below i (d ∷ ds) = elim (Bool-cases (ltb d i)) [
    | inl low ↦ rw low (ground (arith, low), keep_below i ds)
    | inr high ↦ rw high (keep_below i ds)
  ]

  -- Whatever the subtasks, the plan has a step for each of them; a step depends on the steps that its
  -- subtask names, less those that are not before it; and topological_order returns an order of the
  -- plan, with every step once, after all its dependencies.
  pub plan-IsPlan : (id intent : String) (sts : List SubTask) → IsPlan sts (plan mint id intent sts)
  unfolding len plan Workflow.new
  plan-IsPlan id intent sts = record {
    complete = omega (arith, length-wire 0 sts [] (Workflow.new id intent));
    wired = plan-deps id intent sts;
    ordered =
        forward-topological_order (plan mint id intent sts)
          (λ i. rw (plan-deps id intent sts i) (keep_below i (wanted sts i)));
  }

-- What the subtasks of an intent are: they depend on earlier ones, and need no regulated capability.
pub record IsSafe (sts : List SubTask) : Type 0 where
  pub backward : (i : ℕ) → All (λ d. d < i) (wanted sts i)
  pub unregulated : All (λ st. contains st.capability sensitive_capabilities ≡ false) sts

pipeline-IsSafe : (intent : String) (what : Intent) → IsSafe (pipeline intent what)
unfolding pipeline sensitive_capabilities
pipeline-IsSafe intent research = record {
  backward = early;
  unregulated = (refl, (refl, (refl, (refl, (refl, tt)))));
}
  where
    early : (i : ℕ) → All (λ d. d < i) (wanted (pipeline intent research) i)
    early zero = tt
    early (suc zero) = (omega arith, tt)
    early (suc (suc zero)) = (omega arith, tt)
    early (suc (suc (suc zero))) = (omega arith, tt)
    early (suc (suc (suc (suc zero)))) = (omega arith, tt)
    early (suc (suc (suc (suc (suc i))))) = tt
pipeline-IsSafe intent code = record { backward = early; unregulated = (refl, (refl, (refl, tt))) }
  where
    early : (i : ℕ) → All (λ d. d < i) (wanted (pipeline intent code) i)
    early zero = tt
    early (suc zero) = (omega arith, tt)
    early (suc (suc zero)) = (omega arith, tt)
    early (suc (suc (suc i))) = tt
pipeline-IsSafe intent translate = record { backward = early; unregulated = (refl, tt) }
  where
    early : (i : ℕ) → All (λ d. d < i) (wanted (pipeline intent translate) i)
    early zero = tt
    early (suc i) = tt
pipeline-IsSafe intent question = record { backward = early; unregulated = (refl, (refl, tt)) }
  where
    early : (i : ℕ) → All (λ d. d < i) (wanted (pipeline intent question) i)
    early zero = tt
    early (suc zero) = (omega arith, tt)
    early (suc (suc i)) = tt
pipeline-IsSafe intent generic = record { backward = early; unregulated = (refl, tt) }
  where
    early : (i : ℕ) → All (λ d. d < i) (wanted (pipeline intent generic) i)
    early zero = tt
    early (suc i) = tt

-- Whatever the intent and the lower-casing of texts, the subtasks that decompose returns depend on
-- earlier ones only, so that no dependency is lost when they are wired, and none of them needs a
-- capability that the engine gates as sensitive.
pub decompose-IsSafe : (lower : String → String) (intent : String) → IsSafe (decompose lower intent)
unfolding decompose
decompose-IsSafe lower intent = pipeline-IsSafe intent (classify lower intent)
