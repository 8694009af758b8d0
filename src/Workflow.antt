-- ===== src/Workflow.antt =====
-- workflow/src/lib.rs: workflows as graphs of steps, and their execution order. A `StepRef` is its
-- index. The reading of definition files and the rendering for Graphviz are not modelled here.
pub mod Occurs
pub mod Release
pub mod Placing
pub mod Counting
pub mod Order
pub mod Fuel
pub mod Acyclic
use ckos.Base.{
  ℕ, zero, suc, ◌+◌, ◌-◌, String, List, [], ◌∷◌, ◌++◌, Option, none, some, leb, ◌==◌, nat_eq,
  if◌then◌else◌, length, get_elem?, set, keep, get_or,
}
use mathlib.Core.List.{reverse}
use ckos.Kernel.Task.{Task}

pub record Step : Type 0 where
  pub task : Task
  pub deps : List ℕ

pub record Dag : Type 0 where
  pub id : String
  pub name : String
  pub steps : List Step

-- `Dag::new`, given the id that `WorkflowId::new` minted
unfoldable pub new : String → String → Dag
new id name = record { id = id; name = name; steps = [] }

-- the ids of the steps that the references name; a reference out of range names none
unfoldable pub dep_ids : List Step → List ℕ → List String
dep_ids steps [] = []
dep_ids steps (r ∷ rs) =
    let rest = dep_ids steps rs in
    elim (get_elem? steps r) [ none ↦ rest | some s ↦ s.task.id ∷ rest ]

unfoldable pub add_step : Dag → Task → List ℕ → ℕ × Dag
unfolding dep_ids
add_step dag task deps =
    let task' = record task {
      workflow = some dag.id;
      depends_on = task.depends_on ++ dep_ids dag.steps deps;
    } in
    (
      length dag.steps,
      record dag { steps = dag.steps ++ (record { task = task'; deps = deps }) ∷ [] },
    )

unfoldable pub len : Dag → ℕ
len dag = length dag.steps

unfoldable pub task_of : Option Step → Option Task
task_of none = none
task_of (some s) = some s.task

unfoldable pub task : Dag → ℕ → Option Task
unfolding task_of
task dag r = task_of (get_elem? dag.steps r)

-- A read of a `Vec` of counters, or of lists, in range.
abbrev pub at_ℕ : List ℕ → ℕ → ℕ
at_ℕ xs i = get_or (get_elem? xs i) 0

abbrev pub at_list : List (List ℕ) → ℕ → List ℕ
at_list xs i = get_or (get_elem? xs i) []

abbrev pub replicate {ℓ} : {A : Type ℓ} → ℕ → A → List A
replicate zero a = []
replicate (suc n) a = a ∷ replicate n a

-- from, from + 1, …, `n` numbers
abbrev pub range : ℕ → ℕ → List ℕ
range from zero = []
range from (suc n) = from ∷ range (suc from) n

-- The incoming counts and the dependents of every step.
pub record Counts : Type 0 where
  pub indegree : List ℕ
  pub dependents : List (List ℕ)

-- the inner loop over the dependencies of step `i`; `none` is the early return
unfoldable pub count_deps : ℕ → ℕ → List ℕ → Counts → Option Counts
count_deps n i [] c = some c
count_deps n i (d ∷ ds) c =
    let rest = count_deps n i ds (record {
      indegree = set c.indegree i (at_ℕ c.indegree i + 1);
      dependents = set c.dependents d (at_list c.dependents d ++ i ∷ []);
    }) in
    if leb n d then none else rest

-- the outer loop over the steps, from step `i` on
unfoldable pub count_steps : ℕ → ℕ → List Step → Counts → Option Counts
unfolding count_deps
count_steps n i [] c = some c
count_steps n i (s ∷ ss) c = elim (count_deps n i s.deps c) [
  | none ↦ none
  | some c' ↦ count_steps n (i + 1) ss c'
]

-- the loop over the dependents of a step that was placed: `ready` has the end of the `Vec` first
unfoldable pub release : List ℕ → List ℕ × List ℕ → List ℕ × List ℕ
release [] st = st
release (next ∷ rest) (indegree, ready) =
    let left = at_ℕ indegree next - 1 in
    release rest (set indegree next left, if left == 0 then next ∷ ready else ready)

-- `while let Some(node) = ready.pop()`, for as many rounds as the fuel allows
unfoldable pub place_all : ℕ → List (List ℕ) → List ℕ × List ℕ → List ℕ → List ℕ
unfolding release
place_all zero dependents st order = order
place_all (suc fuel) dependents (indegree, []) order = order
place_all (suc fuel) dependents (indegree, node ∷ ready) order =
    place_all fuel dependents (release (at_list dependents node) (indegree, ready))
      (order ++ node ∷ [])

unfoldable pub order_from : ℕ → Option Counts → Option (List ℕ)
unfolding place_all
order_from n none = none
order_from n (some c) =
    let ready = reverse (keep (λ i. at_ℕ c.indegree i == 0) (range 0 n)) in
    let order = place_all (n + 1) c.dependents (c.indegree, ready) [] in
    if length order == n then some order else none

unfoldable pub topological_order : Dag → Option (List ℕ)
unfolding order_from count_steps
topological_order dag =
    let n = length dag.steps in
    order_from n
      (count_steps n 0 dag.steps (record { indegree = replicate n 0; dependents = replicate n [] }))
