-- ===== src/Engine/Workflow/Sound.antt =====
-- What holds before every round of the loop of `Engine::run_workflow` in sdk/src/engine.rs.
use ckos.Base.{
  ℕ, ◌+◌, ◌-◌, ◌<◌, String, List, [], ◌∷◌, ◌++◌, Bool, true, false, ◌≡◌, refl, ◌⊎◌, All, AnyOf,
  contains, string_eq, All-append,
}
use mathlib.Core.List.{append_assoc}
use ckos.Kernel.Event.{Event, workflow_completed}
use ckos.Kernel.Task.{Task, created, queued, completed}
use ckos.Scheduler.Floats.{Float}
use ckos.Scheduler.{Pending}
use ckos.Scheduler.Remains.{total}
use ckos.Workflow.{Dag}
use ckos.Engine.State.{Surroundings, Engine, World, ExecutionResult}
use ckos.Engine.Ends.{Ended, denied, unserved, crashed, rejected, accepted, announced}
use ckos.Engine.Workflow.{Progress, Round, again, finished, stopped, max_task_retries}

abbrev pub is_end : Event → Bool
is_end (workflow_completed id) = true
is_end _ = false

-- Since `w0`, events were published of which none announces the end of a workflow.
abbrev pub Quiet : World → World → Type 0
Quiet w0 w = (es : List Event) × (w.events ≡ w0.events ++ es) × All (λ e. is_end e ≡ false) es

announced_quiet : (how : Ended) (id : String) → All (λ e. is_end e ≡ false) (announced how id)
announced_quiet (denied s a) id = (refl, tt)
announced_quiet unserved id = tt
announced_quiet (crashed why) id = (refl, (refl, tt))
announced_quiet (rejected why) id = (refl, (refl, tt))
announced_quiet accepted id = (refl, (refl, tt))

pub Quiet-announced :
    (w0 w w' : World) (how : Ended) (id : String)
    → Quiet w0 w
    → w'.events ≡ w.events ++ announced how id
    → Quiet w0 w'
Quiet-announced w0 w w' how id (es, e, q) h = (
  es ++ announced how id,
  rw (h, e) (append_assoc w0.events es (announced how id)),
  All-append (λ e. is_end e ≡ false) es (announced how id) q (announced_quiet how id),
)

-- Not started yet, or queued again.
abbrev pub IsOpen : Task → Type 0
IsOpen t = (t.state ≡ created) ⊎ (t.state ≡ queued)

-- A step of the workflow has the id and the dependencies of the task.
abbrev pub Stands : Dag → Task → Type 0
Stands dag t = AnyOf (λ s. (s.task.id ≡ t.id) × (s.task.depends_on ≡ t.depends_on)) dag.steps

-- Some result is of the task with the id.
abbrev pub Reported : List ExecutionResult → String → Type 0
Reported rs id = AnyOf (λ r. r.task ≡ id) rs

-- Every result is verified and completed, and of a task of the workflow whose dependencies are all
-- among the tasks of earlier results.
pub data Justified (dag : Dag) : List ExecutionResult → Type 0 where
  none_yet : Justified dag []
  one_more :
      (rs : List ExecutionResult) (r : ExecutionResult) (t : Task)
      → Justified dag rs
      → Stands dag t
      → r.task ≡ t.id
      → All (Reported rs) t.depends_on
      → (r.verified ≡ true) × (r.state ≡ completed)
      → Justified dag (rs ++ r ∷ [])

-- How many rounds a task can still take.
abbrev pub rounds_left : Task → ℕ
rounds_left t = 1 + (max_task_retries - t.attempts)

module _ (f : Float) (env : Surroundings) (engine : Engine) where
  abbrev pub load : List (Pending f) → ℕ
  load = total (λ p. rounds_left p.task)

  abbrev pub Waits : Dag → List (Pending f) → Type 0
  Waits dag = All (λ p. IsOpen p.task × Stands dag p.task)

  pub record IsSound (dag : Dag) (w0 : World) (p : Progress f env engine) : Type 0 where
    pub waits : Waits dag p.scheduler.pending
    pub quiet : Quiet w0 p.world
    pub reported : (id : String) → contains id p.scheduler.completed ≡ true → Reported p.results id
    pub justified : Justified dag p.results

  -- A round that continues keeps this and has less than the given number of rounds left.
  abbrev pub Keeps : Dag → World → ℕ → Round f env engine → Type 0
  Keeps dag w0 most (again p) = IsSound dag w0 p × (load p.scheduler.pending < most)
  Keeps dag w0 most (finished p) = IsSound dag w0 p
  Keeps dag w0 most (stopped e w) = Quiet w0 w
