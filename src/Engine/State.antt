-- ===== src/Engine/State.antt =====
-- The parts of the engine of sdk/src/engine.rs, and the state that an execution changes: the task,
-- and what the engine's bus, audit log and telemetry have taken in. Every subscriber of the bus is
-- called with each published event in turn, so the bus is the list of the events published.
use ckos.Base.{ℕ, ◌+◌, String, List, [], ◌∷◌, ◌++◌, Bool, Option, some}
use ckos.Kernel.Audit
use ckos.Kernel.Audit.{AuditRecord, AuditLog, record_entry}
use ckos.Kernel.Capability.{Capability}
use ckos.Kernel.Error.{KernelError, Result, ok, err}
use ckos.Kernel.Event.{Event}
use ckos.Kernel.Task.{Task, TaskState, transition_to}
use ckos.Kernel.Doubles.{Double}
use ckos.Kernel.Telemetry.{Telemetry}
use ckos.Agents.{CapabilityRegistry}
use ckos.Policy.{PolicyEngine}
use ckos.Policy.Identity.{Identity}
use ckos.Runtime.{RuntimeRegistry}
use ckos.Verifier.{Verifier}

-- What the program takes from its surroundings: the wall clock, the time that a run took, each
-- by the number of earlier readings, and the arithmetic of `f64`.
pub record Surroundings : Type 1 where
  pub now_ms : ℕ → ℕ
  pub elapsed_ns : ℕ → ℕ
  pub doubles : Double

pub record Engine : Type 0 where
  pub runtimes : RuntimeRegistry
  pub agents : CapabilityRegistry
  pub verifier : Verifier
  pub access : Option (PolicyEngine × Identity)

-- `with_identity` and `with_policy`
unfoldable pub with_identity : Engine → PolicyEngine → Identity → Engine
with_identity e policy identity = record e { access = some (policy, identity) }

unfoldable pub with_policy : Engine → PolicyEngine → List String → Engine
unfolding with_identity
with_policy e policy roles =
    with_identity e policy (record { subject = "role-grant"; roles = roles; attributes = [] })

-- What the bus, the audit log and the telemetry of the engine hold, how many requests the runtimes
-- have served and how many audit records were stamped.
pub record World : Type 0 where
  pub events : List Event
  pub audit : AuditLog
  pub telemetry : Telemetry
  pub runs : ℕ
  pub stamps : ℕ

pub record Context : Type 0 where
  pub task : Task
  pub world : World

pub record ExecutionResult : Type 0 where
  pub task : String
  pub capability : Capability
  pub agent : Option String
  pub runtime : String
  pub output : String
  pub verified : Bool
  pub state : TaskState

-- Methods on a context that may return early with an error; what was done before it stays done.
abbrev pub Exec : Type 0 → Type 0
Exec A = Context → Result A × Context

abbrev pub pure : {A : Type 0} → A → Exec A
pure a c = (ok a, c)

abbrev pub raise : {A : Type 0} → KernelError → Exec A
raise e c = (err e, c)

abbrev pub resume : {A B : Type 0} → Result A × Context → (A → Exec B) → Result B × Context
resume (ok a, c) k = k a c
resume (err e, c) k = (err e, c)

infixl 5 ◌>>=◌ ◌>>◌
abbrev pub ◌>>=◌ : {A B : Type 0} → Exec A → (A → Exec B) → Exec B
◌>>=◌ m k c = resume (m c) k

abbrev pub ◌>>◌ : {A B : Type 0} → Exec A → Exec B → Exec B
m >> k = m >>= λ _. k

-- `task.transition_to(next)?`
unfoldable pub transition : TaskState → Exec (Unit {0})
transition next c = let (r, t) = transition_to next c.task in (r, record c { task = t })

-- `self.bus.publish(event)`
unfoldable pub publish : Event → Exec (Unit {0})
publish event c =
    (ok tt, record c { world = record c.world { events = c.world.events ++ event ∷ [] } })

-- `self.audit.record(…)` of a record for `task.execute`, stamped at the time of its creation
unfoldable pub audit : (ℕ → ℕ) → (AuditRecord → AuditRecord) → Exec (Unit {0})
audit now build c =
    let entry = build (Audit.new (now c.world.stamps) "task.execute") in
    (
      ok tt,
      record c {
        world = record c.world {
          audit = record_entry c.world.audit entry;
          stamps = c.world.stamps + 1;
        };
      },
    )
