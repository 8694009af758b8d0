-- ===== src/Engine/Ends.antt =====
-- What the end of an execution by sdk/src/engine.rs can be, and what has led to it.
use ckos.Base.{
  ℕ, ◌+◌, String, List, [], ◌∷◌, ◌++◌, Bool, true, false, not, Option, none, some, concat, AnyOf,
  ◌≡◌, ◌⊎◌,
}
use ckos.Kernel.Audit.{AuditRecord, content_hash, record_entry, is_error}
use ckos.Kernel.Capability.{Capability, finance, medical, legal, robotics, as_token}
use ckos.Kernel.Error.{KernelError, Result, ok, err, to_string}
use ckos.Kernel.Event.{Event, task_started, task_completed, task_failed, policy_violation}
use ckos.Kernel.Task.{TaskState, queued, completed, failed}
use ckos.Agents.{AgentInstance, discover}
use ckos.Policy.{PolicyEngine, AccessRequest, evaluate}
use ckos.Policy.Identity.{Identity}
use ckos.Runtime.{select, Runtime, InferenceResponse}
use ckos.Verifier.{verify, failures}
use ckos.Verifier.Verdicts.{Objects}
use ckos.Engine.State.{Engine, Context, ExecutionResult}
use ckos.Engine.Execute.{join}

-- A denial by the policy, no runtime for the capability, an error of the runtime, an output that the
-- verifier rejects, or one that it accepts.
pub data Ended : Type 0 where
  denied : (subject action : String) → Ended
  unserved : Ended
  crashed : (reason : String) → Ended
  rejected : (reason : String) → Ended
  accepted : Ended

abbrev pub final_state : Ended → TaskState
final_state (denied s a) = queued
final_state unserved = queued
final_state (crashed why) = failed
final_state (rejected why) = failed
final_state accepted = completed

-- The events that are published, in order.
abbrev pub announced : Ended → String → List Event
announced (denied s a) id = policy_violation s a ∷ []
announced unserved id = []
announced (crashed why) id = task_started id ∷ task_failed id why ∷ []
announced (rejected why) id = task_started id ∷ task_failed id why ∷ []
announced accepted id = task_started id ∷ task_completed id ∷ []

-- How many requests a runtime served.
abbrev pub served : Ended → ℕ
served (denied s a) = 0
served unserved = 0
served (crashed why) = 1
served (rejected why) = 1
served accepted = 1

abbrev pub is_accepted : Ended → Bool
is_accepted accepted = true
is_accepted _ = false

abbrev pub IsErr : Result ExecutionResult → Type 0
IsErr r = (e : KernelError) × (r ≡ err e)

abbrev pub Returned : Ended → String → Result ExecutionResult → Type 0
Returned (rejected why) id r =
    (x : ExecutionResult) × (r ≡ ok x) × (x.task ≡ id) × (x.verified ≡ false) × (x.state ≡ failed)
Returned accepted id r =
    (x : ExecutionResult) × (r ≡ ok x) × (x.task ≡ id) × (x.verified ≡ true) × (x.state ≡ completed)
Returned _ id r = IsErr r

-- The capabilities that the policy guards.
abbrev pub IsSensitive : Capability → Type 0
IsSensitive cap = (cap ≡ finance) ⊎ (cap ≡ medical) ⊎ (cap ≡ legal) ⊎ (cap ≡ robotics)

-- What an identity asks of the policy for the use of a capability.
abbrev pub asked : Identity → Capability → AccessRequest
asked identity cap = record {
  subject = identity.subject;
  roles = identity.roles;
  action = concat ("capability." ∷ as_token cap ∷ []);
  attributes = identity.attributes;
}

abbrev pub first_manifest : List AgentInstance → Option String
first_manifest [] = none
first_manifest (a ∷ rest) = some a.manifest.id

-- For a task with this capability and this input, when so many requests were run before.
module _ (engine : Engine) (cap : Capability) (input : String) (runs : ℕ) where
  -- The answer of a runtime to the request of the task.
  abbrev pub answer : Runtime → Result InferenceResponse
  answer rt = rt.run runs (record { input = input; capability = cap; max_tokens = 512 })

  -- The policy, where there is one, does not stand in the way.
  abbrev pub IsAdmitted : Type 0
  IsAdmitted =
      (policy : PolicyEngine) (identity : Identity)
      → engine.access ≡ some (policy, identity)
      → IsSensitive cap
      → evaluate policy (asked identity cap) ≡ ok tt

  -- The capability is sensitive, the policy denies its use, and that denial is returned.
  pub record IsDenied (subject action : String) (r : Result ExecutionResult) : Type 0 where
    pub policy : PolicyEngine
    pub identity : Identity
    pub error : KernelError
    pub known : engine.access ≡ some (policy, identity)
    pub sensitive : IsSensitive cap
    pub decided : evaluate policy (asked identity cap) ≡ err error
    pub who : subject ≡ identity.subject
    pub what : action ≡ concat ("capability." ∷ as_token cap ∷ [])
    pub returned : r ≡ err error

  -- No runtime can be selected, and that error is returned.
  pub record IsUnserved (r : Result ExecutionResult) : Type 0 where
    pub error : KernelError
    pub admitted : IsAdmitted
    pub unselected : select engine.runtimes cap ≡ err error
    pub returned : r ≡ err error

  -- The selected runtime fails, for this reason, and its error is returned.
  pub record IsCrashed (reason : String) (r : Result ExecutionResult) : Type 0 where
    pub runtime : Runtime
    pub error : KernelError
    pub admitted : IsAdmitted
    pub selected : select engine.runtimes cap ≡ ok runtime
    pub answered : answer runtime ≡ err error
    pub explained : reason ≡ to_string error
    pub returned : r ≡ err error

  -- The selected runtime answers, and its answer is returned.
  pub record IsAnswered (response : InferenceResponse) (r : Result ExecutionResult) : Type 0 where
    pub runtime : Runtime
    pub result : ExecutionResult
    pub admitted : IsAdmitted
    pub selected : select engine.runtimes cap ≡ ok runtime
    pub answered : answer runtime ≡ ok response
    pub returned : r ≡ ok result
    pub named : result.runtime ≡ runtime.name
    pub output : result.output ≡ response.output
    pub capability : result.capability ≡ cap
    pub agent : result.agent ≡ first_manifest (discover engine.agents cap)

  -- What has led to each end.
  abbrev pub IsDue : Ended → Result ExecutionResult → Type 0
  IsDue (denied subject action) r = IsDenied subject action r
  IsDue unserved r = IsUnserved r
  IsDue (crashed reason) r = IsCrashed reason r
  IsDue (rejected reason) r =
      (response : InferenceResponse) × IsAnswered response r
      × AnyOf (Objects response.output) engine.verifier.checks
      × (reason ≡ join (failures (verify engine.verifier response.output)))
  IsDue accepted r =
      (response : InferenceResponse) × IsAnswered response r
      × ¬ AnyOf (Objects response.output) engine.verifier.checks

-- What the audit record says of an error: the one that is returned, or the reason of a rejection.
abbrev pub explained : Ended → Result ExecutionResult → Option String
explained how (err e) = some (to_string e)
explained (rejected reason) (ok x) = some reason
explained _ (ok x) = none

-- The hash of the output, and 0 where there is none.
abbrev pub hashed : Result ExecutionResult → ℕ
hashed (ok x) = content_hash x.output
hashed (err e) = 0

module _ (engine : Engine) (c : Context) where
  abbrev pub AdmittedTo : Type 0
  AdmittedTo = IsAdmitted engine c.task.capability c.task.description c.world.runs

  -- The end `how` of an execution that began in `c`: it was due, the task changed in its state alone,
  -- the events of this end were published, and exactly one audit record was written, with the hashes of
  -- the input and the output, and with an error unless the output was accepted.
  pub record IsOutcome (how : Ended) (r : Result ExecutionResult × Context) : Type 0 where
    pub due : IsDue engine c.task.capability c.task.description c.world.runs how r.0
    pub task : r.1.task ≡ record c.task { state = final_state how }
    pub events : r.1.world.events ≡ c.world.events ++ announced how c.task.id
    pub runs : r.1.world.runs ≡ c.world.runs + served how
    pub entry : AuditRecord
    pub audited : r.1.world.audit ≡ record_entry c.world.audit entry
    pub action : entry.action ≡ "task.execute"
    pub of_input : entry.input_hash ≡ content_hash c.task.description
    pub of_output : entry.output_hash ≡ hashed r.0
    pub error : entry.error ≡ explained how r.0
    pub flagged : is_error entry ≡ not (is_accepted how)
    pub returned : Returned how c.task.id r.0

  abbrev pub Ends : Result ExecutionResult × Context → Type 0
  Ends r = (how : Ended) × IsOutcome how r
