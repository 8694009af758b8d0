-- ===== src/Engine/Execute.antt =====
-- `Engine::execute` of sdk/src/engine.rs, in the stages that follow one another there.
use ckos.Base.{
  ◌+◌, String, List, [], ◌∷◌, Bool, true, false, Option, none, some, if◌then◌else◌, contains,
  concat,
}
use ckos.Base.{head?}
use ckos.Kernel.Audit.{with_runtime, with_input, with_output, with_error}
use ckos.Kernel.Capability.{Capability, capability_eq, finance, medical, legal, robotics, as_token}
use ckos.Kernel.Error.{KernelError, Result, ok, err, to_string}
use ckos.Kernel.Event.{task_started, task_completed, task_failed, policy_violation}
use ckos.Kernel.Task.{TaskState, created, queued, running, verifying, completed, failed}
use ckos.Kernel.Telemetry.{record_sample}
use ckos.Agents.{CapabilityRegistry, discover}
use ckos.Policy.{PolicyEngine, AccessRequest, evaluate}
use ckos.Policy.Identity.{Identity, request}
use ckos.Runtime.{Runtime, InferenceResponse, select}
use ckos.Verifier.{Report, verify, passed, failures}
use ckos.Engine.State.{
  Surroundings, Engine, Context, ExecutionResult, Exec, pure, raise, ◌>>=◌, ◌>>◌, transition,
  publish, audit,
}

unfoldable pub sensitive_capabilities : List Capability
sensitive_capabilities = finance ∷ medical ∷ legal ∷ robotics ∷ []

unfoldable pub is_created : TaskState → Bool
is_created created = true
is_created _ = false

-- `.map(|(n, w)| format!("{n}: {w}")).join("; ")`
unfoldable pub join : List (String × String) → String
join [] = ""
join ((n, w) ∷ []) = concat (n ∷ ": " ∷ w ∷ [])
join ((n, w) ∷ rest) = concat (n ∷ ": " ∷ w ∷ "; " ∷ join rest ∷ [])

-- `self.agents.discover(&task.capability).first().map(|a| a.manifest.id.clone())`
unfoldable pub first_agent : CapabilityRegistry → Capability → Option String
unfolding discover
first_agent agents cap = elim (head? (discover agents cap)) [
  | none ↦ none
  | some a ↦ some a.manifest.id
]

module _ (env : Surroundings) (engine : Engine) where
  -- a fresh task enters the queue
  unfoldable pub enqueue : Exec (Unit {0})
  unfolding is_created
  enqueue c = if is_created c.task.state then transition queued c else (ok tt, c)

  -- the audit record of a failure that no runtime has seen
  unfoldable pub audit_refusal : KernelError → Exec (Unit {0})
  audit_refusal e c =
      audit env.now_ms (λ r. with_error (with_input r c.task.description) (to_string e)) c

  -- a decision of the policy on the request
  unfoldable pub enforce : Result (Unit {0}) → AccessRequest → Exec (Unit {0})
  unfolding audit_refusal publish audit
  enforce (ok u) req = pure tt
  enforce (err e) req = do
    publish (policy_violation req.subject req.action)
    audit_refusal e
    raise e

  unfoldable pub access_request : Identity → Capability → AccessRequest
  unfolding request
  access_request identity cap = request identity (concat ("capability." ∷ as_token cap ∷ []))

  unfoldable pub check_access : Option (PolicyEngine × Identity) → Capability → Exec (Unit {0})
  unfolding enforce access_request
  check_access none cap = pure tt
  check_access (some (policy, identity)) cap =
      let req = access_request identity cap in enforce (evaluate policy req) req

  -- the gate on the sensitive capabilities
  unfoldable pub authorize : Exec (Unit {0})
  unfolding check_access sensitive_capabilities
  authorize c =
      if contains c.task.capability sensitive_capabilities
      then check_access engine.access c.task.capability c
      else (ok tt, c)

  unfoldable pub served_by : Result Runtime → Exec Runtime
  unfolding audit_refusal audit
  served_by (ok rt) = pure rt
  served_by (err e) = do audit_refusal e; raise e

  unfoldable pub choose_runtime : Exec Runtime
  unfolding served_by
  choose_runtime c = served_by (select engine.runtimes c.task.capability) c

  -- `runtime.run(…)`: one more request is served
  unfoldable pub call : Runtime → Context → Result InferenceResponse × Context
  call rt c = (
    rt.run c.world.runs
        (record { input = c.task.description; capability = c.task.capability; max_tokens = 512 }),
    record c { world = record c.world { runs = c.world.runs + 1 } },
  )

  -- the error of a runtime
  unfoldable pub crash : Runtime → KernelError → Exec InferenceResponse
  unfolding transition publish audit
  crash rt e = do
    transition failed
    λ c. publish (task_failed c.task.id (to_string e)) c
    λ c.
        audit env.now_ms
          (λ r. with_error (with_input (with_runtime r rt.name) c.task.description) (to_string e)) c
    raise e

  unfoldable pub responded : Runtime → Result InferenceResponse → Exec InferenceResponse
  unfolding crash
  responded rt (ok response) = pure response
  responded rt (err e) = crash rt e

  unfoldable pub run_on : Runtime → Exec InferenceResponse
  unfolding call responded
  run_on rt c = let (r, c') = call rt c in responded rt r c'

  unfoldable pub measure : Runtime → InferenceResponse → Exec (Unit {0})
  measure rt response c = (
    ok tt,
    record c {
      world = record c.world {
        telemetry = record_sample c.world.telemetry (record {
          runtime = rt.name;
          latency_ns = env.elapsed_ns c.world.runs;
          tokens = response.tokens;
        });
      };
    },
  )

  -- the branch of a verified output, and that of a rejected one; each builds the audit record on
  unfoldable pub accept : Runtime → InferenceResponse → Exec (Unit {0})
  unfolding transition publish audit
  accept rt response = do
    transition completed
    λ c. publish (task_completed c.task.id) c
    λ c.
        audit env.now_ms
          (λ r.
            with_output (with_input (with_runtime r rt.name) c.task.description) response.output)
          c

  unfoldable pub reject : Runtime → InferenceResponse → String → Exec (Unit {0})
  unfolding transition publish audit
  reject rt response reason = do
    transition failed
    λ c. publish (task_failed c.task.id reason) c
    λ c.
        audit env.now_ms
          (λ r.
            with_error
              (with_output (with_input (with_runtime r rt.name) c.task.description) response.output)
              reason)
          c

  unfoldable pub settle : Runtime → InferenceResponse → Report → Exec (Unit {0})
  unfolding accept reject join
  settle rt response report =
      if passed report then accept rt response else reject rt response (join (failures report))

  unfoldable pub result : Option String → Runtime → InferenceResponse → Bool → Exec ExecutionResult
  result agent rt response verified c = (
    ok (record {
      task = c.task.id;
      capability = c.task.capability;
      agent = agent;
      runtime = rt.name;
      output = response.output;
      verified = verified;
      state = c.task.state;
    }),
    c,
  )

  -- from the selected runtime to the end
  unfoldable pub serve : Option String → Runtime → Exec ExecutionResult
  unfolding transition publish run_on measure settle result
  serve agent rt = do
    transition running
    λ c. publish (task_started c.task.id) c
    response ← run_on rt
    measure rt response
    transition verifying
    let report = verify engine.verifier response.output
    settle rt response report
    result agent rt response (passed report)

  unfoldable pub execute : Exec ExecutionResult
  unfolding enqueue authorize choose_runtime serve first_agent
  execute = do
    enqueue
    authorize
    agent ← (λ c. (ok (first_agent engine.agents c.task.capability), c))
    rt ← choose_runtime
    serve agent rt
