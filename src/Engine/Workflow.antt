-- ===== src/Engine/Workflow.antt =====
-- `Engine::run_workflow` of sdk/src/engine.rs: the submission of a workflow's tasks, the loop that
-- dispatches and executes them, and the recovery of failed ones.
pub mod Sound
pub mod Rounds
pub mod Runs
use Prim.Native.Nat.{min}
use ckos.Base.{
  ℕ, zero, suc, ◌+◌, ◌*◌, ◌-◌, ◌^◌, String, List, [], ◌∷◌, ◌++◌, Bool, true, false, Option, none,
  some, if◌then◌else◌, leb, ◌==◌, head?, length, concat,
}
use ckos.Agents.{AgentInstance, discover}
use ckos.Kernel.Capability.{as_token}
use ckos.Kernel.Error.{KernelError, Result, ok, err, other}
use ckos.Kernel.Event.{workflow_completed}
use ckos.Kernel.Task.{Task, state_eq, queued, failed, rollback, retry, is_normal, transition_to}
use ckos.Kernel.Telemetry.{Telemetry, mean_latency_ns_for}
use ckos.Runtime.{Runtime, select}
use ckos.Scheduler.Floats.{Float}
use ckos.Scheduler.{
  ScoreFactors, Scheduler, default_factors, with_runtime_fit, fit_of_latency, submit_scored,
  mark_completed, dispatch_next,
}
use ckos.Scheduler
use ckos.Workflow.{Dag, task, topological_order}
use ckos.Engine.State.{Surroundings, Engine, World, Context, ExecutionResult}
use ckos.Engine.Execute.{execute}

abbrev pub max_task_retries : ℕ
max_task_retries = 2

abbrev pub target_latency_ms : ℕ
target_latency_ms = 50

-- a task with the priority of the agent that would serve it
unfoldable pub with_agent_priority : Option AgentInstance → Task → Task
with_agent_priority none t = t
with_agent_priority (some agent) t = record t { priority = agent.manifest.priority }

unfoldable pub adopt_priority : Engine → Task → Task
unfolding with_agent_priority
adopt_priority engine t =
    if is_normal t.priority
    then with_agent_priority (head? (discover engine.agents t.capability)) t
    else t

unfoldable pub exhausted : ExecutionResult → KernelError
exhausted r = other (
    concat (
      "task "
      ∷ r.task
      ∷ " ("
      ∷ as_token r.capability
      ∷ ") exhausted its retry budget after failing verification"
      ∷ []))

module _ (f : Float) (env : Surroundings) (engine : Engine) where
  open f use {F32, lit}

  unfoldable pub fit_of_mean : Option env.doubles.F64 → ℕ → F32
  unfolding fit_of_latency
  fit_of_mean none target_ns = lit 1 1
  fit_of_mean (some mean) target_ns = fit_of_latency f (env.doubles.round_u64 mean) target_ns

  -- `recommended_factors`, on what the telemetry holds
  unfoldable pub recommended_factors : Telemetry → String → ℕ → ScoreFactors f
  unfolding fit_of_mean with_runtime_fit default_factors
  recommended_factors telemetry runtime target_ms =
      let target_ns = min (target_ms * 1000000) (2 ^ 64 - 1) in
      with_runtime_fit f (default_factors f)
        (fit_of_mean (mean_latency_ns_for env.doubles telemetry runtime) target_ns)

  unfoldable pub factors_on : Result Runtime → Telemetry → ScoreFactors f
  unfolding recommended_factors
  factors_on (ok rt) telemetry = recommended_factors telemetry rt.name target_latency_ms
  factors_on (err e) telemetry = default_factors f

  unfoldable pub submit_scored_by_telemetry : World → Scheduler f → Task → Scheduler f
  unfolding factors_on submit_scored
  submit_scored_by_telemetry w q t =
      submit_scored f q t (factors_on (select engine.runtimes t.capability) w.telemetry)

  -- the loop over the execution order; a step that the graph does not have is passed over
  unfoldable pub submit_step : World → Option Task → Scheduler f → Scheduler f
  unfolding submit_scored_by_telemetry adopt_priority
  submit_step w none q = q
  submit_step w (some t) q = submit_scored_by_telemetry w q (adopt_priority engine t)

  unfoldable pub submit_all : World → Dag → List ℕ → Scheduler f → Scheduler f
  unfolding submit_step
  submit_all w dag [] q = q
  submit_all w dag (r ∷ rs) q = submit_all w dag rs (submit_step w (task dag r) q)

  -- `task.transition_to(…)?` in `requeue`
  abbrev pub after :
      Result (Unit {0}) × Task
      → Scheduler f
      → (Task → Result Bool × Scheduler f)
      → Result Bool × Scheduler f
  after (ok u, t) q k = k t
  after (err e, t) q k = (err e, q)

  unfoldable pub requeue : World → Scheduler f → Task → Result Bool × Scheduler f
  unfolding submit_scored_by_telemetry
  requeue w q t =
      if leb max_task_retries t.attempts
      then (ok false, q)
      else after (transition_to rollback t) q (λ t.
        after (transition_to retry t) q (λ t.
          after (transition_to queued t) q (λ t. (ok true, submit_scored_by_telemetry w q t))))

  -- What a round of the loop works on.
  pub record Progress : Type 0 where
    pub scheduler : Scheduler f
    pub world : World
    pub results : List ExecutionResult

  -- `continue`, the end of the loop, or an early return with an error.
  pub data Round : Type 0 where
    again : Progress → Round
    finished : Progress → Round
    stopped : KernelError → World → Round

  -- what `requeue` decides; `e` is returned when the budget is spent
  unfoldable pub retried :
      Result Bool × Scheduler f → KernelError → World → List ExecutionResult → Round
  retried (ok true, q) e w results = again (record { scheduler = q; world = w; results = results })
  retried (ok false, q) e w results = stopped e w
  retried (err e', q) e w results = stopped e' w

  -- the two arms of the `match` on the result of `execute`
  unfoldable pub answered :
      Result ExecutionResult → Task → Scheduler f → World → List ExecutionResult → Round
  unfolding retried requeue exhausted mark_completed
  answered (ok result) t q w results =
      if result.state == failed
      then retried (requeue w q t) (exhausted result) w results
      else again (record {
        scheduler = mark_completed f q t.id;
        world = w;
        results = results ++ result ∷ [];
      })
  answered (err e) t q w results =
      if t.state == failed then retried (requeue w q t) e w results else stopped e w

  unfoldable pub dispatched : Option Task × Scheduler f → World → List ExecutionResult → Round
  unfolding answered
  dispatched (none, q) w results = finished (record { scheduler = q; world = w; results = results })
  dispatched (some t, q) w results =
      let (r, c) = execute env engine (record { task = t; world = w }) in
      answered r c.task q c.world results

  unfoldable pub one_round : Progress → Round
  unfolding dispatched
  one_round p = dispatched (dispatch_next f p.scheduler) p.world p.results

  abbrev pub and_then : {A : Type 0} → Round → (Progress → Option A) → (Round → Option A) → Option A
  and_then (again p) k end = k p
  and_then (finished p) k end = end (finished p)
  and_then (stopped e w) k end = end (stopped e w)

  -- the loop, for as many rounds as the fuel allows
  unfoldable pub run_loop : ℕ → Progress → Option Round
  unfolding one_round
  run_loop zero p = none
  run_loop (suc fuel) p = and_then (one_round p) (run_loop fuel) some

  -- the end of `run_workflow`
  unfoldable pub conclude : Dag → Round → Result (List ExecutionResult) × World
  conclude dag (stopped e w) = (err e, w)
  conclude dag (again p) = (ok p.results, p.world)
  conclude dag (finished p) =
      (ok p.results, record p.world { events = p.world.events ++ workflow_completed dag.id ∷ [] })

  unfoldable pub concluded : Dag → Option Round → Option (Result (List ExecutionResult) × World)
  unfolding conclude
  concluded dag none = none
  concluded dag (some end) = some (conclude dag end)

  -- `run_workflow`; `none` is a loop that ran out of fuel
  unfoldable pub run_ordered :
      Dag → World → Option (List ℕ) → Option (Result (List ExecutionResult) × World)
  unfolding submit_all run_loop concluded
  run_ordered dag w none =
      some (err (other "workflow contains a cycle or references an unknown step"), w)
  run_ordered dag w (some order) = concluded dag (
      run_loop (3 * length order + 1)
        (record { scheduler = submit_all w dag order (Scheduler.new f); world = w; results = [] }))

  unfoldable pub run_workflow : Dag → World → Option (Result (List ExecutionResult) × World)
  unfolding run_ordered
  run_workflow dag w = run_ordered dag w (topological_order dag)
