-- ===== src/Engine/Outcome.antt =====
-- How `Engine::execute` of sdk/src/engine.rs can end, and what each end leaves behind.
use ckos.Base.{
  List, [], ◌∷◌, true, ◌≡◌, refl, ap, sym, arith, ◌⊎◌, inl, inr, Bool-cases, contains, Option, none,
  some, ◌↔◌, head?,
}
use ckos.Kernel.Audit.{is_error, with_error, with_input, new}
use ckos.Kernel.Capability.{Capability, capability_eq, finance, medical, legal, robotics}
use ckos.Kernel.Error.{Result, ok, Result-cases}
use ckos.Kernel.Task.{created, queued, transition_to}
use mathlib.Core.Path.{subst}
use mathlib.Core.List.{append-nil}
use ckos.Agents.{AgentInstance, CapabilityRegistry, discover}
use ckos.Policy.{PolicyEngine, evaluate}
use ckos.Policy.Identity
use ckos.Policy.Identity.{Identity}
use ckos.Runtime.{select}
use ckos.Engine.Ends.{denied, unserved, IsSensitive, asked, first_manifest, AdmittedTo, Ends}
use ckos.Engine.Serving.{serve-Ends}
use ckos.Engine.State.{Surroundings, Engine, Context, ExecutionResult, transition, resume, ◌>>=◌}
use ckos.Engine.Execute.{
  first_agent, sensitive_capabilities, access_request, serve, execute, enqueue, authorize,
  check_access, enforce, choose_runtime, served_by,
}

-- The list that is written out in the code.
IsSensitive-iff :
    (cap : Capability) → (contains cap sensitive_capabilities ≡ true) ↔ IsSensitive cap
unfolding sensitive_capabilities
IsSensitive-iff cap = ground (
  arith,
  capability_eq.decides finance cap,
  capability_eq.decides medical cap,
  capability_eq.decides legal cap,
  capability_eq.decides robotics cap,
)

first_manifest_lem :
    (agents : List AgentInstance)
    → elim (head? agents) [ none ↦ none | some a ↦ some a.manifest.id ] ≡ first_manifest agents
first_manifest_lem [] = refl
first_manifest_lem (a ∷ rest) = refl

first_agent_lem :
    (agents : CapabilityRegistry) (cap : Capability)
    → first_agent agents cap ≡ first_manifest (discover agents cap)
unfolding first_agent
first_agent_lem agents cap = first_manifest_lem (discover agents cap)

module _ (env : Surroundings) (engine : Engine) where
  -- What follows the authorization.
  abbrev dispatch : Context → Result ExecutionResult × Context
  dispatch c =
      (choose_runtime env engine >>= serve env engine (first_agent engine.agents c.task.capability))
        c

  dispatch-Ends :
      (c : Context) → c.task.state ≡ queued → AdmittedTo engine c → Ends engine c (dispatch c)
  unfolding choose_runtime is_error with_error with_input new
  dispatch-Ends c q free = elim (Result-cases (select engine.runtimes c.task.capability)) [
    | inl (rt, found) ↦
        rw (found, served_by)
          (serve-Ends env engine (first_agent engine.agents c.task.capability) rt c q free found
            (first_agent_lem engine.agents c.task.capability))
    | inr (e, missing) ↦
        rw (missing, served_by)
          (
            unserved,
            record {
              due = record { error = e; admitted = free; unselected = missing; returned = refl };
              task = ap (λ s. record c.task { state = s }) q;
              events = sym (append-nil c.world.events);
              runs = omega arith;
              entry = _;
              audited = refl;
              action = refl;
              of_input = refl;
              of_output = refl;
              error = refl;
              flagged = refl;
              returned = (e, refl);
            },
          )
  ]

  guarded-Ends :
      (access : Option (PolicyEngine × Identity)) (c : Context)
      → engine.access ≡ access
      → IsSensitive c.task.capability
      → c.task.state ≡ queued
      → Ends engine c (resume (check_access env engine access c.task.capability c) (λ _. dispatch))
  unfolding check_access access_request Identity.request is_error with_error with_input new
  guarded-Ends none c known cap_sensitive q =
      dispatch-Ends c q (λ policy identity other sensitive. cc (known, other))
  guarded-Ends (some (policy, identity)) c known cap_sensitive q =
      let req = asked identity c.task.capability in
      elim (Result-cases (evaluate policy req)) [
        | inl (u, permitted) ↦
            rw (permitted, enforce)
              (dispatch-Ends c q (λ p i other sensitive.
                let mine : PolicyEngine × Identity = (policy, identity) in
                let same : mine ≡ (p, i) = cc in
                subst (λ pi. evaluate pi.0 (asked pi.1 c.task.capability) ≡ ok tt) same permitted))
        | inr (e, refused) ↦
            rw (refused, enforce)
              (
                denied req.subject req.action,
                record {
                  due = record {
                    policy = policy;
                    identity = identity;
                    error = e;
                    known = known;
                    sensitive = cap_sensitive;
                    decided = refused;
                    who = refl;
                    what = refl;
                    returned = refl;
                  };
                  task = ap (λ s. record c.task { state = s }) q;
                  events = refl;
                  runs = omega arith;
                  entry = _;
                  audited = refl;
                  action = refl;
                  of_input = refl;
                  of_output = refl;
                  error = refl;
                  flagged = refl;
                  returned = (e, refl);
                },
              )
      ]

  authorize-Ends :
      (c : Context)
      → c.task.state ≡ queued
      → Ends engine c (resume (authorize env engine c) (λ _. dispatch))
  unfolding authorize
  authorize-Ends c q = elim (Bool-cases (contains c.task.capability sensitive_capabilities)) [
    | inr ordinary ↦ rw ordinary (
        dispatch-Ends c q
          (λ p i known sensitive. cc (ordinary, (IsSensitive-iff c.task.capability).1 sensitive)))
    | inl sensitive ↦
        rw sensitive
          (guarded-Ends engine.access c refl ((IsSensitive-iff c.task.capability).0 sensitive) q)
  ]

  enqueue_queued : (c : Context) → c.task.state ≡ queued → enqueue env engine c ≡ (ok tt, c)
  unfolding enqueue
  enqueue_queued c q = ground arith

  abbrev enqueued : Context → Context
  enqueued c = record c { task = record c.task { state = queued } }

  enqueue_created :
      (c : Context) → c.task.state ≡ created → enqueue env engine c ≡ (ok tt, enqueued c)
  unfolding enqueue transition transition_to
  enqueue_created c q = ground arith

  -- The execution after the task was enqueued.
  abbrev after_enqueue : Result (Unit {0}) × Context → Result ExecutionResult × Context
  after_enqueue r = resume r (λ _ c. resume (authorize env engine c) (λ _. dispatch))

  -- From a fresh or a queued task the execution has one of five ends, and each is due: denied, where
  -- the capability is sensitive and the policy denies the request of the identity; unserved, where it
  -- is admitted and no runtime can be selected; crashed, where the selected runtime fails; rejected,
  -- where it answers and a check of the verifier fails its output; accepted, where none does. That
  -- error, or the answer of that runtime, is returned. The task is left queued, failed or completed
  -- accordingly, the events of that end are published in their order, a runtime served at most one
  -- request, and exactly one audit record was written, with the hashes of the input and of the output
  -- that is returned, and with the error that is returned, the reason of a rejection, or none where the
  -- output was accepted.
  pub execute-Ends :
      (c : Context)
      → (c.task.state ≡ created) ⊎ (c.task.state ≡ queued)
      → Ends engine c (execute env engine c)
  unfolding execute
  execute-Ends c (inr q) =
      subst (λ r. Ends engine c (after_enqueue r)) (sym (enqueue_queued c q)) (authorize-Ends c q)
  execute-Ends c (inl q) =
      subst (λ r. Ends engine c (after_enqueue r)) (sym (enqueue_created c q))
        (let (how, o) = authorize-Ends (enqueued c) refl in
          (
            how,
            record {
              due = o.due;
              task = o.task;
              events = o.events;
              runs = o.runs;
              entry = o.entry;
              audited = o.audited;
              action = o.action;
              of_input = o.of_input;
              of_output = o.of_output;
              error = o.error;
              flagged = o.flagged;
              returned = o.returned;
            },
          ))
