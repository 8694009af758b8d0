-- ===== src/Engine/Workflow/Rounds.antt =====
-- One round of the loop of `Engine::run_workflow` in sdk/src/engine.rs.
use ckos.Base.{
  ℕ, ◌+◌, ◌<◌, ◌%◌, String, List, [], ◌∷◌, ◌++◌, true, false, Option, none, some, ◌≡◌, refl, arith,
  ◌⊎◌, inl, inr, All, All-append, All-mono, AnyOf-append, all_iff, ◌==◌, contains, string_eq, sym,
  ◌∙◌, leb, Bool-cases,
}
use mathlib.Core.Path.{subst}
use text.Mathlib.TextEquality.{eq_iff}
use ckos.Kernel.Error.{KernelError, Result, ok}
use ckos.Kernel.Task.{
  Task, queued, failed, completed, transition_to, can_transition_to, state_eq, u32_mod,
}
use ckos.Scheduler.Floats.{Float}
use ckos.Scheduler.{
  Pending, Scheduler, submit_scored, mark_completed, dependencies_met, dispatch_next,
}
use ckos.Scheduler.Remains.{total-append, swap_remove-All, total-swap_remove}
use ckos.Scheduler.Taken.{Taken, dispatch-Taken}
use ckos.Workflow.{Dag}
use ckos.Engine.State.{Surroundings, Engine, World, Context, ExecutionResult}
use ckos.Engine.Execute.{execute}
use ckos.Engine.Outcome.{execute-Ends}
use ckos.Engine.Ends.{Ended, denied, unserved, crashed, rejected, accepted, final_state, Returned}
use ckos.Engine.Workflow.{
  Progress, again, requeue, retried, answered, dispatched, one_round, exhausted,
  submit_scored_by_telemetry, max_task_retries,
}
use ckos.Engine.Workflow.Sound.{
  Quiet, Quiet-announced, IsOpen, Stands, Reported, Justified, one_more, rounds_left, load, Waits,
  IsSound, Keeps,
}

module _ (f : Float) (env : Surroundings) (engine : Engine) (dag : Dag) (w0 : World) where
  -- A failed task is queued again, with one more attempt, or its budget is spent.
  requeue_cases :
      (w : World) (q : Scheduler f) (t : Task)
      → t.state ≡ failed
      → (requeue f env engine w q t ≡ (ok false, q))
        ⊎ ((t.attempts < max_task_retries)
            × (requeue f env engine w q t ≡ (
              ok true,
              submit_scored_by_telemetry f env engine w q
                  (record t { state = queued; attempts = t.attempts + 1 }),
            )))
  unfolding requeue transition_to can_transition_to
  requeue_cases w q t h = elim (Bool-cases (leb max_task_retries t.attempts)) [
    | inl spent ↦ inl (rw spent refl)
    | inr left ↦
        let few : t.attempts < max_task_retries = ground arith in
        let wrap : (t.attempts + 1) % u32_mod ≡ t.attempts + 1 = omega arith in
        inr (few, rw (left, h, wrap) refl)
  ]

  -- What is known when a task has been taken from the queue `q`, before it is executed.
  record IsTaken (t : Task) (q : Scheduler f) (w : World) (rs : List ExecutionResult) (most : ℕ)
      : Type 0 where
    waits : Waits f env engine dag q.pending
    stands : Stands dag t
    met : dependencies_met q.completed t ≡ true
    quiet : Quiet w0 w
    reported : (id : String) → contains id q.completed ≡ true → Reported rs id
    justified : Justified dag rs
    less : load f env engine q.pending + rounds_left t ≡ most

  submitted_Keeps :
      (t : Task) (q : Scheduler f) (w w' : World) (rs : List ExecutionResult) (most : ℕ)
      → IsTaken t q w rs most
      → Quiet w0 w'
      → t.attempts < max_task_retries
      → Keeps f env engine dag w0 most (
          again (record {
            scheduler =
                submit_scored_by_telemetry f env engine w' q
                  (record t { state = queued; attempts = t.attempts + 1 });
            world = w';
            results = rs;
          }))
  unfolding submit_scored_by_telemetry submit_scored
  submitted_Keeps t q w w' rs most k quiet few = (
    record {
      waits =
          All-append (λ p. IsOpen p.task × Stands dag p.task) q.pending _ k.waits
            ((inr refl, k.stands), tt);
      quiet = quiet;
      reported = k.reported;
      justified = k.justified;
    },
    omega (arith, k.less, total-append (λ (p : Pending f). rounds_left p.task) q.pending _),
  )

  retried-Keeps :
      (t : Task) (q : Scheduler f) (w w' : World) (rs : List ExecutionResult) (most : ℕ)
      (e : KernelError)
      → IsTaken t q w rs most
      → Quiet w0 w'
      → Keeps f env engine dag w0 most
          (retried f env engine (requeue f env engine w' q (record t { state = failed })) e w' rs)
  unfolding retried
  retried-Keeps t q w w' rs most e k quiet =
      elim (requeue_cases w' q (record t { state = failed }) refl) [
        | inl spent ↦ rw spent quiet
        | inr (few, again_) ↦ rw again_ (submitted_Keeps t q w w' rs most k quiet few)
      ]

  Reported-mark_completed :
      (q : Scheduler f) (rs : List ExecutionResult) (r : ExecutionResult) (t id : String)
      → ((id : String) → contains id q.completed ≡ true → Reported rs id)
      → r.task ≡ t
      → contains id (mark_completed f q t).completed ≡ true
      → Reported (rs ++ r ∷ []) id
  unfolding mark_completed
  Reported-mark_completed q rs r t id known e h =
      let split = AnyOf-append (λ (x : ExecutionResult). x.task ≡ id) rs (r ∷ []) in
      elim (Bool-cases (contains id q.completed)) [
        | inl old ↦ split.1 (inl (known id old))
        | inr fresh ↦
            let same : t ≡ id = ground (arith, eq_iff t id) in split.1 (inr (inl (e ∙ same)))
      ]

  met-Reported :
      (q : Scheduler f) (t : Task) (rs : List ExecutionResult)
      → dependencies_met q.completed t ≡ true
      → ((id : String) → contains id q.completed ≡ true → Reported rs id)
      → All (Reported rs) t.depends_on
  unfolding dependencies_met
  met-Reported q t rs h known =
      All-mono (λ d. contains d q.completed ≡ true) (Reported rs) t.depends_on known
        ((all_iff (λ d. contains d q.completed) (λ d. contains d q.completed ≡ true) t.depends_on
            (λ d. (λ e. e, λ e. e))).0
          h)

  accepted_Keeps :
      (t : Task) (q : Scheduler f) (w w' : World) (rs : List ExecutionResult) (most : ℕ)
      (r : ExecutionResult)
      → IsTaken t q w rs most
      → Quiet w0 w'
      → r.task ≡ t.id
      → (r.verified ≡ true) × (r.state ≡ completed)
      → Keeps f env engine dag w0 most (
          again
            (record { scheduler = mark_completed f q t.id; world = w'; results = rs ++ r ∷ [] }))
  unfolding mark_completed
  accepted_Keeps t q w w' rs most r k quiet own good = (
    record {
      waits = k.waits;
      quiet = quiet;
      reported = λ id h. Reported-mark_completed q rs r t.id id k.reported own h;
      justified =
          one_more rs r t k.justified k.stands own (met-Reported q t rs k.met k.reported) good;
    },
    omega (arith, k.less),
  )

  -- Every end of an execution keeps the loop sound.
  answered-Keeps :
      (how : Ended) (r : Result ExecutionResult) (t : Task) (q : Scheduler f) (w w' : World)
      (rs : List ExecutionResult) (most : ℕ)
      → IsTaken t q w rs most
      → Quiet w0 w'
      → Returned how t.id r
      → Keeps f env engine dag w0 most
          (answered f env engine r (record t { state = final_state how }) q w' rs)
  unfolding answered
  answered-Keeps (denied s a) r t q w w' rs most k quiet (e, back) = rw back quiet
  answered-Keeps unserved r t q w w' rs most k quiet (e, back) = rw back quiet
  answered-Keeps (crashed why) r t q w w' rs most k quiet (e, back) =
      rw back (retried-Keeps t q w w' rs most e k quiet)
  answered-Keeps (rejected why) r t q w w' rs most k quiet (x, back, own, bad, end) =
      rw (back, end) (retried-Keeps t q w w' rs most (exhausted x) k quiet)
  answered-Keeps accepted r t q w w' rs most k quiet (x, back, own, good, end) =
      let open_end : (x.state == failed) ≡ false = rw end refl in
      rw (back, open_end) (accepted_Keeps t q w w' rs most x k quiet own (good, end))

  executed_Keeps :
      (t : Task) (q : Scheduler f) (w : World) (rs : List ExecutionResult) (most : ℕ)
      → IsTaken t q w rs most
      → IsOpen t
      → Keeps f env engine dag w0 most (dispatched f env engine (some t, q) w rs)
  unfolding dispatched
  executed_Keeps t q w rs most k fresh =
      let c : Context = record { task = t; world = w } in
      let (how, o) = execute-Ends env engine c fresh in
      let done = execute env engine c in
      let quiet = Quiet-announced w0 w done.1.world how t.id k.quiet o.events in
      subst (λ u. Keeps f env engine dag w0 most (answered f env engine done.0 u q done.1.world rs))
        (sym o.task) (answered-Keeps how done.0 t q w done.1.world rs most k quiet o.returned)

  Taken-Keeps :
      (p : Progress f env engine) (next : Option Task × Scheduler f)
      → IsSound f env engine dag w0 p
      → Taken f p.scheduler next
      → Keeps f env engine dag w0
          (load f env engine p.scheduler.pending)
          (dispatched f env engine next p.world p.results)
  unfolding dispatched
  Taken-Keeps p (none, q) s (inl (e, same, kept)) = record {
    waits = subst (Waits f env engine dag) (sym same) s.waits;
    quiet = s.quiet;
    reported = rw kept s.reported;
    justified = s.justified;
  }
  Taken-Keeps p (some t, q) s (inl (e, same, kept)) = cc
  Taken-Keeps p (none, q) s (inr (x, e, met, at, kept)) = cc
  Taken-Keeps p (some t, q) s (inr (x, e, met, (i, at), kept)) =
      let same : x.task ≡ t = cc in
      let (own, others) =
        swap_remove-All (λ y. IsOpen y.task × Stands dag y.task) p.scheduler.pending i x q.pending
          s.waits at in
      let shares =
        total-swap_remove (λ y. rounds_left y.task) p.scheduler.pending i x q.pending at in
      let k : IsTaken x.task q p.world p.results (load f env engine p.scheduler.pending) = record {
        waits = others;
        stands = own.1;
        met = rw kept met;
        quiet = s.quiet;
        reported = rw kept s.reported;
        justified = s.justified;
        less = omega (arith, shares);
      } in
      subst
        (λ u.
          Keeps f env engine dag w0 (load f env engine p.scheduler.pending)
            (dispatched f env engine (some u, q) p.world p.results))
        same (executed_Keeps x.task q p.world p.results _ k own.0)

  -- A round keeps the loop sound, and a round that continues has less work left than before.
  pub one_round-Keeps :
      (p : Progress f env engine)
      → IsSound f env engine dag w0 p
      → Keeps f env engine dag w0 (load f env engine p.scheduler.pending) (one_round f env engine p)
  unfolding one_round
  one_round-Keeps p s = Taken-Keeps p (dispatch_next f p.scheduler) s (dispatch-Taken f p.scheduler)
