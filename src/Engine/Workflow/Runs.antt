-- ===== src/Engine/Workflow/Runs.antt =====
-- `Engine::run_workflow` of sdk/src/engine.rs as a whole: it ends, and what its end says.
use ckos.Base.{
  ℕ, suc, zero, ◌+◌, ◌*◌, ◌<◌, ◌≤◌, List, [], ◌∷◌, ◌++◌, false, Option, none, some, ◌≡◌, refl, ap,
  arith, ◌⊎◌, inl, inr, All, All-append, AnyOf, AnyOf-mono, Bool-cases, Option-cases, length,
  get_elem?, sym, ◌∙◌,
}
use mathlib.Core.Path.{subst}
use mathlib.Core.List.{append-nil}
use ckos.Agents.{AgentInstance, discover}
use ckos.Base.{head?}
use ckos.Kernel.Error.{KernelError, Result, ok, err}
use ckos.Kernel.Event.{Event, workflow_completed}
use ckos.Kernel.Task.{Task, is_normal}
use ckos.Scheduler
use ckos.Scheduler.Floats.{Float}
use ckos.Scheduler.{Pending, Scheduler, submit_scored}
use ckos.Workflow.{Dag, task, task_of, topological_order}
use ckos.Engine.State.{Surroundings, Engine, World, ExecutionResult}
use ckos.Engine.Workflow.{
  Progress, Round, again, finished, stopped, one_round, run_loop, run_ordered, run_workflow,
  conclude, concluded, submit_all, submit_step, submit_scored_by_telemetry, adopt_priority,
  with_agent_priority,
}
use ckos.Engine.Workflow.Sound.{
  Quiet, is_end, IsOpen, Stands, Justified, none_yet, load, Waits, IsSound, Keeps, rounds_left,
}
use ckos.Engine.Workflow.Rounds.{one_round-Keeps}
use ckos.Scheduler.Remains.{total-append}

-- No task of the workflow was started before.
abbrev pub IsUnstarted : Dag → Type 0
IsUnstarted dag = All (λ s. IsOpen s.task) dag.steps

-- The workflow returned verified results in an order that respects the dependencies, and announced
-- its completion once, at the end; or it returned an error and did not announce it.
abbrev pub Concluded : Dag → World → Option (Result (List ExecutionResult) × World) → Type 0
Concluded dag w out =
    (es : List Event) × (w' : World) × All (λ e. is_end e ≡ false) es
    × (((rs : List ExecutionResult) × (out ≡ some (ok rs, w'))
          × Justified dag rs
          × (w'.events ≡ (w.events ++ es) ++ workflow_completed dag.id ∷ []))
        ⊎ ((e : KernelError) × (out ≡ some (err e, w')) × (w'.events ≡ w.events ++ es)))

-- What holds of all elements holds of the one at an index, which is an element.
at_index :
    {A : Type 0} (P : A → Type 0) (xs : List A) (r : ℕ) (a : A)
    → All P xs
    → get_elem? xs r ≡ some a
    → P a × AnyOf (λ x. x ≡ a) xs
at_index P [] r a h e = cc
at_index P (x ∷ xs) zero a h e = let same : x ≡ a = cc in (subst P same h.0, inl same)
at_index P (x ∷ xs) (suc r) a h e = let rest = at_index P xs r a h.1 e in (rest.0, inr rest.1)

step_task :
    (dag : Dag) (r : ℕ) (t : Task) → IsUnstarted dag → task dag r ≡ some t → IsOpen t × Stands dag t
unfolding task
step_task dag r t h e = elim (Option-cases (get_elem? dag.steps r)) [
  | inl miss ↦ cc (rw (miss, task_of) at e)
  | inr (s, hit) ↦
      let same : s.task ≡ t = cc (rw (hit, task_of) at e) in
      let (unstarted, there) = at_index (λ x. IsOpen x.task) dag.steps r s h hit in
      (
        subst IsOpen same unstarted,
        AnyOf-mono (λ x. x ≡ s) _ dag.steps
            (λ x own. (
              ap (λ y. y.task.id) own ∙ ap (λ u. u.id) same,
              ap (λ y. y.task.depends_on) own ∙ ap (λ u. u.depends_on) same,
            ))
            there,
      )
]

module _ (f : Float) (env : Surroundings) (engine : Engine) (dag : Dag) where
  abbrev Open : Task → Type 0
  Open t = IsOpen t × Stands dag t

  with_agent_priority-Open :
      (o : Option AgentInstance) (t : Task) → Open t → Open (with_agent_priority o t)
  unfolding with_agent_priority
  with_agent_priority-Open none t h = h
  with_agent_priority-Open (some a) t h = h

  adopt_priority-Open : (t : Task) → Open t → Open (adopt_priority engine t)
  unfolding adopt_priority
  adopt_priority-Open t h = elim (Bool-cases (is_normal t.priority)) [
    | inl plain ↦
        rw plain (with_agent_priority-Open (head? (discover engine.agents t.capability)) t h)
    | inr own ↦ rw own h
  ]

  -- What the submission of `n` steps makes of an empty queue.
  record IsFilled (n : ℕ) (q : Scheduler f) : Type 0 where
    waits : Waits f env engine dag q.pending
    few : load f env engine q.pending ≤ 3 * n
    clean : q.completed ≡ []

  submit_step-IsFilled :
      (w : World) (n : ℕ) (o : Option Task) (q : Scheduler f)
      → ((t : Task) → o ≡ some t → Open t)
      → IsFilled n q
      → IsFilled (n + 1) (submit_step f env engine w o q)
  unfolding submit_step submit_scored_by_telemetry submit_scored
  submit_step-IsFilled w n none q h k = record {
    waits = k.waits;
    few = omega (arith, k.few);
    clean = k.clean;
  }
  submit_step-IsFilled w n (some t) q h k = record {
    waits =
        All-append (λ p. Open p.task) q.pending _ k.waits (adopt_priority-Open t (h t refl), tt);
    few = omega (arith, k.few, total-append (λ (p : Pending f). rounds_left p.task) q.pending _);
    clean = k.clean;
  }

  abbrev FromGraph : Type 0
  FromGraph = (r : ℕ) (t : Task) → task dag r ≡ some t → Open t

  submit_all-IsFilled :
      (w : World) (n : ℕ) (rs : List ℕ) (q : Scheduler f)
      → FromGraph
      → IsFilled n q
      → IsFilled (n + length rs) (submit_all f env engine w dag rs q)
  unfolding submit_all
  submit_all-IsFilled w n [] q g k = record {
    waits = k.waits;
    few = omega (arith, k.few);
    clean = k.clean;
  }
  submit_all-IsFilled w n (r ∷ rs) q g k =
      let rest =
        submit_all-IsFilled w (n + 1) rs _ g (submit_step-IsFilled w n (task dag r) q (g r) k) in
      record { waits = rest.waits; few = omega (arith, rest.few); clean = rest.clean }

  -- How the loop ends.
  abbrev Ended : World → Round f env engine → Type 0
  Ended w (again p) = ⊥
  Ended w (finished p) = IsSound f env engine dag w p
  Ended w (stopped e w') = Quiet w w'

  abbrev Loops : World → ℕ → Progress f env engine → Type 0
  Loops w fuel p =
      (end : Round f env engine) × (run_loop f env engine fuel p ≡ some end) × Ended w end

  -- One round, when the loop ends with the fuel that is left.
  one_more_round :
      (w : World) (fuel most : ℕ) (p : Progress f env engine) (r : Round f env engine)
      → ((p' : Progress f env engine)
          → IsSound f env engine dag w p'
          → load f env engine p'.scheduler.pending < fuel
          → Loops w fuel p')
      → most < fuel + 1
      → one_round f env engine p ≡ r
      → Keeps f env engine dag w most r
      → Loops w (suc fuel) p
  unfolding run_loop
  one_more_round w fuel most p (again p') loop less e k =
      let (end, ran, ended) = loop p' k.0 (omega (arith, k.1)) in (end, rw e ran, ended)
  one_more_round w fuel most p (finished p') loop less e k = (finished p', rw e refl, k)
  one_more_round w fuel most p (stopped er w') loop less e k = (stopped er w', rw e refl, k)

  run_loop-Ended :
      (w : World) (fuel : ℕ) (p : Progress f env engine)
      → IsSound f env engine dag w p
      → load f env engine p.scheduler.pending < fuel
      → Loops w fuel p
  run_loop-Ended w zero p s less = absurd (omega arith)
  run_loop-Ended w (suc fuel) p s less =
      one_more_round w fuel _ p _ (run_loop-Ended w fuel) (omega arith) refl
        (one_round-Keeps f env engine dag w p s)

  Concluded-Ended :
      (w : World) (end : Round f env engine)
      → Ended w end
      → Concluded dag w (some (conclude f env engine dag end))
  unfolding conclude
  Concluded-Ended w (again p) h = absurd h
  Concluded-Ended w (finished p) s =
      let (es, e, q) = s.quiet in
      (
        es,
        _,
        q,
        inl (p.results, refl, s.justified, ap (λ l. l ++ workflow_completed dag.id ∷ []) e),
      )
  Concluded-Ended w (stopped er w') (es, e, q) = (es, w', q, inr (er, refl, e))

  ordered-Concluded :
      (w : World) (order : Option (List ℕ))
      → IsUnstarted dag
      → Concluded dag w (run_ordered f env engine dag w order)
  unfolding run_ordered Scheduler.new
  ordered-Concluded w none h = ([], w, tt, inr (_, refl, sym (append-nil w.events)))
  ordered-Concluded w (some order) h =
      let filled =
        submit_all-IsFilled w 0 order (Scheduler.new f) (λ r t e. step_task dag r t h e)
          (record { waits = tt; few = omega arith; clean = refl }) in
      let first : Progress f env engine = record {
        scheduler = submit_all f env engine w dag order (Scheduler.new f);
        world = w;
        results = [];
      } in
      let start : IsSound f env engine dag w first = record {
        waits = filled.waits;
        quiet = ([], sym (append-nil w.events), tt);
        reported = λ id known. cc (rw filled.clean at known);
        justified = none_yet;
      } in
      let (end, ran, ended) =
        run_loop-Ended w (3 * length order + 1) first start (omega (arith, filled.few)) in
      rw (ran, concluded) (Concluded-Ended w end ended)

  -- If no task of a workflow was started before, running it ends within the fuel, which is three
  -- rounds for a task and one more. Either it returns results, each verified and completed, of a task
  -- of the workflow whose dependencies are among the tasks of earlier results, and the completion of
  -- the workflow is published once, after everything else; or it returns an error, and no completion
  -- of a workflow is published.
  pub run_workflow-Concluded :
      (w : World) → IsUnstarted dag → Concluded dag w (run_workflow f env engine dag w)
  unfolding run_workflow
  run_workflow-Concluded w h = ordered-Concluded w (topological_order dag) h
