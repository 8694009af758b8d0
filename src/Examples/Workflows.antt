-- ===== src/Examples/Workflows.antt =====
-- Workflows on the engine of Examples/Engines, with the arithmetic of Examples/Fixed.
use ckos.Base.{ℕ, zero, suc, String, List, [], ◌∷◌, ◌≡◌, refl, inl, Option, some, none, arith, map}
use ckos.Kernel.Capability.{medical}
use ckos.Kernel.Error.{Result, ok, err}
use ckos.Kernel.Event.{Event, workflow_completed}
use ckos.Kernel.Task.{Task, created, normal}
use ckos.Workflow.{Dag, task, topological_order}
use ckos.Scheduler
use ckos.Scheduler.{dispatch_next}
use ckos.Agents.{discover}
use ckos.Base.Map
use ckos.Workflow.Order.{IsOrder, topological_order-IsOrder}
use ckos.Workflow.Acyclic.{IsForward, forward-topological_order}
use ckos.Engine.State.{World, ExecutionResult}
use ckos.Engine.Workflow.{run_workflow}
use ckos.Engine.Workflow.Runs.{Concluded, IsUnstarted, run_workflow-Concluded}
use ckos.Examples.Fixed.{fixed}
use ckos.Examples.Engines.{desk, clinic_engine}

abbrev a_task : String → List String → Task
a_task id deps = record {
  id = id;
  workflow = some "w1";
  description = "read the scan";
  capability = medical;
  priority = normal;
  depends_on = deps;
  state = created;
  attempts = 0;
}

abbrev idle : World
idle = record {
  events = [];
  audit = record { records = []; max_records = 100 };
  telemetry = record { samples = []; max_samples = 100 };
  runs = 0;
  stamps = 0;
}

-- The second step depends on the first.
abbrev scan_then_report : Dag
scan_then_report = record {
  id = "w1";
  name = "scan";
  steps =
      record { task = a_task "t1" []; deps = [] }
      ∷ record { task = a_task "t2" ("t1" ∷ []); deps = 0 ∷ [] }
      ∷ [];
}

scan_then_report-IsUnstarted : IsUnstarted scan_then_report
scan_then_report-IsUnstarted = (inl refl, (inl refl, tt))

run_workflow-Concluded_example :
    Concluded scan_then_report idle (run_workflow fixed desk clinic_engine scan_then_report idle)
run_workflow-Concluded_example =
    run_workflow-Concluded fixed desk clinic_engine scan_then_report idle
      scan_then_report-IsUnstarted

-- A task that depends on an id which no step has: it is never ready.
abbrev waiting_forever : Dag
waiting_forever = record {
  id = "w2";
  name = "stuck";
  steps = record { task = a_task "t1" ("ghost" ∷ []); deps = [] } ∷ [];
}

-- The events and the number of results of a run.
abbrev seen :
    Option (Result (List ExecutionResult) × World) → Option (Result (List String) × List Event)
seen none = none
seen (some (ok rs, w)) = some (ok (map (λ r. r.task) rs), w.events)
seen (some (err e, w)) = some (err e, w.events)

abbrev stuck_run : Option (Result (List String) × List Event)
stuck_run = seen (run_workflow fixed desk clinic_engine waiting_forever idle)

-- Though its only task never ran, the workflow is announced as completed.
announced_unrun : stuck_run ≡ some (ok [], workflow_completed "w2" ∷ [])
unfolding run_workflow topological_order dispatch_next task Scheduler.new discover Map.get
announced_unrun = refl

topological_order-IsOrder_example : IsOrder scan_then_report (0 ∷ 1 ∷ [])
unfolding topological_order
topological_order-IsOrder_example = topological_order-IsOrder scan_then_report (0 ∷ 1 ∷ []) refl

scan_then_report-IsForward : IsForward scan_then_report
scan_then_report-IsForward zero = tt
scan_then_report-IsForward (suc zero) = (omega arith, tt)
scan_then_report-IsForward (suc (suc i)) = tt

forward-topological_order_example :
    (order : List ℕ) × (topological_order scan_then_report ≡ some order)
    × IsOrder scan_then_report order
forward-topological_order_example =
    forward-topological_order scan_then_report scan_then_report-IsForward
