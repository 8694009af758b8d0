-- ===== src/Examples/Schedules.antt =====
-- The scheduler at a concrete arithmetic and queue.
use ckos.Base.{String, List, [], ◌∷◌, refl, arith, none}
use ckos.Kernel.Capability.{coding}
use ckos.Kernel.Task.{created, critical, normal}
use ckos.Scheduler.{Pending, Scheduler, ScoreFactors, score, dispatch_next}
use ckos.Scheduler.Floats.{Nonneg}
use ckos.Scheduler.Scoring.{score_bound}
use ckos.Scheduler.Dispatch.{IsTimely, Outcome, dispatch_cases}
use ckos.Examples.Fixed.{nan, milli, fixed, fixed_laws}

abbrev odd_factors : ScoreFactors fixed
odd_factors = record {
  deadline = nan;
  importance = milli 5000;
  cost_efficiency = milli 500;
  runtime_fit = milli 500;
  energy = milli 500;
  confidence = nan;
}

abbrev waiting : String → List String → Pending fixed
waiting id deps = record {
  task = record {
    id = id;
    workflow = none;
    description = "work";
    capability = coding;
    priority = normal;
    depends_on = deps;
    state = created;
    attempts = 0;
  };
  factors = odd_factors;
  enqueued_at = 0;
}

abbrev queue : Scheduler fixed
queue = record {
  pending = waiting "b" ("a" ∷ []) ∷ waiting "c" [] ∷ [];
  completed = [];
  clock = 3;
  aging_rate = milli 50;
}

score_bound_example : Nonneg fixed (score fixed odd_factors critical)
score_bound_example = score_bound fixed fixed_laws odd_factors critical

queue-IsTimely : IsTimely fixed queue
queue-IsTimely = record {
  rate = (refl, refl);
  past = (omega arith, (omega arith, tt));
  room = omega arith;
}

dispatch_cases_example : Outcome fixed queue (dispatch_next fixed queue)
dispatch_cases_example = dispatch_cases fixed fixed_laws queue queue-IsTimely
