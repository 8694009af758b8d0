-- ===== src/Examples/Kernels.antt =====
-- The modules of kernel/ at concrete inputs.
use ckos.Kernel.Telemetry.{TaskMetrics, Telemetry, mean_latency_ns_for}
use ckos.Kernel.Telemetry.Means.{Between, latencies, mean_latency_ns_for-bounds}
use ckos.Kernel.Doubles.{Double, DoubleLaws}
use native.Mathlib.Nat.{mul-div_cancel, le-div_iff_mul-le, div-mul-le_self}
use ckos.Base.{
  leb, ◌/◌, ◌⊎◌, some, ◌*◌, ◌<◌, All, ℕ, ◌≤◌, none, ◌≡◌, refl, arith, inr, String, List, [], ◌∷◌,
  ◌++◌, ◌%◌, ◌+◌, true,
}
use ckos.Kernel.Permission.{permission_matches}
use ckos.Kernel.Permission.Covers.{permission_matches_iff}
use ckos.Kernel.Capability.{coding}
use ckos.Kernel.Task.{
  TaskState, created, queued, running, verifying, completed, failed, rollback, retry, Task,
  transition_to, u32_mod, normal,
}
use ckos.Kernel.Task.Lifecycle.{
  Run, done, step, EndsVerified, visited, attempts-Run, Run-EndsVerified, completable, Completable,
}
use ckos.Kernel.Event.{Event, task_started, Bus, publish, subscribe, unsubscribe}
use ckos.Kernel.Event.Subscriptions.{IsFresh, publish-subscribe}
use ckos.Kernel.Audit.{AuditRecord, content_hash, with_max_records, empty, len}
use ckos.Kernel.Audit.Retention.{record_all, retention}

abbrev fresh_task : Task
fresh_task = record {
  id = "t1";
  workflow = none;
  description = "write a parser";
  capability = coding;
  priority = normal;
  depends_on = [];
  state = created;
  attempts = 0;
}

-- The known hash of one letter.
fnv_of_a : content_hash "a" ≡ 0xaf63dc4c8601ec8c
unfolding content_hash
fnv_of_a = refl

permission_matches_iff_example : permission_matches "graph.*" "graph.read" ≡ true
permission_matches_iff_example =
    (permission_matches_iff "graph.*" "graph.read").1 (inr ("graph.", refl, ("read", refl)))

-- A task that fails once and is completed on its second attempt.
abbrev at_state : TaskState → ℕ → Task
at_state s n = record fresh_task { state = s; attempts = n }

abbrev recovery : List TaskState
recovery =
    queued ∷ running ∷ failed ∷ rollback ∷ retry ∷ queued ∷ running ∷ verifying ∷ completed ∷ []

recovered : Run fresh_task recovery (at_state completed 1)
unfolding transition_to
recovered = step queued {u = at_state queued 0} refl (
    step running {u = at_state running 0} refl (
      step failed {u = at_state failed 0} refl (
        step rollback {u = at_state rollback 0} refl (
          step retry {u = at_state retry 1} refl (
            step queued {u = at_state queued 1} refl (
              step running {u = at_state running 1} refl (
                step verifying {u = at_state verifying 1} refl (
                  step completed {u = at_state completed 1} refl
                    (done (at_state completed 1))))))))))

attempts-Run_example : 1 ≡ (0 + 1) % u32_mod
attempts-Run_example = attempts-Run recovered (omega arith)

Run-EndsVerified_example : EndsVerified (visited fresh_task recovery)
Run-EndsVerified_example = Run-EndsVerified recovered (λ e. cc e) refl

completable_example : Completable (at_state failed 0)
completable_example = completable (at_state failed 0)

-- A bus whose subscribers append to a list of names.
abbrev note : String → Event → List String → List String
note name event seen = seen ++ name ∷ []

abbrev one_subscriber : Bus (List String)
one_subscriber = record { inner = (0, note "a") ∷ []; next_id = 1 }

one_subscriber-IsFresh : IsFresh one_subscriber
one_subscriber-IsFresh = (omega arith, tt)

publish-subscribe_example :
    (publish (subscribe (note "b") one_subscriber).1 (task_started "t1") []
      ≡ note "b" (task_started "t1") (publish one_subscriber (task_started "t1") []))
    × (publish
          (unsubscribe
            (subscribe (note "b") one_subscriber).0
            (subscribe (note "b") one_subscriber).1)
          (task_started "t1")
          []
        ≡ publish one_subscriber (task_started "t1") [])
publish-subscribe_example =
    publish-subscribe (note "b") one_subscriber (task_started "t1") [] one_subscriber-IsFresh

abbrev entry_at : ℕ → AuditRecord
entry_at now = record {
  timestamp_ms = now;
  action = "task.execute";
  runtime = none;
  tool = none;
  plugin = none;
  input_hash = 0;
  output_hash = 0;
  error = none;
}

retention_example :
    ((record_all (with_max_records empty 2) (entry_at 1 ∷ entry_at 2 ∷ entry_at 3 ∷ [])).records
      ≡ entry_at 2 ∷ entry_at 3 ∷ [])
    × (len (record_all (with_max_records empty 2) (entry_at 1 ∷ entry_at 2 ∷ entry_at 3 ∷ [])) ≤ 2)
retention_example = retention 2 (entry_at 1 ∷ entry_at 2 ∷ entry_at 3 ∷ [])

-- Two samples of one runtime and one of another.
abbrev sample : String → ℕ → TaskMetrics
sample name ns = record { runtime = name; latency_ns = ns; tokens = 1 }

abbrev measured : Telemetry
measured = record {
  samples = sample "edge" 100 ∷ sample "cloud" 9000 ∷ sample "edge" 300 ∷ [];
  max_samples = 10;
}

measured-Between : All (Between "edge" 100 300) measured.samples
measured-Between =
    (λ e. (omega arith, omega arith), (λ e. cc, (λ e. (omega arith, omega arith), tt)))

-- Whole numbers with a division that rounds down, as an instance of the interface for `f64`.
abbrev pub whole : Double
whole = record {
  F64 = ℕ;
  of_u64 = λ n. n;
  lit = λ n. n;
  mul = λ a b. a * b;
  div = λ a b. a / b;
  le = leb;
  round_u64 = λ n. n;
}

div_le_div : (a b c : ℕ) → a ≤ b → 0 < c → a / c ≤ b / c
div_le_div a b c less pos =
    (le-div_iff_mul-le pos).1 (let down = div-mul-le_self a c in omega (arith, down, less))

whole_laws : DoubleLaws whole
whole_laws = record {
  div_exact = λ a b pos room. mul-div_cancel a pos;
  div_mono = λ a b c less room pos few. ground (arith, div_le_div a b c less pos);
}

mean_latency_ns_for-bounds_example :
    ((mean_latency_ns_for whole measured "edge" ≡ none) × (latencies "edge" measured.samples ≡ []))
    ⊎ ((mean : ℕ) × (mean_latency_ns_for whole measured "edge" ≡ some mean)
        × (leb 100 mean ≡ true)
        × (leb mean 300 ≡ true))
mean_latency_ns_for-bounds_example =
    mean_latency_ns_for-bounds whole whole_laws measured "edge" 100 300 measured-Between
      (omega arith) (omega arith)
