-- ===== src/Kernel/Telemetry.antt =====
-- kernel/src/telemetry.rs: the samples of task executions and their aggregates, over an interface for
-- `f64`.
pub mod Means
use ckos.Base.{
  ℕ, ◌+◌, ◌*◌, ◌%◌, ◌^◌, String, List, [], ◌∷◌, map, Bool, Option, none, some, ◌==◌, string_eq,
  nat_eq, if◌then◌else◌, length, keep, push_bounded,
}
use Prim.Native.Nat.{max}
use ckos.Kernel.Doubles.{Double}

abbrev pub default_max_samples : ℕ
default_max_samples = 10000

pub record TaskMetrics : Type 0 where
  pub runtime : String
  pub latency_ns : ℕ
  pub tokens : ℕ

pub record Telemetry : Type 0 where
  pub samples : List TaskMetrics
  pub max_samples : ℕ

unfoldable pub empty : Telemetry
empty = record { samples = []; max_samples = default_max_samples }

unfoldable pub with_max_samples : Telemetry → ℕ → Telemetry
with_max_samples t max_ = record t { max_samples = max max_ 1 }

unfoldable pub len : Telemetry → ℕ
len t = length t.samples

unfoldable pub is_empty : Telemetry → Bool
unfolding len
is_empty t = len t == 0

-- `iter().sum()` of a `u64`, wrapping
unfoldable pub sum_u64 : List ℕ → ℕ
sum_u64 [] = 0
sum_u64 (x ∷ xs) = (x + sum_u64 xs) % 2 ^ 64

unfoldable pub total_tokens : Telemetry → ℕ
unfolding sum_u64
total_tokens t = sum_u64 (map (λ m. m.tokens) t.samples)

module _ (d : Double) where
  open d use {F64, of_u64, lit, mul, div}

  -- `TaskMetrics::latency_ms`
  unfoldable pub latency_ms : TaskMetrics → F64
  latency_ms m = div (of_u64 m.latency_ns) (lit 1000000)

  -- `TaskMetrics::tokens_per_sec`
  unfoldable pub tokens_per_sec : TaskMetrics → Option F64
  tokens_per_sec m =
      if m.latency_ns == 0
      then none
      else some (div (mul (of_u64 m.tokens) (lit 1000000000)) (of_u64 m.latency_ns))

  -- `mean_latency_ms`: the mean over all samples
  unfoldable pub mean_latency_ms : Telemetry → Option F64
  unfolding sum_u64
  mean_latency_ms t =
      let sum = sum_u64 (map (λ m. m.latency_ns) t.samples) in
      if length t.samples == 0
      then none
      else some (div (div (of_u64 sum) (of_u64 (length t.samples))) (lit 1000000))

  -- `mean_latency_ns_for`: the mean over the samples of one runtime
  unfoldable pub mean_latency_ns_for : Telemetry → String → Option F64
  unfolding sum_u64
  mean_latency_ns_for t runtime =
      let matching = map (λ m. m.latency_ns) (keep (λ m. m.runtime == runtime) t.samples) in
      if length matching == 0
      then none
      else some (div (of_u64 (sum_u64 matching)) (of_u64 (length matching)))

  -- `mean_tokens_per_sec`
  unfoldable pub mean_tokens_per_sec : Telemetry → Option F64
  unfolding sum_u64 total_tokens
  mean_tokens_per_sec t =
      let total_ns = sum_u64 (map (λ m. m.latency_ns) t.samples) in
      if total_ns == 0
      then none
      else some (div (mul (of_u64 (total_tokens t)) (lit 1000000000)) (of_u64 total_ns))

-- `TelemetrySink::record`
unfoldable pub record_sample : Telemetry → TaskMetrics → Telemetry
record_sample t m = record t { samples = push_bounded t.max_samples t.samples m }
