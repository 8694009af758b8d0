-- ===== src/Kernel/Telemetry/Means.antt =====
-- The mean latency of a runtime in kernel/src/telemetry.rs.
use native.Mathlib.Nat.{mul-suc}
use ckos.Base.{
  ℕ, ◌*◌, ◌^◌, ◌<◌, ◌≤◌, String, List, [], ◌∷◌, map, none, some, true, ◌⊎◌, refl, Option,
  if◌then◌else◌, ◌≡◌, arith, ◌==◌, string_eq, nat_eq, keep, length, All, Bool-cases, inl, inr,
}
use text.Mathlib.TextEquality.{eq_iff}
use ckos.Kernel.Doubles.{Double, DoubleLaws}
use ckos.Kernel.Telemetry.{TaskMetrics, Telemetry, sum_u64, mean_latency_ns_for}

-- The latencies of one runtime lie between two bounds.
abbrev pub Between : String → ℕ → ℕ → TaskMetrics → Type 0
Between runtime lo hi m = m.runtime ≡ runtime → (lo ≤ m.latency_ns) × (m.latency_ns ≤ hi)

sum_bounds :
    (lo hi : ℕ) (xs : List ℕ)
    → All (λ x. (lo ≤ x) × (x ≤ hi)) xs
    → hi * length xs < 2 ^ 64
    → (lo * length xs ≤ sum_u64 xs) × (sum_u64 xs ≤ hi * length xs)
unfolding sum_u64
sum_bounds lo hi [] h room = (omega arith, omega arith)
sum_bounds lo hi (x ∷ xs) h room =
    let low = mul-suc lo (length xs) in
    let high = mul-suc hi (length xs) in
    let rest = sum_bounds lo hi xs h.1 (omega (arith, high, room)) in
    (omega (arith, low, high, rest, h.0, room), omega (arith, low, high, rest, h.0, room))

kept_bounds :
    (runtime : String) (lo hi : ℕ) (ms : List TaskMetrics)
    → All (Between runtime lo hi) ms
    → All (λ x. (lo ≤ x) × (x ≤ hi)) (map (λ m. m.latency_ns) (keep (λ m. m.runtime == runtime) ms))
kept_bounds runtime lo hi [] h = tt
kept_bounds runtime lo hi (m ∷ ms) h = elim (Bool-cases (m.runtime == runtime)) [
  | inl mine ↦ rw mine (h.0 ((eq_iff m.runtime runtime).0 mine), kept_bounds runtime lo hi ms h.1)
  | inr other ↦ rw other (kept_bounds runtime lo hi ms h.1)
]

-- The latencies of the samples of one runtime.
abbrev pub latencies : String → List TaskMetrics → List ℕ
latencies runtime [] = []
latencies runtime (m ∷ ms) =
    let rest = latencies runtime ms in if m.runtime == runtime then m.latency_ns ∷ rest else rest

latencies_lem :
    (runtime : String) (ms : List TaskMetrics)
    → map (λ m. m.latency_ns) (keep (λ m. m.runtime == runtime) ms) ≡ latencies runtime ms
latencies_lem runtime [] = refl
latencies_lem runtime (m ∷ ms) = elim (Bool-cases (m.runtime == runtime)) [
  | inl mine ↦ rw (mine, latencies_lem runtime ms) refl
  | inr other ↦ rw (other, latencies_lem runtime ms) refl
]

module _ (d : Double) (laws : DoubleLaws d) where
  open d use {F64, of_u64, le}

  abbrev mean_of : List ℕ → Option F64
  mean_of xs =
      if length xs == 0 then none else some (d.div (of_u64 (sum_u64 xs)) (of_u64 (length xs)))

  mean_bounds :
      (lo hi : ℕ) (xs : List ℕ)
      → All (λ x. (lo ≤ x) × (x ≤ hi)) xs
      → length xs < 2 ^ 64
      → hi * length xs ≤ 2 ^ 53
      → ((mean_of xs ≡ none) × (xs ≡ []))
        ⊎ ((mean : F64) × (mean_of xs ≡ some mean)
            × (le (of_u64 lo) mean ≡ true)
            × (le mean (of_u64 hi) ≡ true))
  mean_bounds lo hi [] h few room = inl (refl, refl)
  mean_bounds lo hi (x ∷ xs) h few room =
      let n = length (x ∷ xs) in
      let sum = sum_u64 (x ∷ xs) in
      let (low, high) = sum_bounds lo hi (x ∷ xs) h (omega (arith, room)) in
      let some_there : 0 < n = omega arith in
      let exact_lo = laws.div_exact lo n some_there (omega (arith, low, high, room)) in
      let exact_hi = laws.div_exact hi n some_there room in
      inr (
        d.div (of_u64 sum) (of_u64 n),
        ground arith,
        rw (← exact_lo)
            (laws.div_mono (lo * n) sum n low (omega (arith, high, room)) some_there few),
        rw (← exact_hi) (laws.div_mono sum (hi * n) n high (omega (arith, room)) some_there few),
      )

  -- If the latencies of a runtime lie between two bounds, and their number is less than 2 ^ 64 and,
  -- times the upper bound, at most 2 ^ 53, then either there is no latency and no mean, or the mean,
  -- with the roundings of its conversions and its division, lies between the bounds.
  pub mean_latency_ns_for-bounds :
      (t : Telemetry) (runtime : String) (lo hi : ℕ)
      → All (Between runtime lo hi) t.samples
      → length (latencies runtime t.samples) < 2 ^ 64
      → hi * length (latencies runtime t.samples) ≤ 2 ^ 53
      → ((mean_latency_ns_for d t runtime ≡ none) × (latencies runtime t.samples ≡ []))
        ⊎ ((mean : F64) × (mean_latency_ns_for d t runtime ≡ some mean)
            × (le (of_u64 lo) mean ≡ true)
            × (le mean (of_u64 hi) ≡ true))
  unfolding mean_latency_ns_for
  mean_latency_ns_for-bounds t runtime lo hi h few room = rw (latencies_lem runtime t.samples) (
      mean_bounds lo hi (latencies runtime t.samples)
        (rw (← latencies_lem runtime t.samples) (kept_bounds runtime lo hi t.samples h)) few room)
