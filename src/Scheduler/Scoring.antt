-- ===== src/Scheduler/Scoring.antt =====
-- Scores of scheduler/src/lib.rs are numbers, whatever the factors are.
use ckos.Base.{ℕ, ◌-◌, ◌<◌, false, ◌≡◌, arith, Bool-cases, inl, inr}
use ckos.Kernel.Task.{Priority, low, normal, high, critical}
use ckos.Scheduler.Floats.{Float, FloatLaws, Nonneg}
use ckos.Scheduler.{ScoreFactors, norm, base_weight, score, Pending, effective}

module _ (f : Float) (laws : FloatLaws f) where
  open f use {F32, lit, least, of_u64, add, mul, gt, is_nan, clamp_unit, max_zero}

  norm_bounds : (v : F32) → Nonneg f (norm f v) × (gt (norm f v) (lit 1 1) ≡ false)
  unfolding norm
  norm_bounds v = elim (Bool-cases (is_nan v)) [
    | inl nan ↦ rw nan (laws.lit_bound 0 1 (omega arith), laws.zero_unit)
    | inr number ↦ rw number (laws.clamp_bounds v number)
  ]

  weighted : (n d : ℕ) (v : F32) → 0 < d → Nonneg f (mul (lit n d) (norm f v))
  weighted n d v h = let bounds = norm_bounds v in laws.mul_unit n d (norm f v) h bounds.0 bounds.1

  base_weight_bound : (p : Priority) → Nonneg f (base_weight f p)
  unfolding base_weight
  base_weight_bound low = laws.lit_bound 0 1 (omega arith)
  base_weight_bound normal = laws.lit_bound 25 100 (omega arith)
  base_weight_bound high = laws.lit_bound 5 10 (omega arith)
  base_weight_bound critical = laws.lit_bound 1 1 (omega arith)

  -- Whatever the six factors are, NaN and the infinities included, the score of a task is a number
  -- and is not negative.
  pub score_bound : (s : ScoreFactors f) (p : Priority) → Nonneg f (score f s p)
  unfolding score
  score_bound s p =
      let plus = laws.add_bound in
      plus _ _
        (plus _ _
          (plus _ _
            (plus _ _
              (plus _ _ (plus _ _ (base_weight_bound p) (weighted 30 100 s.deadline (omega arith)))
                (weighted 25 100 s.importance (omega arith)))
              (weighted 15 100 s.runtime_fit (omega arith)))
            (weighted 10 100 s.confidence (omega arith)))
          (weighted 10 100 s.cost_efficiency (omega arith)))
        (weighted 10 100 s.energy (omega arith))

  pub effective_bound :
      (rate : F32) (clock : ℕ) (p : Pending f)
      → Nonneg f rate
      → p.enqueued_at < clock
      → Nonneg f (effective f rate clock p)
  unfolding effective
  effective_bound rate clock p r h =
      laws.add_bound _ _ (score_bound p.factors p.task.priority)
        (laws.mul_count rate (clock - p.enqueued_at) r (omega arith))
