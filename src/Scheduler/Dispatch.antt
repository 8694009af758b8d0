-- ===== src/Scheduler/Dispatch.antt =====
-- `dispatch_next` of scheduler/src/lib.rs: what it returns, and what it leaves pending.
use mathlib.Core.List.{Perm}
use ckos.Base.{
  ℕ, ◌+◌, ◌<◌, ◌%◌, ◌≤◌, List, [], ◌∷◌, Bool, true, false, Option, none, some, ◌≡◌, refl, arith,
  inl, inr, All, ◌⊎◌,
}
use ckos.Kernel.Task.{Task}
use ckos.Scheduler.Floats.{Float, FloatLaws, Nonneg}
use ckos.Scheduler.{
  Pending, Scheduler, effective, dependencies_met, dispatch_next, remove_best, u64_mod,
}
use ckos.Scheduler.Removal.{swap_remove-perm}
use ckos.Scheduler.Scan.{Held, scan-Held}
use ckos.Scheduler.Scoring.{effective_bound}

module _ (f : Float) where
  open f use {F32, lit, least, of_u64, add, mul, gt, is_nan, clamp_unit, max_zero}

  -- The aging rate is a number that is not negative, nothing was enqueued in the future, and the
  -- clock has room to tick.
  pub record IsTimely (q : Scheduler f) : Type 0 where
    pub rate : Nonneg f q.aging_rate
    pub past : All (λ p. p.enqueued_at ≤ q.clock) q.pending
    pub room : q.clock + 1 < u64_mod

  abbrev pub ready_in : Scheduler f → Pending f → Bool
  ready_in q p = dependencies_met q.completed p.task

  -- the score at the tick that the dispatch makes
  abbrev pub score_in : Scheduler f → Pending f → F32
  score_in q = effective f q.aging_rate (q.clock + 1)

  -- `p` was pending with its dependencies met, no ready task outscores it, and it alone is gone.
  pub record IsDispatched (q : Scheduler f) (p : Pending f) (q' : Scheduler f) : Type 0 where
    pub ready : ready_in q p ≡ true
    pub best : All (λ x. ready_in q x ≡ true → gt (score_in q x) (score_in q p) ≡ false) q.pending
    pub others : Perm q.pending (p ∷ q'.pending)
    pub same_completed : q'.completed ≡ q.completed
    pub same_rate : q'.aging_rate ≡ q.aging_rate
    pub ticked : q'.clock ≡ q.clock + 1

  -- Either a best ready task is dispatched, or nothing is ready and the queue stays.
  abbrev pub Outcome : Scheduler f → Option Task × Scheduler f → Type 0
  Outcome q (task, q') =
      ((p : Pending f) × (task ≡ some p.task) × IsDispatched q p q')
      ⊎ ((task ≡ none)
          × (q' ≡ record q { clock = q.clock + 1 })
          × All (λ p. ready_in q p ≡ false) q.pending)

module _ (f : Float) (laws : FloatLaws f) where
  open f use {F32, least, gt}

  scores_win :
      (rate : F32) (clock : ℕ) (ps : List (Pending f))
      → Nonneg f rate
      → All (λ p. p.enqueued_at ≤ clock) ps
      → All (λ p. gt (effective f rate (clock + 1) p) least ≡ true) ps
  scores_win rate clock [] r h = tt
  scores_win rate clock (p ∷ ps) r h = (
    laws.gt_least _ (effective_bound f laws rate (clock + 1) p r (omega arith)),
    scores_win rate clock ps r h.1,
  )

  removed :
      (q : Scheduler f) (best : Option ℕ × F32)
      → Held f laws (ready_in f q) (score_in f q) q.pending q.pending best
      → Outcome f q (remove_best f best.0 (record q { clock = q.clock + 1 }))
  unfolding remove_best
  removed q (none, s) h = inr (refl, refl, h.1)
  removed q (some i, s) (p, at, runs, e, below) =
      let (rest, hit, perm) = swap_remove-perm q.pending i p at in
      rw hit (
        inl (
          p,
          refl,
          record {
            ready = runs;
            best = rw e at below;
            others = perm;
            same_completed = refl;
            same_rate = refl;
            ticked = refl;
          },
        ))

  -- If the clock has not overflowed and the aging rate is not negative, `dispatch_next` returns a
  -- pending task whose dependencies are completed and which no other such task outscores, and
  -- removes it alone; or it returns nothing and keeps the queue, and then no pending task has its
  -- dependencies completed. No score, NaN factors included, can make it pass over a ready queue.
  pub dispatch_cases : (q : Scheduler f) → IsTimely f q → Outcome f q (dispatch_next f q)
  unfolding dispatch_next
  dispatch_cases q h =
      let wrap : (q.clock + 1) % u64_mod ≡ q.clock + 1 = omega arith in
      rw wrap (
        removed q _ (
          scan-Held f laws (ready_in f q) (score_in f q) q.pending
            (scores_win q.aging_rate q.clock q.pending h.rate h.past)))
