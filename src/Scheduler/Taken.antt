-- ===== src/Scheduler/Taken.antt =====
-- What `dispatch_next` of scheduler/src/lib.rs takes from the queue, whatever the scores are.
use mathlib.Core.List.{append_assoc}
use ckos.Base.{
  ℕ, ◌+◌, List, [], ◌∷◌, ◌++◌, Bool, true, Option, none, some, get_elem?, ◌≡◌, refl, arith, length,
  length-append, Bool-cases, inl, inr, ◌⊎◌, sym, ◌∙◌,
}
use ckos.Kernel.Task.{Task}
use ckos.Scheduler.Floats.{Float}
use ckos.Scheduler.{
  Pending, Scheduler, scan, consider, dispatch_next, remove_best, dependencies_met, effective,
  u64_mod, swap_remove,
}
use ckos.Scheduler.Removal.{swap_remove-perm}
use ckos.Scheduler.Scan.{get_elem?-middle}
use ckos.Base.{◌%◌}

module _ (f : Float) where
  open f use {F32, gt, least}

  -- An index that is held is that of a ready task.
  abbrev Hit : (Pending f → Bool) → List (Pending f) → Option ℕ × F32 → Type 0
  Hit ready whole (none, s) = Unit
  Hit ready whole (some i, s) = (p : Pending f) × (get_elem? whole i ≡ some p) × (ready p ≡ true)

  module _ (ready : Pending f → Bool) (eff : Pending f → F32) (whole : List (Pending f)) where
    consider-Hit :
        (p : Pending f) (i : ℕ) (best : Option ℕ × F32)
        → get_elem? whole i ≡ some p
        → Hit ready whole best
        → Hit ready whole (consider f (ready p) (eff p) i best)
    unfolding consider
    consider-Hit p i best at h = elim (Bool-cases (ready p)) [
      | inr waits ↦ rw waits h
      | inl runs ↦ elim (Bool-cases (gt (eff p) best.1)) [
        | inl better ↦ rw (runs, better) (p, at, runs)
        | inr worse ↦ rw (runs, worse) h
      ]
    ]

    scan-Hit :
        (seen rest : List (Pending f)) (i : ℕ) (best : Option ℕ × F32)
        → i ≡ length seen
        → whole ≡ seen ++ rest
        → Hit ready whole best
        → Hit ready whole (scan f ready eff i rest best)
    unfolding scan
    scan-Hit seen [] i best count e h = h
    scan-Hit seen (p ∷ rest) i best count e h =
        scan-Hit (seen ++ p ∷ []) rest (i + 1) (consider f (ready p) (eff p) i best)
          (omega (arith, length-append seen (p ∷ []))) (e ∙ sym (append_assoc seen (p ∷ []) rest))
          (consider-Hit p i best (rw (e, count) (get_elem?-middle seen p rest)) h)

  -- Nothing is taken and the queue is the same, or one ready task is and the others stay.
  abbrev pub Taken : Scheduler f → Option Task × Scheduler f → Type 0
  Taken q (task, q') =
      ((task ≡ none) × (q'.pending ≡ q.pending) × (q'.completed ≡ q.completed))
      ⊎ ((p : Pending f) × (task ≡ some p.task)
          × (dependencies_met q.completed p.task ≡ true)
          × ((i : ℕ) × (swap_remove q.pending i ≡ some (p, q'.pending)))
          × (q'.completed ≡ q.completed))

  Taken-best :
      (q : Scheduler f) (clock : ℕ) (best : Option ℕ × F32)
      → Hit (λ p. dependencies_met q.completed p.task) q.pending best
      → Taken q (remove_best f best.0 (record q { clock = clock }))
  unfolding remove_best
  Taken-best q clock (none, s) h = inl (refl, refl, refl)
  Taken-best q clock (some i, s) (p, at, runs) =
      let (rest, hit, perm) = swap_remove-perm q.pending i p at in
      rw hit (inr (p, refl, runs, (i, hit), refl))

  pub dispatch-Taken : (q : Scheduler f) → Taken q (dispatch_next f q)
  unfolding dispatch_next
  dispatch-Taken q =
      let clock = (q.clock + 1) % u64_mod in
      Taken-best q clock _ (
        scan-Hit (λ p. dependencies_met q.completed p.task) (effective f q.aging_rate clock)
          q.pending [] q.pending 0 (none, least) refl refl tt)
