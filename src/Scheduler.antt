-- ===== src/Scheduler.antt =====
-- scheduler/src/lib.rs: scoring, the pending queue and the dispatch of the best ready task, over any
-- `f32` arithmetic. Where the program's counters are `u64` they wrap around here too.
pub mod Floats
pub mod Removal
pub mod Scan
pub mod Scoring
pub mod Dispatch
pub mod Remains
pub mod Taken
use ckos.Base.{
  ℕ, suc, ◌+◌, ◌-◌, ◌%◌, ◌^◌, String, List, [], ◌∷◌, ◌++◌, Bool, true, false, ◌&&◌, Option, none,
  some, ◌==◌, nat_eq, string_eq, if◌then◌else◌, contains, all, length,
}
use Prim.Native.Nat.{max}
use ckos.Kernel.Task.{Task, Priority, low, normal, high, critical}
use ckos.Scheduler.Floats.{Float}

-- `swap_remove`: the removed element, and the rest with the last element in its place
module _ {A : Type 0} where
  unfoldable pub last : A → List A → A
  last x [] = x
  last x (y ∷ ys) = last y ys

  unfoldable pub init : A → List A → List A
  init x [] = []
  init x (y ∷ ys) = x ∷ init y ys

  unfoldable pub move_last : List A → List A
  move_last [] = []
  move_last (y ∷ ys) = last y ys ∷ init y ys

  unfoldable pub swap_remove : List A → ℕ → Option (A × List A)
  unfolding last init move_last
  swap_remove [] i = none
  swap_remove (x ∷ xs) ℕ.zero = some (x, move_last xs)
  swap_remove (x ∷ xs) (suc i) = elim (swap_remove xs i) [
    | none ↦ none
    | some (a, rest) ↦ some (a, x ∷ rest)
  ]

abbrev pub u64_mod : ℕ
u64_mod = 2 ^ 64

unfoldable pub dependencies_met : List String → Task → Bool
dependencies_met completed task = all (λ d. contains d completed) task.depends_on

module _ (f : Float) where
  open f use {F32, lit, least, of_u64, add, mul, div, gt, is_nan, clamp_unit, max_zero, min_one}

  pub record ScoreFactors : Type 0 where
    pub deadline : F32
    pub importance : F32
    pub cost_efficiency : F32
    pub runtime_fit : F32
    pub energy : F32
    pub confidence : F32

  -- `ScoreFactors::default`
  unfoldable pub default_factors : ScoreFactors
  default_factors = record {
    deadline = lit 0 1;
    importance = lit 5 10;
    cost_efficiency = lit 5 10;
    runtime_fit = lit 5 10;
    energy = lit 5 10;
    confidence = lit 5 10;
  }

  -- the free function `runtime_fit`
  unfoldable pub fit_of_latency : (observed_ns target_ns : ℕ) → F32
  fit_of_latency observed target =
      if observed == 0 then lit 1 1 else min_one (div (of_u64 (max target 1)) (of_u64 observed))

  unfoldable pub with_runtime_fit : ScoreFactors → F32 → ScoreFactors
  with_runtime_fit s fit = record s { runtime_fit = clamp_unit fit }

  unfoldable pub norm : F32 → F32
  norm v = if is_nan v then lit 0 1 else clamp_unit v

  unfoldable pub base_weight : Priority → F32
  base_weight low = lit 0 1
  base_weight normal = lit 25 100
  base_weight high = lit 5 10
  base_weight critical = lit 1 1

  unfoldable pub score : ScoreFactors → Priority → F32
  unfolding norm base_weight
  score s base =
      add
        (add
          (add
            (add
              (add (add (base_weight base) (mul (lit 30 100) (norm s.deadline)))
                (mul (lit 25 100) (norm s.importance)))
              (mul (lit 15 100) (norm s.runtime_fit)))
            (mul (lit 10 100) (norm s.confidence)))
          (mul (lit 10 100) (norm s.cost_efficiency)))
        (mul (lit 10 100) (norm s.energy))

  pub record Pending : Type 0 where
    pub task : Task
    pub factors : ScoreFactors
    pub enqueued_at : ℕ

  -- The completed ids, a `HashSet`, are the list of its elements.
  pub record Scheduler : Type 0 where
    pub pending : List Pending
    pub completed : List String
    pub clock : ℕ
    pub aging_rate : F32

  unfoldable pub new : Scheduler
  new = record { pending = []; completed = []; clock = 0; aging_rate = lit 5 100 }

  unfoldable pub with_aging_rate : Scheduler → F32 → Scheduler
  with_aging_rate q rate = record q { aging_rate = max_zero rate }

  unfoldable pub submit_scored : Scheduler → Task → ScoreFactors → Scheduler
  submit_scored q task factors = record q {
    pending = q.pending ++ (record { task = task; factors = factors; enqueued_at = q.clock }) ∷ [];
  }

  unfoldable pub submit : Scheduler → Task → Scheduler
  unfolding submit_scored default_factors
  submit q task = submit_scored q task default_factors

  unfoldable pub pending_len : Scheduler → ℕ
  pending_len q = length q.pending

  unfoldable pub mark_completed : Scheduler → String → Scheduler
  mark_completed q id = record q {
    completed = if contains id q.completed then q.completed else id ∷ q.completed;
  }

  -- the score of a waiting task, with its age at the given clock
  unfoldable pub effective : F32 → ℕ → Pending → F32
  effective rate clock p =
      add (score p.factors p.task.priority) (mul rate (of_u64 (clock - p.enqueued_at)))

  -- one round of the loop of `dispatch_next`
  unfoldable pub consider : Bool → F32 → ℕ → Option ℕ × F32 → Option ℕ × F32
  consider ready s i (best, best_score) =
      if ready
      then (if gt s best_score then (some i, s) else (best, best_score))
      else (best, best_score)

  unfoldable pub scan :
      (Pending → Bool) → (Pending → F32) → ℕ → List Pending → Option ℕ × F32 → Option ℕ × F32
  unfolding consider
  scan ready eff i [] best = best
  scan ready eff i (p ∷ ps) best = scan ready eff (i + 1) ps (consider (ready p) (eff p) i best)

  unfoldable pub take_best : Option (Pending × List Pending) → Scheduler → Option Task × Scheduler
  take_best none q = (none, q)
  take_best (some (p, rest)) q = (some p.task, record q { pending = rest })

  -- the removal of the best index, where there is one
  unfoldable pub remove_best : Option ℕ → Scheduler → Option Task × Scheduler
  unfolding swap_remove take_best
  remove_best none q = (none, q)
  remove_best (some i) q = take_best (swap_remove q.pending i) q

  unfoldable pub dispatch_next : Scheduler → Option Task × Scheduler
  unfolding dependencies_met effective scan remove_best
  dispatch_next q =
      let clock = (q.clock + 1) % u64_mod in
      let q' = record q { clock = clock } in
      let best =
        scan (λ p. dependencies_met q.completed p.task) (effective q.aging_rate clock) 0 q.pending
          (none, least) in
      remove_best best.0 q'
