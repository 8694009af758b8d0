-- ===== src/Kernel/Doubles.antt =====
-- The `f64` arithmetic that kernel/src/telemetry.rs and its readers use, as an interface: the
-- operations, and the facts of IEEE 754 arithmetic that the theorems rest on.
use ckos.Base.{ℕ, ◌*◌, ◌^◌, ◌≤◌, ◌<◌, ◌≡◌, Bool, true}

pub record Double : Type 1 where
  pub F64 : Type 0
  -- `as f64` of a `u64` or a `usize`, to the nearest number
  pub of_u64 : ℕ → F64
  -- the literal of a whole number
  pub lit : ℕ → F64
  pub mul : F64 → F64 → F64
  pub div : F64 → F64 → F64
  -- `<=`
  pub le : F64 → F64 → Bool
  -- `round() as u64`
  pub round_u64 : F64 → ℕ

module _ (d : Double) where
  open d use {of_u64, div, le}

  pub record DoubleLaws : Type 0 where
    -- whole numbers up to 2 ^ 53 are exact, and so is a quotient that is one of them
    pub div_exact : (a b : ℕ) → 0 < b → a * b ≤ 2 ^ 53 → div (of_u64 (a * b)) (of_u64 b) ≡ of_u64 a
    -- the conversion, and the division by a positive number, keep the order
    pub div_mono :
        (a b c : ℕ)
        → a ≤ b
        → b < 2 ^ 64
        → 0 < c
        → c < 2 ^ 64
        → le (div (of_u64 a) (of_u64 c)) (div (of_u64 b) (of_u64 c)) ≡ true
