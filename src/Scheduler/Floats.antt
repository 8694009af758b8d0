-- ===== src/Scheduler/Floats.antt =====
-- The `f32` arithmetic that scheduler/src/lib.rs uses, as an interface: the operations, and the
-- facts of IEEE 754 arithmetic that the theorems rest on.
use ckos.Base.{ℕ, ◌<◌, ◌≡◌, Bool, true, false}

pub record Float : Type 1 where
  pub F32 : Type 0
  -- the decimal literal n / d
  pub lit : (n d : ℕ) → F32
  -- `f32::MIN`
  pub least : F32
  -- `as f32` of a `u64`
  pub of_u64 : ℕ → F32
  pub add : F32 → F32 → F32
  pub mul : F32 → F32 → F32
  pub div : F32 → F32 → F32
  -- `>`
  pub gt : F32 → F32 → Bool
  pub is_nan : F32 → Bool
  -- `clamp(0.0, 1.0)`, `max(0.0)` and `min(1.0)`
  pub clamp_unit : F32 → F32
  pub max_zero : F32 → F32
  pub min_one : F32 → F32

module _ (f : Float) where
  open f use {F32, lit, least, of_u64, add, mul, gt, is_nan, clamp_unit, max_zero}

  -- At least zero, and not NaN.
  abbrev pub Nonneg : F32 → Type 0
  Nonneg x = (is_nan x ≡ false) × (gt (lit 0 1) x ≡ false)

  pub record FloatLaws : Type 0 where
    -- no number is greater than itself, and `>` is a weak order; NaN compares with nothing
    pub gt_irrefl : (a : F32) → gt a a ≡ false
    pub gt_cotrans : (a b c : F32) → gt a b ≡ true → gt c b ≡ false → gt c a ≡ false
    -- `clamp` brings every number that is not NaN between 0 and 1
    pub clamp_bounds :
        (x : F32) → is_nan x ≡ false → Nonneg (clamp_unit x) × (gt (clamp_unit x) (lit 1 1) ≡ false)
    -- `NaN.max(0.0)` is 0.0
    pub max_zero_bound : (x : F32) → Nonneg (max_zero x)
    pub lit_bound : (n d : ℕ) → 0 < d → Nonneg (lit n d)
    pub zero_unit : gt (lit 0 1) (lit 1 1) ≡ false
    -- a finite literal times a number between 0 and 1
    pub mul_unit :
        (n d : ℕ) (x : F32) → 0 < d → Nonneg x → gt x (lit 1 1) ≡ false → Nonneg (mul (lit n d) x)
    -- a rate that is not negative, infinity included, times a positive count
    pub mul_count : (r : F32) (n : ℕ) → Nonneg r → 0 < n → Nonneg (mul r (of_u64 n))
    pub add_bound : (a b : F32) → Nonneg a → Nonneg b → Nonneg (add a b)
    pub gt_least : (x : F32) → Nonneg x → gt x least ≡ true
