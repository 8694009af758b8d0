-- ===== src/Examples/Fixed.antt =====
-- A small arithmetic of thousandths with NaN and a least number, as an instance of the interface
-- that stands for `f32` in the model of scheduler/src/lib.rs.
use Prim.Native.Nat.{min}
use ckos.Base.{ℕ, ◌+◌, ◌*◌, ◌/◌, Bool, true, false, ◌≡◌, refl, arith, ltb}
use ckos.Scheduler.Floats.{Float, FloatLaws, Nonneg}

pub data Fixed : Type 0 where
  nan lowest : Fixed
  milli : ℕ → Fixed

abbrev plus : Fixed → Fixed → Fixed
plus (milli a) (milli b) = milli (a + b)
plus (milli a) lowest = lowest
plus lowest (milli b) = lowest
plus lowest lowest = lowest
plus _ _ = nan

abbrev times : Fixed → Fixed → Fixed
times (milli a) (milli b) = milli (a * b / 1000)
times _ _ = nan

abbrev over : Fixed → Fixed → Fixed
over (milli a) (milli b) = milli (a * 1000 / b)
over _ _ = nan

abbrev greater : Fixed → Fixed → Bool
greater (milli a) (milli b) = ltb b a
greater (milli a) lowest = true
greater _ _ = false

abbrev not_a_number : Fixed → Bool
not_a_number nan = true
not_a_number _ = false

abbrev to_unit : Fixed → Fixed
to_unit nan = nan
to_unit lowest = milli 0
to_unit (milli a) = milli (min a 1000)

abbrev above_zero : Fixed → Fixed
above_zero (milli a) = milli a
above_zero _ = milli 0

abbrev below_one : Fixed → Fixed
below_one nan = milli 1000
below_one lowest = lowest
below_one (milli a) = milli (min a 1000)

abbrev pub fixed : Float
fixed = record {
  F32 = Fixed;
  lit = λ n d. milli (n * 1000 / d);
  least = lowest;
  of_u64 = λ n. milli (n * 1000);
  add = plus;
  mul = times;
  div = over;
  gt = greater;
  is_nan = not_a_number;
  clamp_unit = to_unit;
  max_zero = above_zero;
  min_one = below_one;
}

Nonneg-milli : (a : ℕ) → Nonneg fixed (milli a)
Nonneg-milli a = (refl, ground arith)

irrefl : (a : Fixed) → greater a a ≡ false
irrefl a = ground arith

cotrans : (a b c : Fixed) → greater a b ≡ true → greater c b ≡ false → greater c a ≡ false
cotrans (milli a) (milli b) (milli c) h k = ground arith
cotrans (milli a) lowest (milli c) h k = cc
cotrans a b nan h k = refl
cotrans a b lowest h k = refl
cotrans nan b (milli c) h k = refl
cotrans lowest b (milli c) h k = cc
cotrans (milli a) nan (milli c) h k = cc

clamps :
    (x : Fixed)
    → not_a_number x ≡ false
    → Nonneg fixed (to_unit x) × (greater (to_unit x) (milli 1000) ≡ false)
clamps nan h = cc
clamps lowest h = (Nonneg-milli 0, refl)
clamps (milli a) h = (Nonneg-milli _, ground arith)

zeroed : (x : Fixed) → Nonneg fixed (above_zero x)
zeroed nan = Nonneg-milli 0
zeroed lowest = Nonneg-milli 0
zeroed (milli a) = Nonneg-milli a

times-Nonneg : (x y : Fixed) → Nonneg fixed x → Nonneg fixed y → Nonneg fixed (times x y)
times-Nonneg (milli a) (milli b) h k = Nonneg-milli _
times-Nonneg nan y h k = cc h.0
times-Nonneg lowest y h k = cc h.1
times-Nonneg (milli a) nan h k = cc k.0
times-Nonneg (milli a) lowest h k = cc k.1

plus-Nonneg : (x y : Fixed) → Nonneg fixed x → Nonneg fixed y → Nonneg fixed (plus x y)
plus-Nonneg (milli a) (milli b) h k = Nonneg-milli _
plus-Nonneg nan y h k = cc h.0
plus-Nonneg lowest y h k = cc h.1
plus-Nonneg (milli a) nan h k = cc k.0
plus-Nonneg (milli a) lowest h k = cc k.1

over_lowest : (x : Fixed) → Nonneg fixed x → greater x lowest ≡ true
over_lowest (milli a) h = refl
over_lowest nan h = cc h.0
over_lowest lowest h = cc h.1

pub fixed_laws : FloatLaws fixed
fixed_laws = record {
  gt_irrefl = irrefl;
  gt_cotrans = cotrans;
  clamp_bounds = clamps;
  max_zero_bound = zeroed;
  lit_bound = λ n d h. Nonneg-milli (n * 1000 / d);
  zero_unit = refl;
  mul_unit = λ n d x h k l. times-Nonneg (milli (n * 1000 / d)) x (Nonneg-milli (n * 1000 / d)) k;
  mul_count = λ r n h k. times-Nonneg r (milli (n * 1000)) h (Nonneg-milli (n * 1000));
  add_bound = plus-Nonneg;
  gt_least = over_lowest;
}
