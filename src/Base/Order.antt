-- ===== src/Base/Order.antt =====
-- The order of texts, `Ord for str`: lexicographic in the code points.
use Prim.Native.Char.{Char, code}
use Prim.Native.String.compare
use Prim.Native.String.{String, [], ◌∷◌, compare}
use mathlib.Core.Path.{◌≡◌, refl}
use mathlib.Core.Bool.{Bool, true, false, ◌&&◌, ◌||◌}
use native.Mathlib.Omega.{arith}
use text.Mathlib.Text.{is_lt}
use text.Mathlib.TextEquality.{Char-path}
use ckos.Base.Tests.{ltb, ◌==◌, string_eq, nat_eq}

unfoldable pub text_ltb : String → String → Bool
text_ltb s t = is_lt (compare s t)

text_ltb-cons :
    (c d : Char) (s t : String)
    → text_ltb (c ∷ s) (d ∷ t) ≡ (ltb (code c) (code d) || ((code c == code d) && text_ltb s t))
unfolding text_ltb
text_ltb-cons c d s t = rw (compare.cons-cons c d s t) (ground arith)

pub text_ltb_irrefl : (s : String) → text_ltb s s ≡ false
unfolding text_ltb
text_ltb_irrefl [] = refl
text_ltb_irrefl (c ∷ s) = ground (arith, text_ltb-cons c c s s, text_ltb_irrefl s)

text_ltb-nil : (s : String) → text_ltb s [] ≡ false
unfolding text_ltb
text_ltb-nil [] = refl
text_ltb-nil (c ∷ s) = rw (compare.cons-nil c s) refl

nil-text_ltb : (d : Char) (t : String) → text_ltb [] (d ∷ t) ≡ true
unfolding text_ltb
nil-text_ltb d t = rw (compare.nil-cons d t) refl

pub text_ltb_trans :
    (s t u : String) → text_ltb s t ≡ true → text_ltb t u ≡ true → text_ltb s u ≡ true
text_ltb_trans s [] u h k = ground (arith, text_ltb-nil s, h)
text_ltb_trans s (d ∷ t) [] h k = ground (arith, text_ltb-nil (d ∷ t), k)
text_ltb_trans [] (d ∷ t) (e ∷ u) h k = nil-text_ltb e u
text_ltb_trans (c ∷ s) (d ∷ t) (e ∷ u) h k = ground (
  arith,
  text_ltb-cons c d s t,
  text_ltb-cons d e t u,
  text_ltb-cons c e s u,
  text_ltb_trans s t u,
)

-- Two texts neither of which is less are equal.
pub text_ltb_connected : (s t : String) → text_ltb s t ≡ false → text_ltb t s ≡ false → s ≡ t
text_ltb_connected [] [] h k = refl
text_ltb_connected [] (d ∷ t) h k = ground (arith, nil-text_ltb d t, h)
text_ltb_connected (c ∷ s) [] h k = ground (arith, nil-text_ltb c s, k)
text_ltb_connected (c ∷ s) (d ∷ t) h k =
    let ht = text_ltb-cons c d s t in
    let kt = text_ltb-cons d c t s in
    let heads : c ≡ d = Char-path c d (ground arith) in
    let tails : s ≡ t = text_ltb_connected s t (ground arith) (ground arith) in
    λ i. heads i ∷ tails i
