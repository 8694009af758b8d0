-- ===== src/Base/Text.antt =====
-- The methods of `str` that the program calls, over the native texts, and `format!` as `concat`.
use Prim.Native.Char.{Char, code}
use Prim.Native.String.append
use Prim.Native.String.{String, [], ◌∷◌, ◌++◌, slice}
use mathlib.Core.Path.{◌≡◌, refl, ap}
use mathlib.Core.Logic.{inl, inr}
use mathlib.Core.Option.{Option, none, some}
use mathlib.Core.List.{List}
use mathlib.Core.Option
use mathlib.Core.Bool.{Bool, ◌||◌, ◌&&◌}
use text.Mathlib.Text.{find?}
use native.Mathlib.Omega.{arith}
use text.Mathlib.TextEquality.{Char-path}
use text.Mathlib.TextLemmas.{append_assoc}
use Prim.Native.Nat.{ℕ, ◌-◌}
use ckos.Base.Tests.{
  if◌then◌else◌, ◌==◌, string_eq, nat_eq, leb, is_some, nat_beq, nat_beq_iff, Option-cases,
}

-- `format!` of texts
unfoldable pub concat : List String → String
concat List.[] = []
concat (List.◌∷◌ s ss) = s ++ concat ss

-- `strip_suffix(c)` for a single character
unfoldable pub strip_suffix : Char → String → Option String
strip_suffix c [] = none
strip_suffix c (d ∷ []) = if nat_beq (code d) (code c) then some [] else none
strip_suffix c (d ∷ (e ∷ s)) = Option.map (λ rest. d ∷ rest) (strip_suffix c (e ∷ s))

pub strip_suffix_sound : (c : Char) (s p : String) → strip_suffix c s ≡ some p → s ≡ p ++ (c ∷ [])
unfolding strip_suffix
strip_suffix_sound c [] p h = cc
strip_suffix_sound c (d ∷ []) p h =
    ground (arith, nat_beq_iff (code d) (code c), Char-path d c, append.nil (c ∷ []))
strip_suffix_sound c (d ∷ (e ∷ s)) p h = elim (Option-cases (strip_suffix c (e ∷ s))) [
  | inl miss ↦ cc
  | inr (q, hit) ↦ ground (arith, strip_suffix_sound c (e ∷ s) q hit, append.cons d q (c ∷ []))
]

pub strip_suffix-append : (c : Char) (p : String) → strip_suffix c (p ++ (c ∷ [])) ≡ some p
unfolding strip_suffix
strip_suffix-append c [] = ground (arith, append.nil (c ∷ []), nat_beq_iff (code c) (code c))
strip_suffix-append c (d ∷ []) =
    rw (append.cons d [] (c ∷ []), append.nil (c ∷ []))
      (ap (Option.map (λ rest. d ∷ rest)) (rw (append.nil (c ∷ [])) at (strip_suffix-append c [])))
strip_suffix-append c (d ∷ (e ∷ s)) =
    rw (append.cons d (e ∷ s) (c ∷ []), append.cons e s (c ∷ []))
      (ap (Option.map (λ rest. d ∷ rest))
        (rw (append.cons e s (c ∷ [])) at (strip_suffix-append c (e ∷ s))))

-- `contains` of a text
unfoldable pub includes : String → String → Bool
includes s t = is_some (find? s t)

-- `char::is_whitespace`: the characters with the property White_Space
unfoldable pub is_whitespace : Char → Bool
is_whitespace c =
    let n = code c in
    (leb 9 n && leb n 13)
    || n == 32
    || n == 133
    || n == 160
    || n == 5760
    || (leb 8192 n && leb n 8202)
    || n == 8232
    || n == 8233
    || n == 8239
    || n == 8287
    || n == 12288

-- `trim_end`
unfoldable pub trim_end : String → String
unfolding is_whitespace
trim_end [] = []
trim_end (c ∷ s) = let rest = trim_end s in if (rest == "") && is_whitespace c then [] else c ∷ rest

-- `trim_start`
unfoldable pub trim_start : String → String
unfolding is_whitespace
trim_start [] = []
trim_start (c ∷ s) = let rest = trim_start s in if is_whitespace c then rest else c ∷ s

-- `to_ascii_lowercase`
unfoldable pub to_ascii_lowercase : String → String
to_ascii_lowercase [] = []
to_ascii_lowercase (c ∷ s) =
    let n = code c in
    let rest = to_ascii_lowercase s in
    if leb 65 n && leb n 90
    then concat
        (List.◌∷◌ (slice "abcdefghijklmnopqrstuvwxyz" (n - 65) (n - 64)) (List.◌∷◌ rest List.[]))
    else c ∷ rest

-- `trim().to_ascii_lowercase()`
unfoldable pub normalised : String → String
unfolding trim_start trim_end to_ascii_lowercase
normalised s = to_ascii_lowercase (trim_end (trim_start s))

-- The code points of a text.
abbrev pub codes : String → List ℕ
codes [] = List.[]
codes (c ∷ s) = List.◌∷◌ (code c) (codes s)

pub append-one : (c : Char) (s : String) → (c ∷ []) ++ s ≡ c ∷ s
append-one c s = rw (append.cons c [] s, append.nil s) refl

pub concat-cons_append :
    (a : String) (rest : List String) (t : String)
    → concat (List.◌∷◌ a rest) ++ t ≡ a ++ (concat rest ++ t)
unfolding concat
concat-cons_append a rest t = append_assoc a (concat rest) t

pub concat-nil_append : (t : String) → concat List.[] ++ t ≡ t
unfolding concat
concat-nil_append t = append.nil t
