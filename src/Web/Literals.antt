-- ===== src/Web/Literals.antt =====
-- Reading the literals that web/src/json.rs writes, as RFC 8259 section 7 says.
use Prim.Native.Char.{Char, code}
use Prim.Native.String.append
use Prim.Native.String.{[] as nil_text, ◌∷◌ as cons_text, ◌++◌ as append_text}
use ckos.Base.{
  codes, append-one, concat-cons_append, concat-nil_append, ◌∙◌, ℕ, zero, suc, ◌+◌, ◌-◌, ◌*◌, ◌/◌,
  ◌%◌, ◌<◌, String, List, [], ◌∷◌, false, ◌&&◌, Option, none, some, ltb, leb, if◌then◌else◌, ◌==◌,
  nat_eq, concat, ◌≡◌, refl, arith, Bool-cases, inl, inr,
}
use ckos.Web.{hex_digit, hex4, escape_char, escape_all, escape}

-- Between characters, after a backslash, or with some of the digits of `\u` still to come.
pub data Mode : Type 0 where
  plain escaped : Mode
  hex : (left : ℕ) (value : ℕ) → Mode

abbrev hex_value : ℕ → Option ℕ
hex_value n =
    if leb 48 n && leb n 57
    then some (n - 48)
    else if leb 97 n && leb n 102
    then some (n - 87)
    else none

abbrev prepend : ℕ → Option (List ℕ × String) → Option (List ℕ × String)
prepend n none = none
prepend n (some (ns, rest)) = some (n ∷ ns, rest)

-- What stands for a character after a backslash.
abbrev short_escape : ℕ → Option ℕ
short_escape n =
    if n == 34
    then some 34
    else if n == 92
    then some 92
    else if n == 47
    then some 47
    else if n == 98
    then some 8
    else if n == 102
    then some 12
    else if n == 110
    then some 10
    else if n == 114
    then some 13
    else if n == 116
    then some 9
    else none

-- The rest of a literal after its opening quote: its code points and what follows the closing quote.
-- A control character may not stand in it.
pub read_rest : Mode → String → Option (List ℕ × String)
read_rest mode nil_text = none
read_rest plain (cons_text c s) =
    if code c == 34
    then some ([], s)
    else if code c == 92
    then read_rest escaped s
    else if ltb (code c) 32
    then none
    else prepend (code c) (read_rest plain s)
read_rest escaped (cons_text c s) =
    if code c == 117
    then read_rest (hex 3 0) s
    else elim (short_escape (code c)) [ none ↦ none | some n ↦ prepend n (read_rest plain s) ]
read_rest (hex zero value) (cons_text c s) = elim (hex_value (code c)) [
  | none ↦ none
  | some d ↦ prepend (value * 16 + d) (read_rest plain s)
]
read_rest (hex (suc left) value) (cons_text c s) = elim (hex_value (code c)) [
  | none ↦ none
  | some d ↦ read_rest (hex left (value * 16 + d)) s
]

abbrev pub read_literal : String → Option (List ℕ × String)
read_literal nil_text = none
read_literal (cons_text c s) = if code c == 34 then read_rest plain s else none

-- A digit that is written is one character, which is read as the digit.
digit :
    (d : ℕ)
    → d < 16
    → (c : Char) × (hex_digit d ≡ cons_text c nil_text) × (hex_value (code c) ≡ some d)
unfolding hex_digit
digit zero h = ("0", refl, refl)
digit (suc zero) h = ("1", refl, refl)
digit (suc (suc zero)) h = ("2", refl, refl)
digit (suc (suc (suc zero))) h = ("3", refl, refl)
digit (suc (suc (suc (suc zero)))) h = ("4", refl, refl)
digit (suc (suc (suc (suc (suc zero))))) h = ("5", refl, refl)
digit (suc (suc (suc (suc (suc (suc zero)))))) h = ("6", refl, refl)
digit (suc (suc (suc (suc (suc (suc (suc zero))))))) h = ("7", refl, refl)
digit (suc (suc (suc (suc (suc (suc (suc (suc zero)))))))) h = ("8", refl, refl)
digit (suc (suc (suc (suc (suc (suc (suc (suc (suc zero))))))))) h = ("9", refl, refl)
digit (suc (suc (suc (suc (suc (suc (suc (suc (suc (suc zero)))))))))) h = ("a", refl, refl)
digit (suc (suc (suc (suc (suc (suc (suc (suc (suc (suc (suc zero))))))))))) h = ("b", refl, refl)
digit (suc (suc (suc (suc (suc (suc (suc (suc (suc (suc (suc (suc zero)))))))))))) h =
    ("c", refl, refl)
digit (suc (suc (suc (suc (suc (suc (suc (suc (suc (suc (suc (suc (suc zero))))))))))))) h =
    ("d", refl, refl)
digit (suc (suc (suc (suc (suc (suc (suc (suc (suc (suc (suc (suc (suc (suc zero)))))))))))))) h =
    ("e", refl, refl)
digit (suc (suc (suc (suc (suc (suc (suc (suc (suc (suc (suc (suc (suc (suc (suc zero)))))))))))))))
      h =
    ("f", refl, refl)
digit
      (suc
        (suc (suc (suc (suc (suc (suc (suc (suc (suc (suc (suc (suc (suc (suc (suc d))))))))))))))))
      h =
    absurd (omega arith)

read_rest-last :
    (value d : ℕ) (s : String)
    → d < 16
    → read_rest (hex zero value) (append_text (hex_digit d) s)
      ≡ prepend (value * 16 + d) (read_rest plain s)
unfolding read_rest
read_rest-last value d s h =
    let (c, one, means) = digit d h in rw (one, append-one c s, read_rest, means) refl

read_rest-digit :
    (left value d : ℕ) (s : String)
    → d < 16
    → read_rest (hex (suc left) value) (append_text (hex_digit d) s)
      ≡ read_rest (hex left (value * 16 + d)) s
unfolding read_rest
read_rest-digit left value d s h =
    let (c, one, means) = digit d h in rw (one, append-one c s, read_rest, means) refl

read_rest-hex4 :
    (n : ℕ) (s : String)
    → n < 65536
    → read_rest (hex 3 0) (append_text (hex4 n) s) ≡ prepend n (read_rest plain s)
unfolding hex4
read_rest-hex4 n s h =
    let whole : (((0 * 16 + n / 4096) * 16 + n / 256 % 16) * 16 + n / 16 % 16) * 16 + n % 16 ≡ n =
      omega (arith, h) in
    rw
      (
        concat-cons_append (hex_digit (n / 4096))
            (hex_digit (n / 256 % 16) ∷ hex_digit (n / 16 % 16) ∷ hex_digit (n % 16) ∷ []) s,
        concat-cons_append (hex_digit (n / 256 % 16))
            (hex_digit (n / 16 % 16) ∷ hex_digit (n % 16) ∷ []) s,
        concat-cons_append (hex_digit (n / 16 % 16)) (hex_digit (n % 16) ∷ []) s,
        concat-cons_append (hex_digit (n % 16)) [] s,
        concat-nil_append s,
      )
      (read_rest-digit 2 0 (n / 4096) _ (omega (arith, h))
        ∙ read_rest-digit 1 _ (n / 256 % 16) _ (omega arith)
        ∙ read_rest-digit 0 _ (n / 16 % 16) _ (omega arith)
        ∙ read_rest-last _ (n % 16) s (omega arith)
        ∙ rw whole refl)

-- A backslash and one character that stands for `n`.
read_rest-short :
    (d : Char) (n : ℕ) (t : String)
    → (code d == 117) ≡ false
    → short_escape (code d) ≡ some n
    → read_rest plain (append_text (cons_text "\\" (cons_text d nil_text)) t)
      ≡ prepend n (read_rest plain t)
unfolding read_rest
read_rest-short d n t other means =
    rw (append.cons "\\" (cons_text d nil_text) t, append-one d t, read_rest, other, means) refl

-- `\u` and four digits.
read_rest-control :
    (n : ℕ) (t : String)
    → n < 32
    → read_rest plain (append_text (concat ("\\u" ∷ hex4 n ∷ [])) t) ≡ prepend n (read_rest plain t)
unfolding read_rest
read_rest-control n t h =
    rw
      (
        concat-cons_append "\\u" (hex4 n ∷ []) t,
        concat-cons_append (hex4 n) [] t,
        concat-nil_append t,
        append.cons "\\" "u" (append_text (hex4 n) t),
        append-one "u" (append_text (hex4 n) t),
      )
      (read_rest-hex4 n t (omega (arith, h)))

read_rest-escape_char :
    (c : Char) (t : String)
    → read_rest plain (append_text (escape_char c) t) ≡ prepend (code c) (read_rest plain t)
unfolding escape_char read_rest
read_rest-escape_char c t = elim (Bool-cases (code c == 34)) [
  | inl quote ↦
      let e : code c ≡ 34 = ground (arith, quote) in
      rw (escape_char, e) (read_rest-short "\"" 34 t refl refl)
  | inr a ↦ elim (Bool-cases (code c == 92)) [
    | inl backslash ↦
        let e : code c ≡ 92 = ground (arith, backslash) in
        rw (escape_char, e) (read_rest-short "\\" 92 t refl refl)
    | inr b ↦ elim (Bool-cases (code c == 10)) [
      | inl newline ↦
          let e : code c ≡ 10 = ground (arith, newline) in
          rw (escape_char, e) (read_rest-short "n" 10 t refl refl)
      | inr d ↦ elim (Bool-cases (code c == 13)) [
        | inl return ↦
            let e : code c ≡ 13 = ground (arith, return) in
            rw (escape_char, e) (read_rest-short "r" 13 t refl refl)
        | inr f ↦ elim (Bool-cases (code c == 9)) [
          | inl tab ↦
              let e : code c ≡ 9 = ground (arith, tab) in
              rw (escape_char, e) (read_rest-short "t" 9 t refl refl)
          | inr g ↦ elim (Bool-cases (ltb (code c) 32)) [
            | inl control ↦
                rw (escape_char, a, b, d, f, g, control)
                  (read_rest-control (code c) t (ground (arith, control)))
            | inr other ↦
                rw (escape_char, a, b, d, f, g, other)
                  (rw (append-one c t, read_rest, a, b, other) refl)
          ]
        ]
      ]
    ]
  ]
]

read_rest-escape_all :
    (s rest : String)
    → read_rest plain (append_text (escape_all s) (cons_text "\"" rest)) ≡ some (codes s, rest)
unfolding escape_all read_rest
read_rest-escape_all nil_text rest = rw (append.nil (cons_text "\"" rest)) refl
read_rest-escape_all (cons_text c s) rest =
    rw
      (
        concat-cons_append (escape_char c) (escape_all s ∷ []) (cons_text "\"" rest),
        concat-cons_append (escape_all s) [] (cons_text "\"" rest),
        concat-nil_append (cons_text "\"" rest),
        read_rest-escape_char c (append_text (escape_all s) (cons_text "\"" rest)),
        read_rest-escape_all s rest,
      )
      refl

-- The literal that escape writes, read by the rules of RFC 8259 and whatever follows it, gives the
-- code points of the text, and leaves what follows; so no text ends its literal early.
pub read_literal-escape :
    (s rest : String) → read_literal (append_text (escape s) rest) ≡ some (codes s, rest)
unfolding escape
read_literal-escape s rest =
    rw
      (
        concat-cons_append "\"" (escape_all s ∷ "\"" ∷ []) rest,
        concat-cons_append (escape_all s) ("\"" ∷ []) rest,
        concat-cons_append "\"" [] rest,
        concat-nil_append rest,
        append-one "\"" rest,
        append-one "\"" (append_text (escape_all s) (cons_text "\"" rest)),
      )
      (read_rest-escape_all s rest)
