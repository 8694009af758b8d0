-- ===== src/Memory/Headers/Reading.antt =====
-- Reading what the escaping of memory/src/file_store.rs wrote.
use Prim.Native.Char.{Char, code}
use Prim.Native.String.append
use Prim.Native.String.{[] as nil_text, ◌∷◌ as cons_text, ◌++◌ as append_text}
use text.Mathlib.TextEquality.{Char-path}
use text.Mathlib.TextLemmas.{append-nil}
use ckos.Base.{
  ℕ, String, List, [], ◌∷◌, ◌++◌, false, ◌||◌, if◌then◌else◌, ◌==◌, nat_eq, concat, codes, contains,
  append-one, ◌≡◌, refl, arith, Bool-cases, inl, inr,
}
use ckos.Memory.Headers.{
  escape_header_char, escape_header, escape_key_char, escape_meta_key, revealed, unescape_header,
}

-- A character that is no backslash stands for itself.
unescape-plain :
    (c : Char) (t : String)
    → (code c == 92) ≡ false
    → unescape_header (append_text (cons_text c nil_text) t) ≡ cons_text c (unescape_header t)
unfolding unescape_header
unescape-plain c nil_text h = rw (append-one c nil_text, unescape_header, h) refl
unescape-plain c (cons_text d t) h = rw (append-one c (cons_text d t), unescape_header, h) refl

-- A backslash and a character.
unescape-pair :
    (c d : Char) (t : String)
    → revealed d ≡ cons_text c nil_text
    → unescape_header (append_text (cons_text "\\" (cons_text d nil_text)) t)
      ≡ cons_text c (unescape_header t)
unfolding unescape_header concat
unescape-pair c d t means =
    rw
      (
        append.cons "\\" (cons_text d nil_text) t,
        append-one d t,
        unescape_header,
        concat,
        means,
        append-one c (append_text (unescape_header t) ""),
        append-nil (unescape_header t),
      )
      refl

unescape-escape_header_char :
    (c : Char) (t : String)
    → unescape_header (append_text (escape_header_char c) t) ≡ cons_text c (unescape_header t)
unfolding escape_header_char revealed
unescape-escape_header_char c t = elim (Bool-cases (code c == 92)) [
  | inl backslash ↦
      let e : c ≡ "\\" = Char-path c "\\" (ground (arith, backslash)) in
      rw e (unescape-pair "\\" "\\" t refl)
  | inr a ↦ elim (Bool-cases (code c == 10)) [
    | inl newline ↦
        let e : c ≡ "\n" = Char-path c "\n" (ground (arith, newline)) in
        rw e (unescape-pair "\n" "n" t refl)
    | inr b ↦ elim (Bool-cases (code c == 13)) [
      | inl return ↦
          let e : c ≡ "\r" = Char-path c "\r" (ground (arith, return)) in
          rw e (unescape-pair "\r" "r" t refl)
      | inr d ↦ rw (escape_header_char, a, b, d) (unescape-plain c t a)
    ]
  ]
]

unescape-escape_key_char :
    (c : Char) (t : String)
    → unescape_header (append_text (escape_key_char c) t) ≡ cons_text c (unescape_header t)
unfolding escape_key_char revealed escape_header_char
unescape-escape_key_char c t = elim (Bool-cases (code c == 58)) [
  | inl colon ↦
      let e : c ≡ ":" = Char-path c ":" (ground (arith, colon)) in
      rw e (unescape-pair ":" "c" t refl)
  | inr other ↦
      let same : escape_key_char c ≡ escape_header_char c =
        rw (escape_key_char, escape_header_char, other) refl in
      rw same (unescape-escape_header_char c t)
]

codes-append : (s t : String) → codes (append_text s t) ≡ codes s ++ codes t
codes-append nil_text t = rw (append.nil t) refl
codes-append (cons_text c s) t = rw (append.cons c s t, codes-append s t) refl

contains-append : (n : ℕ) (xs ys : List ℕ) → contains n (xs ++ ys) ≡ contains n xs || contains n ys
contains-append n [] ys = refl
contains-append n (x ∷ xs) ys = ground (arith, contains-append n xs ys)

contains-concat :
    (n : ℕ) (a b : String)
    → contains n (codes (concat (a ∷ b ∷ []))) ≡ contains n (codes a) || contains n (codes b)
unfolding concat
contains-concat n a b = rw (append-nil b, codes-append a b) (contains-append n (codes a) (codes b))

-- The code points that may not stand in a line: a line feed and a carriage return.
abbrev pub IsOneLine : String → Type 0
IsOneLine s = (contains 10 (codes s) ≡ false) × (contains 13 (codes s) ≡ false)

escape_header_char-IsOneLine : (c : Char) → IsOneLine (escape_header_char c)
unfolding escape_header_char
escape_header_char-IsOneLine c = elim (Bool-cases (code c == 92)) [
  | inl backslash ↦ rw (escape_header_char, backslash) (refl, refl)
  | inr a ↦ elim (Bool-cases (code c == 10)) [
    | inl newline ↦ rw (escape_header_char, a, newline) (refl, refl)
    | inr b ↦ elim (Bool-cases (code c == 13)) [
      | inl return ↦ rw (escape_header_char, a, b, return) (refl, refl)
      | inr d ↦ rw (escape_header_char, a, b, d) (ground (arith, b), ground (arith, d))
    ]
  ]
]

-- The key's own characters are escaped as a header's, but for the colon.
escape_key_char-lem :
    (c : Char) → escape_key_char c ≡ (if code c == 58 then "\\c" else escape_header_char c)
unfolding escape_key_char escape_header_char
escape_key_char-lem c = elim (Bool-cases (code c == 58)) [
  | inl colon ↦ let e : code c ≡ 58 = ground (arith, colon) in rw (escape_key_char, e) refl
  | inr other ↦ rw (escape_key_char, escape_header_char, other) refl
]

escape_header_char-colon :
    (c : Char) → (code c == 58) ≡ false → contains 58 (codes (escape_header_char c)) ≡ false
unfolding escape_header_char
escape_header_char-colon c other = elim (Bool-cases (code c == 92)) [
  | inl backslash ↦ rw (escape_header_char, backslash) refl
  | inr a ↦ elim (Bool-cases (code c == 10)) [
    | inl newline ↦ rw (escape_header_char, a, newline) refl
    | inr b ↦ elim (Bool-cases (code c == 13)) [
      | inl return ↦ rw (escape_header_char, a, b, return) refl
      | inr d ↦ rw (escape_header_char, a, b, d) (ground (arith, other))
    ]
  ]
]

escape_key_char-IsOneLine :
    (c : Char) → IsOneLine (escape_key_char c) × (contains 58 (codes (escape_key_char c)) ≡ false)
escape_key_char-IsOneLine c = elim (Bool-cases (code c == 58)) [
  | inl colon ↦ rw (escape_key_char-lem c, colon) ((refl, refl), refl)
  | inr other ↦
      rw (escape_key_char-lem c, other)
        (escape_header_char-IsOneLine c, escape_header_char-colon c other)
]

-- What an escaped text is: it is read back, and stands on one line.
pub record IsReadBack (s written : String) : Type 0 where
  pub read : unescape_header written ≡ s
  pub line : IsOneLine written

concat-IsOneLine : (a b : String) → IsOneLine a → IsOneLine b → IsOneLine (concat (a ∷ b ∷ []))
concat-IsOneLine a b h k =
    (rw (contains-concat 10 a b, h.0, k.0) refl, rw (contains-concat 13 a b, h.1, k.1) refl)

escape_header-IsReadBack : (s : String) → IsReadBack s (escape_header s)
unfolding escape_header unescape_header concat
escape_header-IsReadBack nil_text = record { read = refl; line = (refl, refl) }
escape_header-IsReadBack (cons_text c s) =
    let rest = escape_header-IsReadBack s in
    record {
      read =
          rw
            (
              append-nil (escape_header s),
              unescape-escape_header_char c (escape_header s),
              rest.read,
            )
            refl;
      line =
          concat-IsOneLine (escape_header_char c) (escape_header s) (escape_header_char-IsOneLine c)
            rest.line;
    }

escape_meta_key-IsReadBack :
    (s : String)
    → IsReadBack s (escape_meta_key s) × (contains 58 (codes (escape_meta_key s)) ≡ false)
unfolding escape_meta_key unescape_header concat
escape_meta_key-IsReadBack nil_text = (record { read = refl; line = (refl, refl) }, refl)
escape_meta_key-IsReadBack (cons_text c s) =
    let (rest, colon) = escape_meta_key-IsReadBack s in
    let own = escape_key_char-IsOneLine c in
    (
      record {
        read =
            rw
              (
                append-nil (escape_meta_key s),
                unescape-escape_key_char c (escape_meta_key s),
                rest.read,
              )
              refl;
        line = concat-IsOneLine (escape_key_char c) (escape_meta_key s) own.0 rest.line;
      },
      (let whole = contains-concat 58 (escape_key_char c) (escape_meta_key s) in
          ground (arith, whole, own.1, colon)),
    )

-- Any text that is escaped as the value of a header is read back as it was, and stands on one line;
-- so is any text that is escaped as a metadata key, and no colon stands in it.
pub unescape-escape :
    (s : String)
    → IsReadBack s (escape_header s)
      × IsReadBack s (escape_meta_key s)
      × (contains 58 (codes (escape_meta_key s)) ≡ false)
unescape-escape s =
    let (key, colon) = escape_meta_key-IsReadBack s in (escape_header-IsReadBack s, key, colon)
