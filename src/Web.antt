-- ===== src/Web.antt =====
-- web/src/json.rs: the escaping of texts in the answers of the server.
pub mod Literals
use Prim.Native.Char.{Char, code}
use Prim.Native.String.{[] as nil_text, ◌∷◌ as cons_text}
use ckos.Base.{
  ℕ, ◌/◌, ◌%◌, String, List, [], ◌∷◌, ltb, if◌then◌else◌, get_elem?, get_or, ◌==◌, nat_eq, ◌++◌,
  concat,
}

-- a digit of `{:x}`
unfoldable pub hex_digit : ℕ → String
hex_digit d =
    get_or
      (get_elem?
        ("0" ∷ "1" ∷ "2" ∷ "3" ∷ "4" ∷ "5" ∷ "6" ∷ "7" ∷ "8" ∷ "9" ∷ "a" ∷ "b" ∷ "c" ∷ "d" ∷ "e"
          ∷ "f" ∷ [])
        d)
      ""

-- `{:04x}`, of a number below 2^16
unfoldable pub hex4 : ℕ → String
unfolding hex_digit
hex4 n = concat (
    hex_digit (n / 4096)
    ∷ hex_digit (n / 256 % 16)
    ∷ hex_digit (n / 16 % 16)
    ∷ hex_digit (n % 16)
    ∷ [])

-- the `match` on a character
unfoldable pub escape_char : Char → String
unfolding hex4
escape_char c =
    let n = code c in
    if n == 34
    then "\\\""
    else if n == 92
    then "\\\\"
    else if n == 10
    then "\\n"
    else if n == 13
    then "\\r"
    else if n == 9
    then "\\t"
    else if ltb n 32
    then concat ("\\u" ∷ hex4 n ∷ [])
    else cons_text c nil_text

-- the loop over the characters
unfoldable pub escape_all : String → String
unfolding escape_char
escape_all nil_text = ""
escape_all (cons_text c s) = concat (escape_char c ∷ escape_all s ∷ [])

-- what `escape` appends to `out`
unfoldable pub escape : String → String
unfolding escape_all
escape s = concat ("\"" ∷ escape_all s ∷ "\"" ∷ [])
