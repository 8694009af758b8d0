-- ===== src/Memory/Headers.antt =====
-- memory/src/file_store.rs: the escaping of the header fields of a stored document.
pub mod Reading
use Prim.Native.Char.{Char, code}
use Prim.Native.String.{[] as nil_text, ◌∷◌ as cons_text}
use ckos.Base.{String, List, [], ◌∷◌, if◌then◌else◌, ◌==◌, nat_eq, concat}

-- the `match` of `escape_header` on a character
unfoldable pub escape_header_char : Char → String
escape_header_char c =
    let n = code c in
    if n == 92
    then "\\\\"
    else if n == 10
    then "\\n"
    else if n == 13
    then "\\r"
    else cons_text c nil_text

unfoldable pub escape_header : String → String
unfolding escape_header_char
escape_header nil_text = ""
escape_header (cons_text c s) = concat (escape_header_char c ∷ escape_header s ∷ [])

-- the `match` of `escape_meta_key`
unfoldable pub escape_key_char : Char → String
escape_key_char c =
    let n = code c in
    if n == 92
    then "\\\\"
    else if n == 10
    then "\\n"
    else if n == 13
    then "\\r"
    else if n == 58
    then "\\c"
    else cons_text c nil_text

unfoldable pub escape_meta_key : String → String
unfolding escape_key_char
escape_meta_key nil_text = ""
escape_meta_key (cons_text c s) = concat (escape_key_char c ∷ escape_meta_key s ∷ [])

-- what a backslash and the character after it stand for
unfoldable pub revealed : Char → String
revealed d =
    let n = code d in
    if n == 110
    then "\n"
    else if n == 114
    then "\r"
    else if n == 99
    then ":"
    else if n == 92
    then "\\"
    else cons_text "\\" (cons_text d nil_text)

-- the loop of `unescape_header`
unfoldable pub unescape_header : String → String
unfolding revealed
unescape_header nil_text = ""
unescape_header (cons_text c nil_text) = if code c == 92 then "\\" else cons_text c nil_text
unescape_header (cons_text c (cons_text d s)) =
    let after = concat (revealed d ∷ unescape_header s ∷ []) in
    let next = unescape_header (cons_text d s) in if code c == 92 then after else cons_text c next
