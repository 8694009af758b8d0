-- ===== src/Examples/Reflections.antt =====
-- A consensus, and texts that are escaped, at concrete inputs.
use Prim.Native.String.{◌++◌ as append_text}
use ckos.Base.{contains, false, nat_eq, codes, ℕ, String, [], ◌∷◌, some, ◌≡◌, arith}
use ckos.Reflection.{Reflection, Consensus, consensus}
use ckos.Reflection.Agreement.{IsConsensus, consensus-IsConsensus}
use ckos.Memory.Headers.{escape_header, escape_meta_key}
use ckos.Memory.Headers.Reading.{IsReadBack, unescape-escape}
use ckos.Web.{escape}
use ckos.Web.Literals.{read_literal, read_literal-escape}

abbrev says : ℕ → String → Reflection
says score hint = record { task = "t1"; score = score; hint = hint }

-- two weak votes together beat a strong one
consensus-IsConsensus_example :
    (c : Consensus) × (consensus (says 95 "cache" ∷ says 60 "retry" ∷ says 50 "retry" ∷ [])
      ≡ some c)
    × IsConsensus (says 95 "cache" ∷ says 60 "retry" ∷ says 50 "retry" ∷ []) c
consensus-IsConsensus_example =
    consensus-IsConsensus (says 95 "cache") (says 60 "retry" ∷ says 50 "retry" ∷ [])
      (omega arith, (omega arith, (omega arith, tt))) (omega arith)

read_literal-escape_example :
    read_literal (append_text (escape "a \"quoted\" \\ line\n") ",1]")
    ≡ some (codes "a \"quoted\" \\ line\n", ",1]")
read_literal-escape_example = read_literal-escape "a \"quoted\" \\ line\n" ",1]"

unescape-escape_example :
    IsReadBack "a: b\n\n\\c" (escape_header "a: b\n\n\\c")
    × IsReadBack "a: b\n\n\\c" (escape_meta_key "a: b\n\n\\c")
    × (contains 58 (codes (escape_meta_key "a: b\n\n\\c")) ≡ false)
unescape-escape_example = unescape-escape "a: b\n\n\\c"
