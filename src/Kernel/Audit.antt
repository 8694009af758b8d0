-- ===== src/Kernel/Audit.antt =====
-- kernel/src/audit.rs: audit records and the bounded in-memory log. The wall clock is an argument.
pub mod Retention
use Prim.Native.Nat.{bit_xor}
use Prim.Native.Char.{Char, code, len_utf8}
use Prim.Native.String
use ckos.Base.{
  ℕ, ◌+◌, ◌-◌, ◌*◌, ◌/◌, ◌%◌, ◌^◌, String, List, [], ◌∷◌, ◌++◌, Bool, Option, none, some, is_some,
  ltb, ◌≡◌, refl, if◌then◌else◌, length, keep, push_bounded,
}
use Prim.Native.Nat.{max}

abbrev pub default_max_records : ℕ
default_max_records = 10000

-- The UTF-8 bytes of a character and of a text.
abbrev char_bytes : ℕ → ℕ → List ℕ
char_bytes width c =
    if ltb width 2
    then c ∷ []
    else if ltb width 3
    then (192 + c / 64) ∷ (128 + c % 64) ∷ []
    else if ltb width 4
    then (224 + c / 4096) ∷ (128 + c / 64 % 64) ∷ (128 + c % 64) ∷ []
    else (240 + c / 262144) ∷ (128 + c / 4096 % 64) ∷ (128 + c / 64 % 64) ∷ (128 + c % 64) ∷ []

unfoldable pub bytes : String → List ℕ
bytes String.[] = []
bytes (String.◌∷◌ c s) = char_bytes (len_utf8 c) (code c) ++ bytes s

-- FNV-1a over `u64`
unfoldable pub hash_bytes : ℕ → List ℕ → ℕ
hash_bytes h [] = h
hash_bytes h (b ∷ bs) = hash_bytes (bit_xor h b * 0x00000100000001b3 % 2 ^ 64) bs

unfoldable pub content_hash : String → ℕ
unfolding bytes hash_bytes
content_hash input = hash_bytes 0xcbf29ce484222325 (bytes input)

pub record AuditRecord : Type 0 where
  pub timestamp_ms : ℕ
  pub action : String
  pub runtime : Option String
  pub tool : Option String
  pub plugin : Option String
  pub input_hash : ℕ
  pub output_hash : ℕ
  pub error : Option String

-- `AuditRecord::new` at the time `now`
unfoldable pub new : ℕ → String → AuditRecord
new now action = record {
  timestamp_ms = now;
  action = action;
  runtime = none;
  tool = none;
  plugin = none;
  input_hash = 0;
  output_hash = 0;
  error = none;
}

unfoldable pub with_runtime : AuditRecord → String → AuditRecord
with_runtime r name = record r { runtime = some name }

unfoldable pub with_tool : AuditRecord → String → AuditRecord
with_tool r name = record r { tool = some name }

unfoldable pub with_plugin : AuditRecord → String → AuditRecord
with_plugin r name = record r { plugin = some name }

unfoldable pub with_input : AuditRecord → String → AuditRecord
with_input r input = record r { input_hash = content_hash input }

unfoldable pub with_output : AuditRecord → String → AuditRecord
with_output r output = record r { output_hash = content_hash output }

unfoldable pub with_error : AuditRecord → String → AuditRecord
with_error r msg = record r { error = some msg }

unfoldable pub is_error : AuditRecord → Bool
is_error r = is_some r.error

pub record AuditLog : Type 0 where
  pub records : List AuditRecord
  pub max_records : ℕ

unfoldable pub empty : AuditLog
empty = record { records = []; max_records = default_max_records }

unfoldable pub with_max_records : AuditLog → ℕ → AuditLog
with_max_records log max_ = record log { max_records = max max_ 1 }

unfoldable pub len : AuditLog → ℕ
len log = length log.records

unfoldable pub error_count : AuditLog → ℕ
error_count log = length (keep is_error log.records)

-- `AuditSink::record`: append, then drop the oldest above the cap
unfoldable pub record_entry : AuditLog → AuditRecord → AuditLog
record_entry log r = record log { records = push_bounded log.max_records log.records r }
