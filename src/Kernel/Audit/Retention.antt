-- ===== src/Kernel/Audit/Retention.antt =====
-- The bounded log of kernel/src/audit.rs holds the most recent records.
use mathlib.Core.List.{foldl}
use Prim.Native.Nat.{max}
use ckos.Base.{
  ℕ, ◌-◌, ◌≤◌, ◌≡◌, refl, ◌∙◌, ap, List, [], ◌∷◌, arith, length, keep_last, push_bounded,
  foldl-push_bounded, length-drop,
}
use ckos.Kernel.Audit.{AuditRecord, AuditLog, record_entry, empty, with_max_records, len}

-- Every record of a list, in order, on top of what the log began with.
abbrev pub record_all : AuditLog → List AuditRecord → AuditLog
record_all = foldl record_entry

records-record_all :
    (log : AuditLog) (rs : List AuditRecord)
    → (record_all log rs).records ≡ foldl (push_bounded log.max_records) log.records rs
unfolding record_entry
records-record_all log [] = refl
records-record_all log (r ∷ rs) = records-record_all (record_entry log r) rs

-- A log capped at `most` (at least 1) holds, after any records, exactly the last `max most 1` of
-- them in order, and its length is at most that cap.
pub retention :
    (most : ℕ) (rs : List AuditRecord)
    → ((record_all (with_max_records empty most) rs).records ≡ keep_last (max most 1) rs)
      × (len (record_all (with_max_records empty most) rs) ≤ max most 1)
unfolding with_max_records empty len
retention most rs =
    let log = with_max_records empty most in
    let kept : (record_all log rs).records ≡ keep_last (max most 1) rs =
      records-record_all log rs ∙ foldl-push_bounded (max most 1) rs in
    (kept, omega (arith, ap length kept, length-drop (length rs - max most 1) rs))
