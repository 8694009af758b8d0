-- ===== src/Examples/Documents.antt =====
-- Plans and the collection of documents at concrete inputs.
use mathlib.Core.Path.{subst}
use text.Mathlib.TextEquality.{eq_iff}
use ckos.Base.{
  if◌then◌else◌, Bool-cases, inl, inr, ℕ, String, List, [], ◌∷◌, Bool, none, ◌≡◌, refl, not, any,
  arith, ◌==◌, string_eq, nat_eq,
}
use ckos.Base.Map
use ckos.Kernel.Capability.{coding, reasoning}
use ckos.Planner.{SubTask, plan, decompose}
use ckos.Planner.Plans.{IsPlan, plan-IsPlan, IsSafe, decompose-IsSafe}
use ckos.Memory
use ckos.Memory.{Document, InMemoryStore, new_document, read}
use ckos.Memory.Collection.{default_policy, collect}
use ckos.Memory.Ranking.{HasUniqueIds}
use ckos.Memory.Sweep.{IsJudged, collect-IsJudged, collect-order}

-- the second subtask names one that does not exist
abbrev subtasks : List SubTask
subtasks =
    record { description = "write"; capability = coding; depends_on = [] }
    ∷ record { description = "read"; capability = reasoning; depends_on = 0 ∷ 7 ∷ [] }
    ∷ []

abbrev mint : ℕ → String
mint i = if i == 0 then "t0" else "t1"

plan-IsPlan_example : IsPlan subtasks (plan mint "w" "write and read" subtasks)
plan-IsPlan_example = plan-IsPlan mint "w" "write and read" subtasks

decompose-IsSafe_example : IsSafe (decompose (λ s. s) "diagnose a bug")
decompose-IsSafe_example = decompose-IsSafe (λ s. s) "diagnose a bug"

abbrev note : String → ℕ → Document ℕ
note id confidence = record (new_document id "note" "same" "same body") { confidence = confidence }

-- two copies, listed in either order, and another document
abbrev low_first : InMemoryStore ℕ
low_first = record {
  docs =
      ("a", note "a" 10) ∷ ("b", note "b" 90) ∷ ("c", new_document "c" "note" "other" "text") ∷ [];
}

abbrev high_first : InMemoryStore ℕ
high_first = record {
  docs =
      ("b", note "b" 90) ∷ ("c", new_document "c" "note" "other" "text") ∷ ("a", note "a" 10) ∷ [];
}

abbrev positive : ℕ → Bool
positive x = not (x == 0)

abbrev is_nought : ℕ → Bool
is_nought x = x == 0

low_removed : read (collect positive is_nought default_policy none (λ s. s) low_first).1 "a" ≡ none
unfolding read collect new_document default_policy Map.get Memory.search Memory.default_query
    Map.values Memory.delete Map.remove
low_removed = refl

low_first_unique : HasUniqueIds (Map.values low_first.docs)
unfolding new_document Map.values
low_first_unique = ((refl, (refl, tt)), ((refl, tt), (tt, tt)))

high_first_unique : HasUniqueIds (Map.values high_first.docs)
unfolding new_document Map.values
high_first_unique = ((refl, (refl, tt)), ((refl, tt), (tt, tt)))

collect-IsJudged_example :
    IsJudged positive is_nought default_policy none low_first
      (collect positive is_nought default_policy none (λ s. s) low_first)
collect-IsJudged_example =
    collect-IsJudged positive is_nought default_policy none (λ s. s) low_first low_first_unique

same_listed :
    (p : Document ℕ → Bool) → any p (Map.values low_first.docs) ≡ any p (Map.values high_first.docs)
unfolding Map.values
same_listed p = ground arith

same_read : (id : String) → read low_first id ≡ read high_first id
unfolding read Map.get
same_read id = elim (Bool-cases ("a" == id)) [
  | inl same ↦ subst (λ x. read low_first x ≡ read high_first x) ((eq_iff "a" id).0 same) refl
  | inr differ ↦ rw (read, Map.get, differ) refl
]

collect-order_example :
    read (collect positive is_nought default_policy none (λ s. s) low_first).1 "b"
    ≡ read (collect positive is_nought default_policy none (λ s. s) high_first).1 "b"
collect-order_example =
    collect-order positive is_nought default_policy none (λ s. s) low_first high_first
      low_first_unique high_first_unique same_listed same_read "b"
