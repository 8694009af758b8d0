-- ===== src/Memory/Collection.antt =====
-- memory/src/maintenance.rs: the garbage collection of the storage in memory, whose calls cannot
-- fail. Whether a number of an embedding is
-- finite, and whether it is zero, are parameters.
use ckos.Base.{
  ℕ, String, List, [], ◌∷◌, ◌++◌, Bool, true, false, not, ◌&&◌, ◌||◌, ◌≡◌, ◌↔◌, arith, Option, none,
  some, ltb, if◌then◌else◌, length, any, all, contains, Eq, ◌==◌, string_eq, nat_eq, text_ltb,
}
use ckos.Base.Map
use ckos.Memory.{Document, InMemoryStore, default_query, search, delete}

pub data GcReason : Type 0 where
  expired low_confidence duplicate broken_embedding : GcReason

pub record GcPolicy : Type 0 where
  pub min_confidence : ℕ
  pub drop_duplicates : Bool
  pub drop_broken_embeddings : Bool
  pub expected_dim : Option ℕ
  pub drop_expired : Bool

unfoldable pub default_policy : GcPolicy
default_policy = record {
  min_confidence = 0;
  drop_duplicates = true;
  drop_broken_embeddings = true;
  expected_dim = none;
  drop_expired = true;
}

pub record GcReport : Type 0 where
  pub removed : List (String × GcReason)

unfoldable pub count : GcReport → ℕ
count report = length report.removed

-- `(doc_type, title, body)`
pub record Key : Type 0 where
  pub doc_type : String
  pub title : String
  pub body : String

abbrev pub key_beq : Key → Key → Bool
key_beq a b = (a.doc_type == b.doc_type) && (a.title == b.title) && (a.body == b.body)

pub key_beq_iff : (a b : Key) → (key_beq a b ≡ true) ↔ (a ≡ b)
key_beq_iff a b = ground (
  arith,
  string_eq.decides a.doc_type b.doc_type,
  string_eq.decides a.title b.title,
  string_eq.decides a.body b.body,
)

instance abbrev pub key_eq : Eq Key
key_eq = record { test = key_beq; decides = key_beq_iff }

-- `expected.is_some_and(|d| emb.len() != d)`
unfoldable pub wrong_dim : Option ℕ → ℕ → Bool
wrong_dim none n = false
wrong_dim (some d) n = not (n == d)

-- `if let (Some(now), Some(expires)) = …` and the comparison of the dates
unfoldable pub is_past : Option String → Option String → Bool
is_past (some now) (some expires) = not (text_ltb now expires)
is_past now expires = false

-- the end of `removal_reason`: `seen.insert(key)`, for a document without fault where duplicates are
-- dropped
unfoldable pub noted : Option GcReason → Bool → Key → List Key → Option GcReason × List Key
noted (some why) drop key seen = (some why, seen)
noted none false key seen = (none, seen)
noted none true key seen = if contains key seen then (some duplicate, seen) else (none, key ∷ seen)

module _ {F : Type 0} where
  unfoldable pub key_of : Document F → Key
  key_of d = record { doc_type = d.doc_type; title = d.title; body = d.body }

  -- the order that `collect` sorts by: the higher confidence first, then the lower id
  unfoldable pub comes_before : Document F → Document F → Bool
  comes_before a b =
      ltb b.confidence a.confidence || ((a.confidence == b.confidence) && text_ltb a.id b.id)

  -- the stable sort: a document goes before the first that does not come before it
  unfoldable pub place : Document F → List (Document F) → List (Document F)
  unfolding comes_before
  place d [] = d ∷ []
  place d (e ∷ es) = let rest = place d es in if comes_before e d then e ∷ rest else d ∷ e ∷ es

  unfoldable pub sort_by_rank : List (Document F) → List (Document F)
  unfolding place
  sort_by_rank [] = []
  sort_by_rank (d ∷ ds) = place d (sort_by_rank ds)

  module _ (is_finite is_zero : F → Bool) (policy : GcPolicy) (now : Option String) where
    unfoldable pub embedding_broken : List F → Option ℕ → Bool
    unfolding wrong_dim
    embedding_broken emb expected =
        (length emb == 0)
        || wrong_dim expected (length emb)
        || any (λ x. not (is_finite x)) emb
        || all is_zero emb

    unfoldable pub has_broken : Option (List F) → Bool
    unfolding embedding_broken
    has_broken none = false
    has_broken (some emb) = embedding_broken emb policy.expected_dim

    -- what `removal_reason` decides before it looks for duplicates
    unfoldable pub fault : Document F → Option GcReason
    unfolding is_past has_broken
    fault doc =
        if policy.drop_expired && is_past now (Map.get doc.metadata "expires")
        then some expired
        else if ltb 0 policy.min_confidence && ltb doc.confidence policy.min_confidence
        then some low_confidence
        else if policy.drop_broken_embeddings && has_broken doc.embedding
        then some broken_embedding
        else none

    -- the reason, and the keys that were seen
    unfoldable pub removal_reason : Document F → List Key → Option GcReason × List Key
    unfolding fault key_of noted
    removal_reason doc seen = noted (fault doc) policy.drop_duplicates (key_of doc) seen

    -- the loop over the sorted documents
    unfoldable pub sweep :
        List (Document F) → List Key → GcReport → InMemoryStore F → GcReport × InMemoryStore F
    unfolding removal_reason
    sweep [] seen report store = (report, store)
    sweep (d ∷ ds) seen report store = elim (removal_reason d seen).0 [
      | none ↦ sweep ds (removal_reason d seen).1 report store
      | some why ↦
          sweep ds (removal_reason d seen).1
            (record { removed = report.removed ++ (d.id, why) ∷ [] }) (delete store d.id)
    ]

    unfoldable pub collect : (String → String) → InMemoryStore F → GcReport × InMemoryStore F
    unfolding sweep sort_by_rank
    collect lower store =
        sweep (sort_by_rank (search lower store default_query)) [] (record { removed = [] }) store
