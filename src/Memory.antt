-- ===== src/Memory.antt =====
-- memory/src/lib.rs: documents, queries and the storage in memory. The numbers of an embedding are of
-- a type `F`; the lower-casing of Unicode texts is the parameter `lower`.
pub mod Collection
pub mod Headers
pub mod Ranking
pub mod Sweep
use ckos.Base.{
  ℕ, zero, suc, String, List, [], ◌∷◌, Bool, true, false, ◌||◌, ◌&&◌, Option, none, some, ltb,
  if◌then◌else◌, length, keep, ◌==◌, string_eq, includes,
}
use ckos.Base.Map
use ckos.Base.Map.{Map}

pub record Document (F : Type 0) : Type 0 where
  pub id : String
  pub doc_type : String
  pub title : String
  pub author : Option String
  pub body : String
  pub metadata : Map String String
  pub embedding : Option (List F)
  pub confidence : ℕ

pub record Query : Type 0 where
  pub text : Option String
  pub doc_type : Option String
  pub limit : ℕ

-- `Query::default()`
unfoldable pub default_query : Query
default_query = record { text = none; doc_type = none; limit = 0 }

pub record InMemoryStore (F : Type 0) : Type 0 where
  pub docs : Map String (Document F)

-- `truncate`
unfoldable pub truncate {ℓ} : {A : Type ℓ} → ℕ → List A → List A
truncate zero xs = []
truncate (suc n) [] = []
truncate (suc n) (x ∷ xs) = x ∷ truncate n xs

-- `map_or(true, |t| &d.doc_type == t)`
unfoldable pub has_type : Option String → String → Bool
has_type none doc_type = true
has_type (some t) doc_type = doc_type == t

unfoldable pub needle : (String → String) → Option String → Option String
needle lower none = none
needle lower (some t) = some (lower t)

module _ {F : Type 0} where
  -- `Document::new`, given the id that `DocumentId::new` minted
  unfoldable pub new_document : String → String → String → String → Document F
  new_document id doc_type title body = record {
    id = id;
    doc_type = doc_type;
    title = title;
    author = none;
    body = body;
    metadata = [];
    embedding = none;
    confidence = 100;
  }

  unfoldable pub new : InMemoryStore F
  new = record { docs = [] }

  unfoldable pub len : InMemoryStore F → ℕ
  len store = length store.docs

  unfoldable pub write : InMemoryStore F → Document F → InMemoryStore F
  write store doc = record { docs = Map.insert store.docs doc.id doc }

  unfoldable pub read : InMemoryStore F → String → Option (Document F)
  read store id = Map.get store.docs id

  unfoldable pub delete : InMemoryStore F → String → InMemoryStore F
  delete store id = record { docs = Map.remove store.docs id }

  -- the match on the needle that was lowered
  unfoldable pub has_text : (String → String) → Option String → Document F → Bool
  has_text lower none d = true
  has_text lower (some n) d = includes (lower d.title) n || includes (lower d.body) n

  unfoldable pub search : (String → String) → InMemoryStore F → Query → List (Document F)
  unfolding has_type has_text needle truncate
  search lower store query =
      let hits =
        keep (λ d. has_text lower (needle lower query.text) d)
          (keep (λ d. has_type query.doc_type d.doc_type) (Map.values store.docs)) in
      if ltb 0 query.limit then truncate query.limit hits else hits
