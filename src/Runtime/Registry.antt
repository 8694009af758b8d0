-- ===== src/Runtime/Registry.antt =====
-- The two indexes of the registry of runtime/src/lib.rs stay equal.
use ckos.Base.{
  String, List, [], ◌∷◌, ◌++◌, false, ◌||◌, is_some, ◌≡◌, refl, arith, ◌∙◌, string_eq, contains,
  Bool-cases, inl, inr, nat_eq,
}
use text.Mathlib.TextEquality.{eq_iff}
use ckos.Base.Map
use ckos.Base.Map.{get-insert, Map}
use ckos.Runtime.{Runtime, RuntimeRegistry, register, new}

-- No id stands twice in the order.
abbrev pub Distinct : List String → Type 0
Distinct [] = Unit
Distinct (x ∷ xs) = (contains x xs ≡ false) × Distinct xs

-- The order names exactly the registered ids, each once.
pub record IsIndexed (reg : RuntimeRegistry) : Type 0 where
  pub keys : (id : String) → contains id reg.order ≡ is_some (Map.get reg.runtimes id)
  pub distinct : Distinct reg.order

contains-append :
    (a : String) (xs ys : List String) → contains a (xs ++ ys) ≡ contains a xs || contains a ys
contains-append a [] ys = refl
contains-append a (x ∷ xs) ys = ground (arith, contains-append a xs ys)

Distinct-append :
    (xs : List String) (a : String) → Distinct xs → contains a xs ≡ false → Distinct (xs ++ a ∷ [])
Distinct-append [] a d fresh = (refl, tt)
Distinct-append (x ∷ xs) a d fresh = (
  ground (arith, contains-append x xs (a ∷ []), eq_iff x a, eq_iff a x),
  Distinct-append xs a d.1 (ground arith),
)

pub IsIndexed-new : IsIndexed new
unfolding new Map.get
IsIndexed-new = record { keys = λ id. refl; distinct = tt }

-- Registering a runtime, under a new id or a known one, keeps the order equal to the set of
-- registered ids and free of duplicates.
pub register-IsIndexed :
    (reg : RuntimeRegistry) (r : Runtime) → IsIndexed reg → IsIndexed (register reg r)
unfolding register
register-IsIndexed reg r h = elim (Bool-cases (is_some (Map.get reg.runtimes r.id))) [
  | inl known ↦ record {
    keys = λ id.
        rw (known, get-insert reg.runtimes r.id id r) (ground (arith, h.keys id, eq_iff r.id id));
    distinct = rw known h.distinct;
  }
  | inr new ↦ record {
    keys = λ id.
        rw (new, get-insert reg.runtimes r.id id r)
          (ground (arith, h.keys id, contains-append id reg.order (r.id ∷ [])));
    distinct = rw new (Distinct-append reg.order r.id h.distinct (h.keys r.id ∙ new));
  }
]
