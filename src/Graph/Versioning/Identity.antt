-- ===== src/Graph/Versioning/Identity.antt =====
-- The identities by which graph/src/versioning.rs merges nodes, and the node that stands for each.
use text.Mathlib.TextEquality.{eq_iff}
use ckos.Base.{
  String, List, [], ◌∷◌, Option, none, some, is_some, get_or, ◌≡◌, refl, true, string_eq, ◌==◌,
  if◌then◌else◌, concat, Bool-cases, Option-cases, inl, inr, ap,
}
use ckos.Base.Map
use ckos.Base.Map.{get-insert}
use ckos.Graph.{Node, kind_token}
use ckos.Graph.Versioning.{by_identity, identity, base_of}

module _ (lower : String → String) where
  -- The token of the kind, a colon, and the label in lower case.
  abbrev pub name_of : Node → String
  name_of n = concat (kind_token lower n.kind ∷ ":" ∷ lower n.label ∷ [])

  -- The last node of the list with the identity.
  abbrev pub last_of : String → List Node → Option Node
  last_of ident [] = none
  last_of ident (n ∷ ns) = elim (last_of ident ns) [
    | some later ↦ some later
    | none ↦ if name_of n == ident then some n else none
  ]

  abbrev or_else : Option Node → Option Node → Option Node
  or_else (some n) m = some n
  or_else none m = m

  get-by_identity :
      (ns : List Node) (m : Map.Map String Node) (ident : String)
      → Map.get (by_identity lower ns m) ident ≡ or_else (last_of ident ns) (Map.get m ident)
  unfolding by_identity identity
  get-by_identity [] m ident = refl
  get-by_identity (n ∷ ns) m ident =
      rw (get-by_identity ns (Map.insert m (name_of n) n) ident, get-insert m (name_of n) ident n)
        (elim (Option-cases (last_of ident ns)) [
          | inl none_later ↦ elim (Bool-cases (name_of n == ident)) [
            | inl same ↦ rw (none_later, same) refl
            | inr differ ↦ rw (none_later, differ) refl
          ]
          | inr (later, hit) ↦ rw hit refl
        ])

  -- Each identity stands for its last node.
  pub by_identity-last_of :
      (ns : List Node) (ident : String) → Map.get (by_identity lower ns []) ident ≡ last_of ident ns
  unfolding Map.get
  by_identity-last_of ns ident = elim (Option-cases (last_of ident ns)) [
    | inl miss ↦ rw (get-by_identity ns [] ident, miss) refl
    | inr (n, hit) ↦ rw (get-by_identity ns [] ident, hit) refl
  ]

  -- The identity of a stored node stands for some node.
  pub last_of-stored :
      (m : Map.Map String Node) (id : String) (n : Node)
      → Map.get m id ≡ some n
      → is_some (last_of (name_of n) (Map.values m)) ≡ true
  unfolding Map.get Map.values
  last_of-stored [] id n h = cc
  last_of-stored ((k, x) ∷ m) id n h = elim (Bool-cases (k == id)) [
    | inr differ ↦
        let later = last_of-stored m id n (rw differ at h) in
        elim (Option-cases (last_of (name_of n) (Map.values m))) [
          | inl miss ↦ cc (miss, later)
          | inr (y, hit) ↦ rw hit refl
        ]
    | inl same ↦
        let found : some x ≡ some n = rw same at h in
        let twin : x ≡ n = cc in
        let named : name_of x ≡ name_of n = ap name_of twin in
        elim (Option-cases (last_of (name_of n) (Map.values m))) [
          | inl miss ↦ rw (miss, (eq_iff (name_of x) (name_of n)).1 named) refl
          | inr (y, hit) ↦ rw hit refl
        ]
  ]

pub base_of-get_or : (o : Option Node) (n : Node) → base_of o n ≡ get_or o n
unfolding base_of
base_of-get_or none n = refl
base_of-get_or (some o) n = refl
