-- ===== src/Runtime/Selection.antt =====
-- The runtime that `select` of runtime/src/lib.rs chooses.
use ckos.Base.{
  ℕ, ◌≤◌, ◌<◌, String, List, [], ◌∷◌, ◌++◌, true, Option, none, some, ◌≡◌, refl, arith, ◌∙◌, ap,
  string_eq, contains, Bool-cases, Option-cases, ◌⊎◌, inl, inr, ltb, All, keep, ◌==◌,
}
use mathlib.Core.Path.{subst}
use text.Mathlib.TextEquality.{eq_iff}
use ckos.Base.Map
use ckos.Base.Map.{Map}
use ckos.Kernel.Capability.{Capability, capability_eq, as_token}
use ckos.Kernel.Error.{ok, err, capability_unavailable}
use ckos.Runtime.{
  Runtime, RuntimeRegistry, locality_rank, min_by_rank, candidates, supports, registered, select,
}
use ckos.Runtime.Registry.{IsIndexed}
use ckos.Runtime.Nearest.{
  distance, locality_rank-distance, Offers, Farther, AsFar, IsFirstNearest, supports_iff,
}

-- Nothing that is stored under one of the ids lists the capability.
abbrev pub NoneOffers : Map String Runtime → Capability → List String → Type 0
NoneOffers m cap = All (λ id. (x : Runtime) → Map.get m id ≡ some x → ¬ Offers cap x)

abbrev nearest : Map String Runtime → List String → Capability → Option Runtime
nearest m ids cap = min_by_rank (keep (supports cap) (registered m ids))

-- The choice among some ids, which either finds nothing or the first of the nearest.
abbrev Chosen : Map String Runtime → List String → Capability → Type 0
Chosen m ids cap =
    ((nearest m ids cap ≡ none) × NoneOffers m cap ids)
    ⊎ ((r : Runtime) × (nearest m ids cap ≡ some r) × IsFirstNearest m ids cap r)

Farther-id :
    (m : Map String Runtime) (cap : Capability) (d : ℕ) (id : String)
    → ((x : Runtime) → Map.get m id ≡ some x → ¬ Offers cap x)
    → Farther m cap d id
Farther-id m cap d id h x e o = absurd (h x e o)

-- An id that offers nothing does not change the choice.
skipped :
    (m : Map String Runtime) (id : String) (ids : List String) (cap : Capability)
    → nearest m (id ∷ ids) cap ≡ nearest m ids cap
    → ((x : Runtime) → Map.get m id ≡ some x → ¬ Offers cap x)
    → Chosen m ids cap
    → Chosen m (id ∷ ids) cap
skipped m id ids cap same h = elim [
  | inl (miss, nothing) ↦ inl (cc, (h, nothing))
  | inr (r, hit, f) ↦ inr (
    r,
    cc,
    record {
      before = id ∷ f.before;
      id = f.id;
      after = f.after;
      stored = f.stored;
      offers = f.offers;
      as_far = f.as_far;
      split = ap (λ l. id ∷ l) f.split;
      farther = (Farther-id m cap (distance r.kind) id h, f.farther);
    },
  )
]

AsFar-of_none :
    (m : Map String Runtime) (cap : Capability) (d : ℕ) (ids : List String)
    → NoneOffers m cap ids
    → All (AsFar m cap d) ids
AsFar-of_none m cap d [] h = tt
AsFar-of_none m cap d (id ∷ ids) h = ((λ x e o. absurd (h.0 x e o)), AsFar-of_none m cap d ids h.1)

AsFar-mono :
    (m : Map String Runtime) (cap : Capability) (a b : ℕ) (ids : List String)
    → a ≤ b
    → All (AsFar m cap b) ids
    → All (AsFar m cap a) ids
AsFar-mono m cap a b [] h k = tt
AsFar-mono m cap a b (id ∷ ids) h k =
    ((λ x e o. (let far = k.0 x e o in omega arith)), AsFar-mono m cap a b ids h k.1)

AsFar-All :
    (m : Map String Runtime) (cap : Capability) (a : ℕ) (xs : List String) (id : String)
    (r : Runtime) (ys : List String)
    → a ≤ distance r.kind
    → Map.get m id ≡ some r
    → All (Farther m cap (distance r.kind)) xs
    → All (AsFar m cap (distance r.kind)) ys
    → All (AsFar m cap a) (xs ++ id ∷ ys)
AsFar-All m cap a [] id r ys h e k l = (
  (λ x e' o. (let same : r ≡ x = cc in subst (λ y. a ≤ distance y.kind) same h)),
  AsFar-mono m cap a (distance r.kind) ys h l,
)
AsFar-All m cap a (i ∷ xs) id r ys h e k l =
    ((λ x e' o. (let far = k.0 x e' o in omega arith)), AsFar-All m cap a xs id r ys h e k.1 l)

-- A runtime that is as near as the choice among the later ids is chosen before it.
first_taken :
    (m : Map String Runtime) (id : String) (ids : List String) (cap : Capability) (x : Runtime)
    → Map.get m id ≡ some x
    → Offers cap x
    → All (AsFar m cap (distance x.kind)) ids
    → IsFirstNearest m (id ∷ ids) cap x
first_taken m id ids cap x e o far = record {
  before = [];
  id = id;
  after = ids;
  split = refl;
  stored = e;
  offers = o;
  farther = tt;
  as_far = far;
}

offered :
    (m : Map String Runtime) (id : String) (ids : List String) (cap : Capability) (x : Runtime)
    → Map.get m id ≡ some x
    → Offers cap x
    → nearest m (id ∷ ids) cap ≡ min_by_rank (x ∷ keep (supports cap) (registered m ids))
    → Chosen m ids cap
    → Chosen m (id ∷ ids) cap
unfolding min_by_rank
offered m id ids cap x e o same = elim [
  | inl (miss, nothing) ↦ inr (
    x,
    same ∙ rw (miss, min_by_rank) refl,
    first_taken m id ids cap x e o (AsFar-of_none m cap (distance x.kind) ids nothing),
  )
  | inr (best, hit, f) ↦
      let of_best = locality_rank-distance best.kind in
      let of_x = locality_rank-distance x.kind in
      elim (Bool-cases (ltb (locality_rank best.kind) (locality_rank x.kind))) [
        | inl nearer ↦ inr (
          best,
          same ∙ ground (arith, hit),
          record {
            before = id ∷ f.before;
            id = f.id;
            after = f.after;
            split = ap (λ l. id ∷ l) f.split;
            stored = f.stored;
            offers = f.offers;
            farther = (
              (λ y e' o'.
                  let is_x : x ≡ y = cc in
                  subst (λ z. distance best.kind < distance z.kind) is_x
                    (ground (arith, of_best, of_x))),
              f.farther,
            );
            as_far = f.as_far;
          },
        )
        | inr no_nearer ↦ inr (
          x,
          same ∙ ground (arith, hit),
          first_taken m id ids cap x e o (
              rw f.split (
                AsFar-All m cap (distance x.kind) f.before f.id best f.after
                  (ground (arith, of_best, of_x)) f.stored f.farther f.as_far)),
        )
      ]
]

registered-none :
    (m : Map String Runtime) (id : String) (ids : List String)
    → Map.get m id ≡ none
    → registered m (id ∷ ids) ≡ registered m ids
unfolding registered
registered-none m id ids e = rw (e, registered) refl

registered-some :
    (m : Map String Runtime) (id : String) (ids : List String) (x : Runtime)
    → Map.get m id ≡ some x
    → registered m (id ∷ ids) ≡ x ∷ registered m ids
unfolding registered
registered-some m id ids x e = rw (e, registered) refl

chosen : (m : Map String Runtime) (ids : List String) (cap : Capability) → Chosen m ids cap
unfolding registered min_by_rank
chosen m [] cap = inl (refl, tt)
chosen m (id ∷ ids) cap = elim (Option-cases (Map.get m id)) [
  | inl miss ↦
      skipped m id ids cap (rw (registered-none m id ids miss) refl) (λ x e. cc) (chosen m ids cap)
  | inr (x, hit) ↦ elim (Bool-cases (supports cap x)) [
    | inl fits ↦
        offered m id ids cap x hit ((supports_iff cap x).0 fits)
          (rw (registered-some m id ids x hit, fits) refl) (chosen m ids cap)
    | inr unfit ↦
        skipped m id ids cap (rw (registered-some m id ids x hit, unfit) refl)
          (λ y e o.
            let is_x : y ≡ x = cc in cc ((supports_iff cap x).1 (subst (Offers cap) is_x o), unfit))
          (chosen m ids cap)
  ]
]

-- An indexed registry stores nothing outside its order.
unoffered :
    (m : Map String Runtime) (cap : Capability) (ids : List String) (id : String) (x : Runtime)
    → NoneOffers m cap ids
    → contains id ids ≡ true
    → Map.get m id ≡ some x
    → ¬ Offers cap x
unoffered m cap [] id x h c e = cc c
unoffered m cap (i ∷ ids) id x h c e = elim (Bool-cases (i == id)) [
  | inl same ↦ (let hit : Map.get m i ≡ some x = ground (arith, eq_iff i id) in h.0 x hit)
  | inr differ ↦ unoffered m cap ids id x h.1 (rw differ at c) e
]

-- If the two indexes of the registry agree, `select` either returns a registered runtime that lists
-- the capability, such that of the others that list it those registered before are farther from
-- local and those registered after are no nearer; or it fails with an error that names the
-- capability, and then no registered runtime lists it.
pub select_cases :
    (reg : RuntimeRegistry) (cap : Capability)
    → IsIndexed reg
    → ((r : Runtime) × (select reg cap ≡ ok r) × IsFirstNearest reg.runtimes reg.order cap r)
      ⊎ ((select reg cap ≡ err (capability_unavailable (as_token cap)))
          × ((id : String) (r : Runtime) → Map.get reg.runtimes id ≡ some r → ¬ Offers cap r))
unfolding select candidates
select_cases reg cap h = elim (chosen reg.runtimes reg.order cap) [
  | inr (r, hit, f) ↦ inl (r, rw hit refl, f)
  | inl (miss, nothing) ↦ inr (
    rw miss refl,
    λ id r e. unoffered reg.runtimes cap reg.order id r nothing (ground (arith, h.keys id)) e,
  )
]
