-- ===== src/Runtime/Nearest.antt =====
-- The runtimes of runtime/src/lib.rs that offer a capability, and the nearest of them.
use ckos.Base.{
  ℕ, ◌≤◌, ◌<◌, String, List, [], ◌∷◌, ◌++◌, true, some, ◌≡◌, ◌↔◌, refl, arith, string_eq, contains,
  Bool-cases, inl, inr, All, AnyOf, ◌==◌,
}
use ckos.Base.Map
use ckos.Base.Map.{Map}
use ckos.Kernel.Capability.{Capability, capability_eq}
use ckos.Runtime.{Runtime, RuntimeKind, cpu, gpu, npu, edge, cloud, locality_rank, supports}

-- How far from local a kind of runtime is: edge first, then npu, gpu, cpu, and the cloud last.
abbrev pub distance : RuntimeKind → ℕ
distance edge = 0
distance npu = 1
distance gpu = 2
distance cpu = 3
distance cloud = 4

pub locality_rank-distance : (k : RuntimeKind) → locality_rank k ≡ distance k
unfolding locality_rank
locality_rank-distance cpu = refl
locality_rank-distance gpu = refl
locality_rank-distance npu = refl
locality_rank-distance edge = refl
locality_rank-distance cloud = refl

-- The runtime lists the capability.
abbrev pub Offers : Capability → Runtime → Type 0
Offers cap r = AnyOf (λ c. c ≡ cap) r.capabilities

-- Whatever stands under the id and lists the capability is farther than `d`, or as far at least.
abbrev pub Farther : Map String Runtime → Capability → ℕ → String → Type 0
Farther m cap d id = (x : Runtime) → Map.get m id ≡ some x → Offers cap x → d < distance x.kind

abbrev pub AsFar : Map String Runtime → Capability → ℕ → String → Type 0
AsFar m cap d id = (x : Runtime) → Map.get m id ≡ some x → Offers cap x → d ≤ distance x.kind

-- `r` is registered under an id of the order and lists the capability; the other runtimes that list
-- it are farther if they stand before it in the order, and as far at least if they stand after it.
pub record IsFirstNearest (m : Map String Runtime) (ids : List String) (cap : Capability)
    (r : Runtime) : Type 0 where
  pub before : List String
  pub id : String
  pub after : List String
  pub split : ids ≡ before ++ id ∷ after
  pub stored : Map.get m id ≡ some r
  pub offers : Offers cap r
  pub farther : All (Farther m cap (distance r.kind)) before
  pub as_far : All (AsFar m cap (distance r.kind)) after

contains-Offers :
    (cap : Capability) (cs : List Capability) → (contains cap cs ≡ true) ↔ AnyOf (λ c. c ≡ cap) cs
contains-Offers cap [] = (cc, absurd)
contains-Offers cap (c ∷ cs) =
    let (there, back) = contains-Offers cap cs in
    elim (Bool-cases (c == cap)) [
      | inl same ↦ ((λ e. inl ((capability_eq.decides c cap).0 same)), (λ h. ground arith))
      | inr differ ↦ (
        (λ e. inr (there (rw differ at e))),
        elim [
          | inl here ↦ cc ((capability_eq.decides c cap).1 here, differ)
          | inr later ↦ ground (arith, back later)
        ],
      )
    ]

pub supports_iff : (cap : Capability) (r : Runtime) → (supports cap r ≡ true) ↔ Offers cap r
unfolding supports
supports_iff cap r = contains-Offers cap r.capabilities
