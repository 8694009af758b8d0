-- ===== src/Messaging/Turns.antt =====
-- The balance of `ServiceMesh::route` of sdk/src/messaging.rs.
use mathlib.Core.List.{append_assoc}
use ckos.Base.{
  ◌+◌, ◌%◌, ◌<◌, String, List, [], ◌∷◌, ◌++◌, map, some, is_some, get_or, ◌≡◌, refl, arith, ◌==◌,
  string_eq, get_elem?, length, length-append, All, All-append, Bool-cases, Option-cases, inl, inr,
  ◌⊎◌, sym, ap, ◌∙◌,
}
use ckos.Base.Map
use ckos.Base.Map.{get-insert, get-insert_self}
use ckos.Kernel.Capability.{Capability, as_token}
use ckos.Kernel.Error.{Result, ok, err, capability_unavailable}
use ckos.Kernel.Event.{usize_mod}
use ckos.Scheduler.Scan.{get_elem?-middle}
use native.Mathlib.Nat.{mod-eq_of_lt}
use ckos.Messaging.{
  MessageBus, Payload, ServiceMesh, choose, route, route_among, register_provider, register,
}
use ckos.Messaging.Routing.{
  HasInbox, HasInbox-insert, All-weaken, IsServed, IsRouted, offered, turn, choose_in,
  route-IsRouted,
}

-- In a mesh whose providers all have an inbox, a route fails only if the capability has no
-- provider, and the mesh is as before then; or it appends a message to the inbox of the provider whose
-- turn it is, counts it, passes the turn on, and every provider still has an inbox.
pub route_cases :
    (mesh : ServiceMesh) (id source : String) (cap : Capability) (kind : String) (payload : Payload)
    → IsServed mesh
    → ((offered mesh cap ≡ [])
        × (route mesh id source cap kind payload
            ≡ (err (capability_unavailable (as_token cap)), mesh)))
      ⊎ ((chosen : String) × (rest : ServiceMesh) × (get_elem?
              (offered mesh cap)
              (turn mesh cap % length (offered mesh cap))
            ≡ some chosen)
          × (route mesh id source cap kind payload ≡ (ok chosen, rest))
          × IsRouted mesh rest cap chosen
          × IsServed rest)
unfolding route
route_cases mesh id source cap kind payload served =
    elim (Option-cases (Map.get mesh.providers (as_token cap))) [
      | inl miss ↦ inl (rw miss refl, rw (miss, route_among) refl)
      | inr ([], empty) ↦ inl (rw empty refl, rw (empty, route_among) refl)
      | inr (p ∷ ps, offers) ↦
          let (rest, ran, routed, still) =
            route-IsRouted mesh id source cap kind payload p ps served offers in
          let all_served : All (HasInbox mesh.bus) (p ∷ ps) =
            (let mine = served (as_token cap) in rw offers at mine) in
          let turns = choose_in (HasInbox mesh.bus) (turn mesh cap) p ps all_served in
          inr (choose (turn mesh cap) p ps, rest, rw offers turns.0, ran, routed, still)
    ]

register-HasInbox :
    (bus : MessageBus) (agent b : String) → HasInbox bus b → HasInbox (register bus agent) b
unfolding register
register-HasInbox bus agent b h = elim (Bool-cases (is_some (Map.get bus.inboxes agent))) [
  | inl known ↦ rw known h
  | inr new ↦ rw new (HasInbox-insert bus agent [] b h)
]

register-HasInbox_self : (bus : MessageBus) (agent : String) → HasInbox (register bus agent) agent
unfolding register
register-HasInbox_self bus agent = elim (Bool-cases (is_some (Map.get bus.inboxes agent))) [
  | inl known ↦ rw known known
  | inr new ↦ rw new (rw (get-insert_self bus.inboxes agent []) refl)
]

-- Registering a provider keeps an inbox for every provider of every capability.
pub register_provider-IsServed :
    (mesh : ServiceMesh) (agent : String) (cap : Capability)
    → IsServed mesh
    → IsServed (register_provider mesh agent cap)
unfolding register_provider
register_provider-IsServed mesh agent cap served token =
    let old : (name : String)
        → All (HasInbox (register mesh.bus agent)) (get_or (Map.get mesh.providers name) []) =
      λ name.
        All-weaken (HasInbox mesh.bus) _ _ (λ b h. register-HasInbox mesh.bus agent b h)
          (served name) in
    elim (Bool-cases (as_token cap == token)) [
      | inl same ↦
          rw (get-insert mesh.providers (as_token cap) token _, same)
            (All-append (HasInbox (register mesh.bus agent)) _ (agent ∷ []) (old (as_token cap))
              (register-HasInbox_self mesh.bus agent, tt))
      | inr differ ↦ rw (get-insert mesh.providers (as_token cap) token _, differ) (old token)
    ]

-- One route after the other, for one capability.
abbrev pub route_all :
    ServiceMesh
    → List String
    → String
    → Capability
    → String
    → Payload
    → List (Result String) × ServiceMesh
route_all mesh [] source cap kind payload = ([], mesh)
route_all mesh (id ∷ ids) source cap kind payload =
    let (r, mesh') = route mesh id source cap kind payload in
    let (rs, rest) = route_all mesh' ids source cap kind payload in (r ∷ rs, rest)

-- The provider at a position that the cursor has not wrapped around.
choose-middle :
    (before : List String) (q : String) (after : List String) (p : String) (ps : List String)
    → p ∷ ps ≡ before ++ q ∷ after
    → choose (length before) p ps ≡ q
unfolding choose
choose-middle before q after p ps e =
    let less : length before < length (p ∷ ps) =
      omega (arith, ap length e, length-append before (q ∷ after)) in
    let hit : get_elem? (p ∷ ps) (length before % length (p ∷ ps)) ≡ some q =
      rw (mod-eq_of_lt less)
        (ap (λ l. get_elem? l (length before)) e ∙ get_elem?-middle before q after) in
    rw hit refl

no_routes :
    (mesh : ServiceMesh) (ids : List String) (source : String) (cap : Capability) (kind : String)
    (payload : Payload)
    → length ids ≡ 0
    → (route_all mesh ids source cap kind payload).0 ≡ []
no_routes mesh [] source cap kind payload h = refl
no_routes mesh (id ∷ ids) source cap kind payload h = absurd (omega arith)

turns_from :
    (mesh : ServiceMesh) (ids : List String) (source : String) (cap : Capability) (kind : String)
    (payload : Payload) (p : String) (ps before after : List String)
    → IsServed mesh
    → Map.get mesh.providers (as_token cap) ≡ some (p ∷ ps)
    → p ∷ ps ≡ before ++ after
    → turn mesh cap ≡ length before
    → length ids ≡ length after
    → length (p ∷ ps) < usize_mod
    → (route_all mesh ids source cap kind payload).0 ≡ map ok after
turns_from mesh [] source cap kind payload p ps before [] served offers e at count room = refl
turns_from mesh [] source cap kind payload p ps before (q ∷ after) served offers e at count room =
    absurd (omega arith)
turns_from mesh (id ∷ ids) source cap kind payload p ps before [] served offers e at count room =
    absurd (omega arith)
turns_from mesh (id ∷ ids) source cap kind payload p ps before (q ∷ after) served offers e at count
      room =
    let (rest, ran, routed, still) =
      route-IsRouted mesh id source cap kind payload p ps served offers in
    let chosen : choose (turn mesh cap) p ps ≡ q = rw at (choose-middle before q after p ps e) in
    let size : length (p ∷ ps) ≡ length before + length (q ∷ after) =
      ap length e ∙ length-append before (q ∷ after) in
    let next : turn rest cap ≡ length (before ++ q ∷ []) =
      omega (arith, routed.turned, at, size, length-append before (q ∷ [])) in
    let others =
      turns_from rest ids source cap kind payload p ps (before ++ q ∷ []) after still
        (rw routed.kept offers) (e ∙ sym (append_assoc before (q ∷ []) after)) next
        (omega (arith, count)) room in
    rw (ran, chosen, others) refl

-- If every provider has an inbox and the cursor of the capability is at 0, as many routes as the
-- capability has providers, fewer than 2^64, reach each of them once, in the order of registration.
pub route_all-turns :
    (mesh : ServiceMesh) (ids : List String) (source : String) (cap : Capability) (kind : String)
    (payload : Payload)
    → IsServed mesh
    → turn mesh cap ≡ 0
    → length ids ≡ length (offered mesh cap)
    → length (offered mesh cap) < usize_mod
    → (route_all mesh ids source cap kind payload).0 ≡ map ok (offered mesh cap)
route_all-turns mesh ids source cap kind payload served at count room =
    elim (Option-cases (Map.get mesh.providers (as_token cap))) [
      | inl miss ↦ rw miss (no_routes mesh ids source cap kind payload (rw miss at count))
      | inr ([], empty) ↦ rw empty (no_routes mesh ids source cap kind payload (rw empty at count))
      | inr (p ∷ ps, offers) ↦ rw offers (
          turns_from mesh ids source cap kind payload p ps [] (p ∷ ps) served offers refl at
            (rw offers at count) (rw offers at room))
    ]
