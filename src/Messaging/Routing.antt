-- ===== src/Messaging/Routing.antt =====
-- How `ServiceMesh` of sdk/src/messaging.rs routes by capability.
use native.Mathlib.Nat.{mod-lt}
use ckos.Base.{
  ℕ, zero, suc, ◌+◌, ◌%◌, ◌<◌, String, List, [], ◌∷◌, ◌++◌, true, false, some, is_some, get_or, ◌≡◌,
  refl, arith, ◌==◌, string_eq, get_elem?, length, All, Option-cases, inl, inr,
}
use ckos.Base.Map
use ckos.Base.Map.{get-insert, get-insert_self}
use ckos.Kernel.Capability.{Capability, as_token}
use ckos.Kernel.Error.{ok}
use ckos.Kernel.Event.{usize_mod}
use ckos.Messaging.{
  Message, MessageBus, Payload, ServiceMesh, send, deposit, choose, deliver, route, new_message,
}

abbrev pub offered : ServiceMesh → Capability → List String
offered mesh cap = get_or (Map.get mesh.providers (as_token cap)) []

-- The cursor of a capability.
abbrev pub turn : ServiceMesh → Capability → ℕ
turn mesh cap = get_or (Map.get mesh.cursor (as_token cap)) 0

abbrev pub HasInbox : MessageBus → String → Type 0
HasInbox bus p = is_some (Map.get bus.inboxes p) ≡ true

-- Every provider of every capability has an inbox.
abbrev pub IsServed : ServiceMesh → Type 0
IsServed mesh =
    (token : String) → All (HasInbox mesh.bus) (get_or (Map.get mesh.providers token) [])

at_index :
    (P : String → Type 0) (xs : List String) (i : ℕ)
    → All P xs
    → i < length xs
    → (a : String) × (get_elem? xs i ≡ some a) × P a
at_index P [] i h less = absurd (omega arith)
at_index P (x ∷ xs) zero h less = (x, refl, h.0)
at_index P (x ∷ xs) (suc i) h less = at_index P xs i h.1 (omega (arith, less))

pub choose_in :
    (P : String → Type 0) (at : ℕ) (p : String) (ps : List String)
    → All P (p ∷ ps)
    → (get_elem? (p ∷ ps) (at % length (p ∷ ps)) ≡ some (choose at p ps)) × P (choose at p ps)
unfolding choose
choose_in P at p ps h =
    let (a, hit, good) = at_index P (p ∷ ps) (at % length (p ∷ ps)) h (mod-lt at (omega arith)) in
    (rw hit refl, rw hit good)

-- What a route to some provider does: `rest` is the mesh after it.
pub record IsRouted (mesh rest : ServiceMesh) (cap : Capability) (chosen : String) : Type 0 where
  pub inbox : List Message
  pub message : Message
  pub before : Map.get mesh.bus.inboxes chosen ≡ some inbox
  pub after : Map.get rest.bus.inboxes chosen ≡ some (inbox ++ message ∷ [])
  pub others :
      (b : String) → (chosen == b) ≡ false → Map.get rest.bus.inboxes b ≡ Map.get mesh.bus.inboxes b
  pub turned : turn rest cap ≡ (turn mesh cap + 1) % usize_mod
  pub kept : rest.providers ≡ mesh.providers
  pub counted : rest.delivered ≡ (mesh.delivered + 1) % usize_mod

pub HasInbox-insert :
    (bus : MessageBus) (a : String) (ms : List Message) (b : String)
    → HasInbox bus b
    → HasInbox (record { inboxes = Map.insert bus.inboxes a ms }) b
HasInbox-insert bus a ms b h = rw (get-insert bus.inboxes a b ms) (ground arith)

pub All-weaken :
    (P Q : String → Type 0) (xs : List String) → ((x : String) → P x → Q x) → All P xs → All Q xs
All-weaken P Q [] f h = tt
All-weaken P Q (x ∷ xs) f h = (f x h.0, All-weaken P Q xs f h.1)

-- A route in a mesh whose providers have inboxes, to a capability that has providers.
pub route-IsRouted :
    (mesh : ServiceMesh) (id source : String) (cap : Capability) (kind : String) (payload : Payload)
    (p : String) (ps : List String)
    → IsServed mesh
    → Map.get mesh.providers (as_token cap) ≡ some (p ∷ ps)
    → (rest : ServiceMesh) × (route mesh id source cap kind payload
        ≡ (ok (choose (turn mesh cap) p ps), rest))
      × IsRouted mesh rest cap (choose (turn mesh cap) p ps)
      × IsServed rest
unfolding route send new_message
route-IsRouted mesh id source cap kind payload p ps served offers =
    let chosen = choose (turn mesh cap) p ps in
    let all_served : All (HasInbox mesh.bus) (p ∷ ps) =
      (let mine = served (as_token cap) in rw offers at mine) in
    let here = (choose_in (HasInbox mesh.bus) (turn mesh cap) p ps all_served).1 in
    elim (Option-cases (Map.get mesh.bus.inboxes chosen)) [
      | inl miss ↦ cc (rw miss at here)
      | inr (inbox, hit) ↦
          let routed = route mesh id source cap kind payload in
          (
            routed.1,
            rw (offers, hit, deposit, deliver) refl,
            record {
              inbox = inbox;
              message = record (new_message id source chosen kind) { payload = payload };
              before = hit;
              after =
                  rw (offers, hit, deposit, deliver) (get-insert_self mesh.bus.inboxes chosen _);
              others = λ b h.
                  rw (offers, hit, deposit, deliver)
                    (rw (get-insert mesh.bus.inboxes chosen b _, h) refl);
              turned =
                  rw (offers, hit, deposit, deliver)
                    (rw
                      (get-insert_self mesh.cursor (as_token cap) ((turn mesh cap + 1) % usize_mod))
                      refl);
              kept = rw (offers, hit, deposit, deliver) refl;
              counted = rw (offers, hit, deposit, deliver) refl;
            },
            rw (offers, hit, deposit, deliver)
                (λ token.
                  All-weaken (HasInbox mesh.bus) _ _ (λ x h. HasInbox-insert mesh.bus chosen _ x h)
                    (served token)),
          )
    ]
