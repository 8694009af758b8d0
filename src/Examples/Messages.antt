-- ===== src/Examples/Messages.antt =====
-- The message bus and the mesh of sdk/src/messaging.rs at concrete inputs.
use ckos.Base.{
  String, [], ◌∷◌, none, some, map, ◌≡◌, ◌⊎◌, ◌%◌, refl, arith, get_elem?, length, Bool-cases, ◌==◌,
  string_eq, inl, inr,
}
use ckos.Base.Map
use ckos.Kernel.Capability.{coding, vision, as_token}
use ckos.Kernel.Error.{ok, err, capability_unavailable}
use ckos.Kernel.Task.{Priority, low, critical}
use ckos.Messaging.{Message, MessageBus, Payload, ServiceMesh, receive, route, register_provider}
use ckos.Messaging.Inbox.{IsReceived, receive-IsReceived}
use ckos.Messaging.Routing.{IsServed, IsRouted, offered, turn}
use ckos.Messaging.Turns.{route_cases, register_provider-IsServed, route_all, route_all-turns}

abbrev nothing : Payload
nothing = record { graph_id = none; memory_ref = none; body = "" }

abbrev letter : String → Priority → Message
letter id p = record {
  id = id;
  source = "a0";
  destination = "a1";
  msg_type = "note";
  priority = p;
  payload = nothing;
}

abbrev post : MessageBus
post = record {
  inboxes = ("a1", letter "m1" low ∷ letter "m2" critical ∷ letter "m3" low ∷ []) ∷ ("a2", []) ∷ [];
}

receive-IsReceived_example : IsReceived post "a1" (receive post "a1")
receive-IsReceived_example = receive-IsReceived post "a1"

abbrev team : ServiceMesh
team = record {
  bus = post;
  providers = ("coding", "a1" ∷ "a2" ∷ []) ∷ [];
  cursor = [];
  delivered = 0;
}

team-IsServed : IsServed team
unfolding Map.get
team-IsServed token = elim (Bool-cases ("coding" == token)) [
  | inl same ↦ rw same (refl, (refl, tt))
  | inr differ ↦ rw differ tt
]

register_provider-IsServed_example : IsServed (register_provider team "a3" vision)
register_provider-IsServed_example = register_provider-IsServed team "a3" vision team-IsServed

route_cases_example :
    ((offered team coding ≡ [])
      × (route team "m4" "a0" coding "note" nothing
          ≡ (err (capability_unavailable (as_token coding)), team)))
    ⊎ ((chosen : String) × (rest : ServiceMesh) × (get_elem?
            (offered team coding)
            (turn team coding % length (offered team coding))
          ≡ some chosen)
        × (route team "m4" "a0" coding "note" nothing ≡ (ok chosen, rest))
        × IsRouted team rest coding chosen
        × IsServed rest)
route_cases_example = route_cases team "m4" "a0" coding "note" nothing team-IsServed

route_all-turns_example :
    (route_all team ("m4" ∷ "m5" ∷ []) "a0" coding "note" nothing).0 ≡ map ok ("a1" ∷ "a2" ∷ [])
unfolding Map.get as_token
route_all-turns_example =
    route_all-turns team ("m4" ∷ "m5" ∷ []) "a0" coding "note" nothing team-IsServed refl refl
      (omega arith)
