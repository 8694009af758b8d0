-- ===== src/Messaging.antt =====
-- sdk/src/messaging.rs: messages between agents, the bus with an inbox for each agent, and the mesh
-- that routes by capability. The ids of messages, which a counter of the process mints, are arguments.
pub mod Inbox
pub mod Routing
pub mod Turns
use ckos.Base.{
  ℕ, ◌+◌, ◌%◌, String, List, [], ◌∷◌, ◌++◌, Bool, Option, none, some, is_some, get_or, leb,
  if◌then◌else◌, length, get_elem?, string_eq, concat,
}
use ckos.Base.Map
use ckos.Base.Map.{Map}
use ckos.Kernel.Capability.{Capability, as_token}
use ckos.Kernel.Error.{Result, ok, err, not_found, capability_unavailable}
use ckos.Kernel.Event.{usize_mod}
use ckos.Kernel.Task.{Priority, normal, rank}

pub record Payload : Type 0 where
  pub graph_id : Option String
  pub memory_ref : Option String
  pub body : String

pub record Message : Type 0 where
  pub id : String
  pub source : String
  pub destination : String
  pub msg_type : String
  pub priority : Priority
  pub payload : Payload

-- `Message::new`, given its id
unfoldable pub new_message : (id source destination msg_type : String) → Message
new_message id source destination msg_type = record {
  id = id;
  source = source;
  destination = destination;
  msg_type = msg_type;
  priority = normal;
  payload = record { graph_id = none; memory_ref = none; body = "" };
}

unfoldable pub with_priority : Message → Priority → Message
with_priority m p = record m { priority = p }

unfoldable pub with_body : Message → String → Message
with_body m body = record m { payload = record m.payload { body = body } }

unfoldable pub with_graph : Message → String → Message
with_graph m id = record m { payload = record m.payload { graph_id = some id } }

unfoldable pub with_memory : Message → String → Message
with_memory m id = record m { payload = record m.payload { memory_ref = some id } }

pub record MessageBus : Type 0 where
  pub inboxes : Map String (List Message)

unfoldable pub new_bus : MessageBus
new_bus = record { inboxes = [] }

-- `entry(agent).or_default()`
unfoldable pub register : MessageBus → String → MessageBus
register bus agent = record {
  inboxes =
      if is_some (Map.get bus.inboxes agent) then bus.inboxes else Map.insert bus.inboxes agent [];
}

unfoldable pub is_registered : MessageBus → String → Bool
is_registered bus agent = is_some (Map.get bus.inboxes agent)

unfoldable pub deposit :
    Option (List Message) → MessageBus → Message → Result (Unit {0}) × MessageBus
deposit none bus message = (err (not_found (concat ("inbox for " ∷ message.destination ∷ []))), bus)
deposit (some inbox) bus message =
    (ok tt, record { inboxes = Map.insert bus.inboxes message.destination (inbox ++ message ∷ []) })

unfoldable pub send : MessageBus → Message → Result (Unit {0}) × MessageBus
unfolding deposit
send bus message = deposit (Map.get bus.inboxes message.destination) bus message

-- The stable sort by falling priority: a message goes before the first that is no more urgent.
unfoldable pub place : Message → List Message → List Message
place m [] = m ∷ []
place m (x ∷ xs) =
    let rest = place m xs in
    if leb (rank x.priority) (rank m.priority) then m ∷ x ∷ xs else x ∷ rest

unfoldable pub sort_by_priority : List Message → List Message
unfolding place
sort_by_priority [] = []
sort_by_priority (m ∷ ms) = place m (sort_by_priority ms)

unfoldable pub drain : Option (List Message) → MessageBus → String → List Message × MessageBus
unfolding sort_by_priority
drain none bus agent = ([], bus)
drain (some inbox) bus agent =
    (sort_by_priority inbox, record { inboxes = Map.insert bus.inboxes agent [] })

unfoldable pub receive : MessageBus → String → List Message × MessageBus
unfolding drain
receive bus agent = drain (Map.get bus.inboxes agent) bus agent

unfoldable pub pending : MessageBus → String → ℕ
pending bus agent = length (get_or (Map.get bus.inboxes agent) [])

pub record ServiceMesh : Type 0 where
  pub bus : MessageBus
  pub providers : Map String (List String)
  pub cursor : Map String ℕ
  pub delivered : ℕ

unfoldable pub new_mesh : ServiceMesh
unfolding new_bus
new_mesh = record { bus = new_bus; providers = []; cursor = []; delivered = 0 }

unfoldable pub register_provider : ServiceMesh → String → Capability → ServiceMesh
unfolding register as_token
register_provider mesh agent capability =
    let known = get_or (Map.get mesh.providers (as_token capability)) [] in
    record mesh {
      bus = register mesh.bus agent;
      providers = Map.insert mesh.providers (as_token capability) (known ++ agent ∷ []);
    }

-- `providers[cursor % providers.len()]` of a list that is not empty; the index is in range
unfoldable pub choose : ℕ → String → List String → String
choose cursor p ps = get_or (get_elem? (p ∷ ps) (cursor % length (p ∷ ps))) p

-- the end of `route`, after the message was sent
unfoldable pub deliver :
    String → Result (Unit {0}) × MessageBus → ServiceMesh → Result String × ServiceMesh
deliver chosen (ok u, bus) mesh =
    (ok chosen, record mesh { bus = bus; delivered = (mesh.delivered + 1) % usize_mod })
deliver chosen (err e, bus) mesh = (err e, record mesh { bus = bus })

-- `route` to one of the providers that were looked up under the token
unfoldable pub route_among :
    Option (List String)
    → ServiceMesh
    → (id source token msg_type : String) → Payload
    → Result String × ServiceMesh
unfolding choose deliver send new_message
route_among none mesh id source token msg_type payload = (err (capability_unavailable token), mesh)
route_among (some []) mesh id source token msg_type payload =
    (err (capability_unavailable token), mesh)
route_among (some (p ∷ ps)) mesh id source token msg_type payload =
    let at = get_or (Map.get mesh.cursor token) 0 in
    let chosen = choose at p ps in
    let message = record (new_message id source chosen msg_type) { payload = payload } in
    deliver chosen (send mesh.bus message)
      (record mesh { cursor = Map.insert mesh.cursor token ((at + 1) % usize_mod) })

unfoldable pub route :
    ServiceMesh → (id source : String) → Capability → String → Payload → Result String × ServiceMesh
unfolding route_among as_token
route mesh id source capability msg_type payload =
    let token = as_token capability in
    route_among (Map.get mesh.providers token) mesh id source token msg_type payload
