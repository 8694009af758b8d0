-- ===== src/Agents.antt =====
-- sdk/src/agent.rs: agents, their lifecycle and the registry that finds them by capability. The
-- reading of manifests (`from_manifest`) is not modelled here.
pub mod Service
use ckos.Base.{
  String, List, [], ◌∷◌, ◌++◌, Bool, true, false, not, Option, none, some, get_or, if◌then◌else◌,
  keep, string_eq, concat,
}
use ckos.Base.Map
use ckos.Base.Map.{Map}
use ckos.Kernel.Capability.{Capability, as_token}
use ckos.Kernel.Error.{Result, ok, err, invalid_transition, not_found}
use ckos.Kernel.Task.{Priority, normal}

pub record AgentManifest : Type 0 where
  pub id : String
  pub version : String
  pub description : String
  pub capabilities : List Capability
  pub memory : List String
  pub runtimes : List String
  pub permissions : List String
  pub priority : Priority

-- `AgentManifest::new`
unfoldable pub new_manifest : String → Capability → AgentManifest
new_manifest id capability = record {
  id = id;
  version = "0.1.0";
  description = "";
  capabilities = capability ∷ [];
  memory = [];
  runtimes = [];
  permissions = [];
  priority = normal;
}

pub data AgentState : Type 0 where
  installed registered loaded ready running suspended terminated : AgentState

unfoldable pub can_transition_to : AgentState → AgentState → Bool
can_transition_to installed registered = true
can_transition_to registered loaded = true
can_transition_to loaded ready = true
can_transition_to ready running = true
can_transition_to running suspended = true
can_transition_to running terminated = true
can_transition_to suspended ready = true
can_transition_to suspended terminated = true
can_transition_to ready terminated = true
can_transition_to _ _ = false

pub record AgentInstance : Type 0 where
  pub instance_id : String
  pub manifest : AgentManifest
  pub state : AgentState

pub record CapabilityRegistry : Type 0 where
  pub agents : Map String AgentInstance
  pub by_capability : Map String (List String)

unfoldable pub new : CapabilityRegistry
new = record { agents = []; by_capability = [] }

-- the loop of `register` over the capabilities of the manifest
unfoldable pub index_all :
    Map String (List String) → List Capability → String → Map String (List String)
index_all index [] id = index
index_all index (cap ∷ caps) id =
    let ids = get_or (Map.get index (as_token cap)) [] in
    index_all (Map.insert index (as_token cap) (ids ++ id ∷ [])) caps id

-- `register`, given the id that `AgentId::new` minted
unfoldable pub register : CapabilityRegistry → String → AgentManifest → CapabilityRegistry
unfolding index_all as_token
register reg id manifest = record {
  agents =
      Map.insert reg.agents id
        (record { instance_id = id; manifest = manifest; state = registered });
  by_capability = index_all reg.by_capability manifest.capabilities id;
}

unfoldable pub in_service : AgentState → Bool
in_service suspended = false
in_service terminated = false
in_service _ = true

-- `filter_map(|id| agents.get(id))`
unfoldable pub instances : Map String AgentInstance → List String → List AgentInstance
instances agents [] = []
instances agents (id ∷ ids) =
    let rest = instances agents ids in elim (Map.get agents id) [ none ↦ rest | some a ↦ a ∷ rest ]

unfoldable pub discover : CapabilityRegistry → Capability → List AgentInstance
unfolding instances in_service as_token
discover reg cap =
    keep (λ a. in_service a.state)
      (instances reg.agents (get_or (Map.get reg.by_capability (as_token cap)) []))

-- `transition` on the agent that was looked up
unfoldable pub transition_found :
    Option AgentInstance
    → CapabilityRegistry
    → String
    → AgentState
    → Result (Unit {0}) × CapabilityRegistry
unfolding can_transition_to
transition_found none reg id next = (err (not_found (concat ("agent " ∷ id ∷ []))), reg)
transition_found (some agent) reg id next =
    if can_transition_to agent.state next
    then (ok tt, record reg { agents = Map.insert reg.agents id (record agent { state = next }) })
    else (err (invalid_transition "agent-state" "agent-state"), reg)

unfoldable pub transition :
    CapabilityRegistry → String → AgentState → Result (Unit {0}) × CapabilityRegistry
unfolding transition_found
transition reg id next = transition_found (Map.get reg.agents id) reg id next
