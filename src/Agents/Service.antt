-- ===== src/Agents/Service.antt =====
-- An agent of sdk/src/agent.rs that is out of service is not handed out.
use ckos.Base.{
  String, List, [], ◌∷◌, true, Option, some, ◌≡◌, arith, AnyOf, keep, string_eq, get_or, ◌==◌,
  Option-cases, Bool-cases, inl, inr, ◌⊎◌, sym, ◌∙◌, if◌then◌else◌,
}
use mathlib.Core.Path.{subst}
use text.Mathlib.TextEquality.{eq_iff}
use ckos.Base.Map
use ckos.Base.Map.{Map, get-insert}
use ckos.Kernel.Capability.{Capability, as_token}
use ckos.Agents.{
  AgentInstance, AgentState, terminated, CapabilityRegistry, can_transition_to, in_service,
  instances, discover, transition, transition_found,
}

-- Every instance is stored under its own id.
abbrev pub IsKeyed : CapabilityRegistry → Type 0
IsKeyed reg =
    (id : String) (a : AgentInstance) → Map.get reg.agents id ≡ some a → a.instance_id ≡ id

-- Every transition of a list in turn; a refused one changes nothing.
abbrev pub transition_all : CapabilityRegistry → List (String × AgentState) → CapabilityRegistry
transition_all reg [] = reg
transition_all reg ((id, next) ∷ rest) = transition_all (transition reg id next).1 rest

-- Looking an agent up after a transition.
get-transition :
    (reg : CapabilityRegistry) (id j : String) (next : AgentState) (a : AgentInstance)
    → Map.get reg.agents j ≡ some a
    → a.state ≡ terminated
    → Map.get (transition reg id next).1.agents j ≡ some a
unfolding transition can_transition_to
get-transition reg id j next a h dead = elim (Option-cases (Map.get reg.agents id)) [
  | inl miss ↦ rw (miss, transition) h
  | inr (b, hit) ↦ elim (Bool-cases (can_transition_to b.state next)) [
    | inr refused ↦ rw (hit, transition, refused) h
    | inl moved ↦
        rw (hit, transition, moved, get-insert reg.agents id j (record b { state = next }))
          (ground (arith, eq_iff id j))
  ]
]

transition-IsKeyed :
    (reg : CapabilityRegistry) (id : String) (next : AgentState)
    → IsKeyed reg
    → IsKeyed (transition reg id next).1
unfolding transition
transition-IsKeyed reg id next keyed = elim (Option-cases (Map.get reg.agents id)) [
  | inl miss ↦ rw (miss, transition_found) keyed
  | inr (b, hit) ↦ elim (Bool-cases (can_transition_to b.state next)) [
    | inr refused ↦ rw (hit, transition_found, refused) keyed
    | inl moved ↦
        rw (hit, transition_found, moved)
          (λ j a h.
            let found : (if id == j then some (record b { state = next }) else Map.get reg.agents j)
                ≡ some a =
              rw (get-insert reg.agents id j (record b { state = next })) at h in
            ground (arith, eq_iff id j, keyed id b hit, keyed j a))
  ]
]

-- Whoever is discovered is registered under some id and in service.
discovered :
    (P : AgentInstance → Type 0) (m : Map String AgentInstance) (ids : List String)
    → AnyOf P (keep (λ a. in_service a.state) (instances m ids))
    → (id : String) × (b : AgentInstance) × (Map.get m id ≡ some b)
      × (in_service b.state ≡ true)
      × P b
unfolding instances
discovered P m [] h = absurd h
discovered P m (id ∷ ids) h = elim (Option-cases (Map.get m id)) [
  | inl miss ↦ discovered P m ids (rw (miss, instances) at h)
  | inr (b, hit) ↦ elim (Bool-cases (in_service b.state)) [
    | inr away ↦ discovered P m ids (rw (hit, instances, away) at h)
    | inl here ↦
        (let h' : P b ⊎ AnyOf P (keep (λ a. in_service a.state) (instances m ids)) =
            rw (hit, instances, here) at h in
          elim h' [ inl p ↦ (id, b, hit, here, p) | inr later ↦ discovered P m ids later ])
  ]
]

out_of_service :
    (o : Option AgentInstance) (a b : AgentInstance)
    → o ≡ some a
    → o ≡ some b
    → a.state ≡ terminated
    → in_service b.state ≡ true
    → ⊥
unfolding in_service
out_of_service o a b h k dead serving = ground arith

never_again :
    (reg : CapabilityRegistry) (j : String) (a : AgentInstance) (cap : Capability)
    → IsKeyed reg
    → Map.get reg.agents j ≡ some a
    → a.state ≡ terminated
    → ¬ AnyOf (λ b. b.instance_id ≡ j) (discover reg cap)
unfolding discover
never_again reg j a cap keyed h dead found =
    let (id, b, hit, serving, own) =
      discovered (λ b. b.instance_id ≡ j) reg.agents
        (get_or (Map.get reg.by_capability (as_token cap)) []) found in
    let e : id ≡ j = sym (keyed id b hit) ∙ own in
    let same : Map.get reg.agents j ≡ some b = subst (λ k. Map.get reg.agents k ≡ some b) e hit in
    out_of_service (Map.get reg.agents j) a b h same dead serving

-- If every instance is stored under its own id, then once an agent is terminated, no later
-- transitions, of whatever agents and refused or not, let `discover` hand it out again.
pub terminated-discover :
    (reg : CapabilityRegistry) (ops : List (String × AgentState)) (j : String) (a : AgentInstance)
    (cap : Capability)
    → IsKeyed reg
    → Map.get reg.agents j ≡ some a
    → a.state ≡ terminated
    → ¬ AnyOf (λ b. b.instance_id ≡ j) (discover (transition_all reg ops) cap)
terminated-discover reg [] j a cap keyed h dead = never_again reg j a cap keyed h dead
terminated-discover reg ((id, next) ∷ ops) j a cap keyed h dead =
    terminated-discover (transition reg id next).1 ops j a cap
      (transition-IsKeyed reg id next keyed) (get-transition reg id j next a h dead) dead
