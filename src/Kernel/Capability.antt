-- ===== src/Kernel/Capability.antt =====
-- kernel/src/capability.rs: the capabilities that tasks need and agents and runtimes offer.
use ckos.Base.{
  String, List, [], ◌∷◌, ◌≡◌, ◌↔◌, Bool, true, false, arith, Eq, ◌==◌, string_eq, if◌then◌else◌,
  normalised,
}

pub data Capability : Type 0 where
  planning reasoning coding translation embedding retrieval verification : Capability
  simulation vision speech robotics finance medical legal : Capability
  custom : String → Capability

unfoldable pub as_token : Capability → String
as_token planning = "planning"
as_token reasoning = "reasoning"
as_token coding = "coding"
as_token translation = "translation"
as_token embedding = "embedding"
as_token retrieval = "retrieval"
as_token verification = "verification"
as_token simulation = "simulation"
as_token vision = "vision"
as_token speech = "speech"
as_token robotics = "robotics"
as_token finance = "finance"
as_token medical = "medical"
as_token legal = "legal"
as_token (custom s) = s

-- `FromStr`, which never fails
unfoldable pub from_str : String → Capability
unfolding normalised
from_str s =
    let t = normalised s in
    if t == "planning"
    then planning
    else if t == "reasoning"
    then reasoning
    else if t == "coding"
    then coding
    else if t == "translation"
    then translation
    else if t == "embedding"
    then embedding
    else if t == "retrieval"
    then retrieval
    else if t == "verification"
    then verification
    else if t == "simulation"
    then simulation
    else if t == "vision"
    then vision
    else if t == "speech"
    then speech
    else if t == "robotics"
    then robotics
    else if t == "finance"
    then finance
    else if t == "medical"
    then medical
    else if t == "legal"
    then legal
    else custom t

unfoldable pub builtin : List Capability
builtin =
    planning ∷ reasoning ∷ coding ∷ translation ∷ embedding ∷ retrieval ∷ verification ∷ simulation
    ∷ vision ∷ speech ∷ robotics ∷ finance ∷ medical ∷ legal ∷ []

-- The derived `PartialEq`.
abbrev pub capability_beq : Capability → Capability → Bool
capability_beq planning planning = true
capability_beq reasoning reasoning = true
capability_beq coding coding = true
capability_beq translation translation = true
capability_beq embedding embedding = true
capability_beq retrieval retrieval = true
capability_beq verification verification = true
capability_beq simulation simulation = true
capability_beq vision vision = true
capability_beq speech speech = true
capability_beq robotics robotics = true
capability_beq finance finance = true
capability_beq medical medical = true
capability_beq legal legal = true
capability_beq (custom s) (custom t) = s == t
capability_beq _ _ = false

pub capability_beq_iff : (a b : Capability) → (capability_beq a b ≡ true) ↔ (a ≡ b)
capability_beq_iff (custom s) (custom t) = ground (arith, string_eq.decides s t)
capability_beq_iff planning b = ground arith
capability_beq_iff reasoning b = ground arith
capability_beq_iff a b = ground arith

instance abbrev pub capability_eq : Eq Capability
capability_eq = record { test = capability_beq; decides = capability_beq_iff }
