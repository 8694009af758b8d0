-- ===== src/Kernel/Task.antt =====
-- kernel/src/task.rs: the task, its states and the validated transitions between them.
pub mod Lifecycle
use ckos.Base.{
  ℕ, ◌+◌, ◌%◌, ◌^◌, String, List, [], ◌∷◌, ◌++◌, ◌≡◌, ◌↔◌, Bool, true, false, Option, none, some,
  arith, Eq, if◌then◌else◌, ◌==◌, string_eq, concat, normalised,
}
use ckos.Kernel.Capability.{Capability}
use ckos.Kernel.Error.{Result, ok, err, other, invalid_transition}

pub data TaskState : Type 0 where
  created queued planning running verifying completed failed rollback retry : TaskState

-- `TaskState::name`
unfoldable pub name : TaskState → String
name created = "Created"
name queued = "Queued"
name planning = "Planning"
name running = "Running"
name verifying = "Verifying"
name completed = "Completed"
name failed = "Failed"
name rollback = "Rollback"
name retry = "Retry"

-- The derived `PartialEq`.
abbrev pub state_beq : TaskState → TaskState → Bool
state_beq created created = true
state_beq queued queued = true
state_beq planning planning = true
state_beq running running = true
state_beq verifying verifying = true
state_beq completed completed = true
state_beq failed failed = true
state_beq rollback rollback = true
state_beq retry retry = true
state_beq _ _ = false

pub state_beq_iff : (a b : TaskState) → (state_beq a b ≡ true) ↔ (a ≡ b)
state_beq_iff a b = ground arith

instance abbrev pub state_eq : Eq TaskState
state_eq = record { test = state_beq; decides = state_beq_iff }

unfoldable pub is_terminal : TaskState → Bool
is_terminal completed = true
is_terminal _ = false

unfoldable pub can_transition_to : TaskState → TaskState → Bool
can_transition_to created queued = true
can_transition_to queued planning = true
can_transition_to queued running = true
can_transition_to planning running = true
can_transition_to running verifying = true
can_transition_to running failed = true
can_transition_to verifying completed = true
can_transition_to verifying failed = true
can_transition_to failed rollback = true
can_transition_to rollback retry = true
can_transition_to retry queued = true
can_transition_to _ _ = false

pub data Priority : Type 0 where
  low normal high critical : Priority

-- `Priority::as_token`
unfoldable pub priority_token : Priority → String
priority_token low = "low"
priority_token normal = "normal"
priority_token high = "high"
priority_token critical = "critical"

-- the `match` of `FromStr`
unfoldable pub priority_of : String → Result Priority
priority_of t =
    if t == "low"
    then ok low
    else if t == "normal"
    then ok normal
    else if t == "high"
    then ok high
    else if t == "critical"
    then ok critical
    else err (other (concat ("unknown priority: " ∷ t ∷ [])))

unfoldable pub priority_from_str : String → Result Priority
unfolding priority_of normalised
priority_from_str s = priority_of (normalised s)

-- The derived `Ord`, as the position in the declaration.
abbrev pub rank : Priority → ℕ
rank low = 0
rank normal = 1
rank high = 2
rank critical = 3

abbrev pub is_normal : Priority → Bool
is_normal normal = true
is_normal _ = false

pub record Task : Type 0 where
  pub id : String
  pub workflow : Option String
  pub description : String
  pub capability : Capability
  pub priority : Priority
  pub depends_on : List String
  pub state : TaskState
  pub attempts : ℕ

-- `Task::new`, given the id that `TaskId::new` minted
unfoldable pub new : String → String → Capability → Task
new id description capability = record {
  id = id;
  workflow = none;
  description = description;
  capability = capability;
  priority = normal;
  depends_on = [];
  state = created;
  attempts = 0;
}

unfoldable pub with_priority : Task → Priority → Task
with_priority t p = record t { priority = p }

unfoldable pub depending_on : Task → String → Task
depending_on t dep = record t { depends_on = t.depends_on ++ dep ∷ [] }

unfoldable pub in_workflow : Task → String → Task
in_workflow t wf = record t { workflow = some wf }

-- `attempts` is a `u32`.
abbrev pub u32_mod : ℕ
u32_mod = 2 ^ 32

abbrev pub is_retry : TaskState → Bool
is_retry retry = true
is_retry _ = false

-- `transition_to`: the result and the task that it leaves
unfoldable pub transition_to : TaskState → Task → Result (Unit {0}) × Task
unfolding can_transition_to
transition_to next t =
    if can_transition_to t.state next
    then (
      ok tt,
      record t {
        attempts = if is_retry next then (t.attempts + 1) % u32_mod else t.attempts;
        state = next;
      },
    )
    else (err (invalid_transition (name t.state) (name next)), t)
