-- ===== src/Kernel/Event.antt =====
-- kernel/src/event.rs: the events and the in-memory bus. A subscriber is a function on the world `W`
-- that callbacks act on. The locks and their recovery from poisoning are not modelled: each method
-- of the bus runs under one lock, so it is one step.
pub mod Subscriptions
use ckos.Base.{
  ℕ, ◌+◌, ◌%◌, ◌^◌, ◌<◌, String, List, [], ◌∷◌, ◌++◌, map, Bool, true, false, not, ◌≡◌, refl, arith,
  ◌==◌, nat_eq, if◌then◌else◌, keep, All,
}

pub data Event : Type 0 where
  task_started : String → Event
  task_completed : String → Event
  task_failed : (task reason : String) → Event
  graph_changed : String → Event
  policy_violation : (subject action : String) → Event
  workflow_completed : String → Event

-- The usize counter of subscription ids.
abbrev pub usize_mod : ℕ
usize_mod = 2 ^ 64

pub record Bus (W : Type 0) : Type 0 where
  pub inner : List (ℕ × (Event → W → W))
  pub next_id : ℕ

module _ {W : Type 0} where
  unfoldable pub new : Bus W
  new = record { inner = []; next_id = 0 }

  -- the callbacks, in the order of subscription
  unfoldable pub call_all : List (ℕ × (Event → W → W)) → Event → W → W
  call_all [] event w = w
  call_all ((id, sub) ∷ subs) event w = call_all subs event (sub event w)

  unfoldable pub publish : Bus W → Event → W → W
  unfolding call_all
  publish bus event w = call_all bus.inner event w

  unfoldable pub subscribe : (Event → W → W) → Bus W → ℕ × Bus W
  subscribe subscriber bus =
      let id = bus.next_id in
      (
        id,
        record bus { inner = bus.inner ++ (id, subscriber) ∷ []; next_id = (id + 1) % usize_mod },
      )

  unfoldable pub unsubscribe : ℕ → Bus W → Bus W
  unsubscribe id bus = record bus { inner = keep (λ s. not (s.0 == id)) bus.inner }
