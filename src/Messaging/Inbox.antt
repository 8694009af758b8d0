-- ===== src/Messaging/Inbox.antt =====
-- The order in which `receive` of sdk/src/messaging.rs hands messages out.
use ckos.Base.{
  ℕ, ◌≤◌, String, List, [], ◌∷◌, false, get_or, ◌≡◌, refl, arith, leb, ◌==◌, nat_eq, string_eq,
  keep, All, All-mono, Bool-cases, Option-cases, inl, inr,
}
use text.Mathlib.TextEquality.{eq_iff}
use ckos.Base.Map
use ckos.Base.Map.{get-insert, get-insert_self}
use ckos.Kernel.Task.{rank}
use ckos.Messaging.{
  Message, MessageBus, place, sort_by_priority, receive, drain, pending, is_registered,
}

-- No message before one that is more urgent.
abbrev pub IsSorted : List Message → Type 0
IsSorted [] = Unit
IsSorted (x ∷ xs) = All (λ y. rank y.priority ≤ rank x.priority) xs × IsSorted xs

-- The messages of one priority, in their order.
abbrev pub of_rank : ℕ → List Message → List Message
of_rank n ms = keep (λ m. rank m.priority == n) ms

place-All :
    (P : Message → Type 0) (m : Message) (xs : List Message) → P m → All P xs → All P (place m xs)
unfolding place
place-All P m [] h k = (h, tt)
place-All P m (x ∷ xs) h k = elim (Bool-cases (leb (rank x.priority) (rank m.priority))) [
  | inl before ↦ rw before (h, k)
  | inr after ↦ rw after (k.0, place-All P m xs h k.1)
]

place-IsSorted : (m : Message) (xs : List Message) → IsSorted xs → IsSorted (place m xs)
unfolding place
place-IsSorted m [] h = (tt, tt)
place-IsSorted m (x ∷ xs) h = elim (Bool-cases (leb (rank x.priority) (rank m.priority))) [
  | inl before ↦
      let least : rank x.priority ≤ rank m.priority = ground arith in
      rw before (
        (
          least,
          All-mono (λ y. rank y.priority ≤ rank x.priority) _ xs (λ y le. omega (arith, le, least))
              h.0,
        ),
        h,
      )
  | inr after ↦ rw after (
    place-All (λ y. rank y.priority ≤ rank x.priority) m xs (ground arith) h.0,
    place-IsSorted m xs h.1,
  )
]

of_rank-place :
    (n : ℕ) (m : Message) (xs : List Message) → of_rank n (place m xs) ≡ of_rank n (m ∷ xs)
unfolding place
of_rank-place n m [] = refl
of_rank-place n m (x ∷ xs) = ground (arith, of_rank-place n m xs)

sort-IsSorted : (ms : List Message) → IsSorted (sort_by_priority ms)
unfolding sort_by_priority
sort-IsSorted [] = tt
sort-IsSorted (m ∷ ms) = place-IsSorted m (sort_by_priority ms) (sort-IsSorted ms)

of_rank-sort : (n : ℕ) (ms : List Message) → of_rank n (sort_by_priority ms) ≡ of_rank n ms
unfolding sort_by_priority
of_rank-sort n [] = refl
of_rank-sort n (m ∷ ms) = ground (arith, of_rank-place n m (sort_by_priority ms), of_rank-sort n ms)

-- What an agent gets and what stays.
pub record IsReceived (bus : MessageBus) (agent : String) (out : List Message × MessageBus)
    : Type 0 where
  pub sorted : IsSorted out.0
  pub first_come : (n : ℕ) → of_rank n out.0 ≡ of_rank n (get_or (Map.get bus.inboxes agent) [])
  pub emptied : pending out.1 agent ≡ 0
  pub others : (b : String) → (agent == b) ≡ false → Map.get out.1.inboxes b ≡ Map.get bus.inboxes b
  pub registered : (b : String) → is_registered out.1 b ≡ is_registered bus b

-- `receive` hands out the messages of the inbox, the more urgent first and those of one priority in
-- the order of their arrival, none lost and none added; the inbox is empty then, every other inbox is
-- as before, and so is who is registered.
pub receive-IsReceived :
    (bus : MessageBus) (agent : String) → IsReceived bus agent (receive bus agent)
unfolding receive pending is_registered
receive-IsReceived bus agent = elim (Option-cases (Map.get bus.inboxes agent)) [
  | inl miss ↦
      rw (miss, drain)
        (record {
          sorted = tt;
          first_come = λ n. rw miss refl;
          emptied = rw miss refl;
          others = λ b h. refl;
          registered = λ b. refl;
        })
  | inr (inbox, hit) ↦
      rw (hit, drain)
        (record {
          sorted = sort-IsSorted inbox;
          first_come = λ n. rw hit (of_rank-sort n inbox);
          emptied = rw (get-insert_self bus.inboxes agent []) refl;
          others = λ b h. rw (get-insert bus.inboxes agent b [], h) refl;
          registered =
              λ b. rw (get-insert bus.inboxes agent b []) (ground (arith, hit, eq_iff agent b));
        })
]
