-- ===== src/Kernel/Event/Subscriptions.antt =====
-- Subscriptions of the bus of kernel/src/event.rs: their ids are fresh, and a removed subscriber is
-- never called again while the others are called as before.
use ckos.Base.{
  ℕ, ◌+◌, ◌%◌, ◌≤◌, ◌<◌, eq_self, List, [], ◌∷◌, ◌++◌, not, ◌≡◌, refl, arith, ◌==◌, nat_eq, keep,
  All, All-append,
}
use mathlib.Core.List.{append-nil}
use ckos.Kernel.Event.{Event, Bus, usize_mod, call_all, publish, subscribe, unsubscribe}

abbrev pub Subs : Type 0 → Type 0
Subs W = List (ℕ × (Event → W → W))

-- Every id in use was handed out before the next one.
abbrev pub Below : {W : Type 0} → ℕ → Subs W → Type 0
Below n = All (λ s. s.0 < n)

module _ {W : Type 0} where
  abbrev pub IsFresh : Bus W → Type 0
  IsFresh bus = Below bus.next_id bus.inner

  Below-mono : (n m : ℕ) (subs : Subs W) → n ≤ m → Below n subs → Below m subs
  Below-mono n m [] le h = tt
  Below-mono n m (s ∷ subs) le h = (omega arith, Below-mono n m subs le h.1)

  keep-Below :
      (n id : ℕ) (subs : Subs W) → Below n subs → Below n (keep (λ s. not (s.0 == id)) subs)
  keep-Below n id [] h = tt
  keep-Below n id (s ∷ subs) h = ground (arith, keep-Below n id subs h.1)

  keep_others : (n : ℕ) (subs : Subs W) → Below n subs → keep (λ s. not (s.0 == n)) subs ≡ subs
  keep_others n [] h = refl
  keep_others n (s ∷ subs) h = ground (arith, keep_others n subs h.1)

  keep-append :
      (n : ℕ) (subs more : Subs W)
      → keep (λ s. not (s.0 == n)) (subs ++ more)
        ≡ keep (λ s. not (s.0 == n)) subs ++ keep (λ s. not (s.0 == n)) more
  keep-append n [] more = refl
  keep-append n (s ∷ subs) more = ground (arith, keep-append n subs more)

  -- Subscribing keeps every id below the counter, as long as the counter does not wrap around.
  pub subscribe-IsFresh :
      (f : Event → W → W) (bus : Bus W)
      → bus.next_id + 1 < usize_mod
      → IsFresh bus
      → IsFresh (subscribe f bus).1
  unfolding subscribe
  subscribe-IsFresh f bus room h =
      All-append (λ s. s.0 < (bus.next_id + 1) % usize_mod) bus.inner _
        (Below-mono bus.next_id _ bus.inner (omega arith) h) (omega arith, tt)

  pub unsubscribe-IsFresh : (id : ℕ) (bus : Bus W) → IsFresh bus → IsFresh (unsubscribe id bus)
  unfolding unsubscribe
  unsubscribe-IsFresh id bus h = keep-Below bus.next_id id bus.inner h

  call_all-append :
      (subs more : Subs W) (event : Event) (w : W)
      → call_all (subs ++ more) event w ≡ call_all more event (call_all subs event w)
  unfolding call_all
  call_all-append [] more event w = refl
  call_all-append (s ∷ subs) more event w = call_all-append subs more event (s.1 event w)

  -- A new subscriber is called after the others with each event, and once it is unsubscribed by the
  -- id that it got, publishing does what it did before, if the ids in use are below the counter.
  pub publish-subscribe :
      (f : Event → W → W) (bus : Bus W) (event : Event) (w : W)
      → IsFresh bus
      → (publish (subscribe f bus).1 event w ≡ f event (publish bus event w))
        × (publish (unsubscribe (subscribe f bus).0 (subscribe f bus).1) event w
            ≡ publish bus event w)
  unfolding publish subscribe unsubscribe
  publish-subscribe f bus event w h = (
    call_all-append bus.inner ((bus.next_id, f) ∷ []) event w,
    rw (
      keep-append bus.next_id bus.inner ((bus.next_id, f) ∷ []),
      keep_others bus.next_id bus.inner h,
      eq_self bus.next_id,
      append-nil,
    ),
  )
