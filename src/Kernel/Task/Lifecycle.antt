-- ===== src/Kernel/Task/Lifecycle.antt =====
-- What every history of a task obeys, under the transitions of kernel/src/task.rs.
use ckos.Base.{
  ℕ, ◌+◌, ◌%◌, ◌<◌, ◌≡◌, ◌≢◌, refl, ap, inl, inr, List, [], ◌∷◌, ◌++◌, true, false, arith, ◌==◌,
  Bool-cases, if◌then◌else◌, ◌↔◌, ◌∙◌, sym,
}
use ckos.Kernel.Error.{ok}
use ckos.Kernel.Task.{
  TaskState, created, queued, running, verifying, completed, failed, rollback, retry, planning,
  Task, transition_to, can_transition_to, is_terminal, state_eq, u32_mod, state_beq_iff,
}

-- A run: the states entered one after the other by transitions that were all accepted.
pub data Run : Task → List TaskState → Task → Type 0 where
  done : (t : Task) → Run t [] t
  step :
      (x : TaskState) {t u v : Task} {xs : List TaskState}
      → transition_to x t ≡ (ok tt, u)
      → Run u xs v
      → Run t (x ∷ xs) v

-- How often `retry` is entered.
abbrev pub retries : List TaskState → ℕ
retries [] = 0
retries (x ∷ xs) = (if x == retry then 1 else 0) + retries xs

-- An accepted transition was allowed, ends in the requested state, and counts an attempt exactly
-- when it enters `retry`.
pub transition_to_ok :
    (x : TaskState) (t u : Task)
    → transition_to x t ≡ (ok tt, u)
    → (can_transition_to t.state x ≡ true)
      × (u.state ≡ x)
      × (u.attempts ≡ (if x == retry then (t.attempts + 1) % u32_mod else t.attempts))
unfolding transition_to
transition_to_ok retry t u h = ground arith
transition_to_ok x t u h = ground arith

-- A state is terminal exactly when no transition leaves it.
pub is_terminal_iff :
    (s : TaskState) → (is_terminal s ≡ true) ↔ ((x : TaskState) → can_transition_to s x ≡ false)
unfolding is_terminal can_transition_to
is_terminal_iff completed = (λ h x. refl, λ h. refl)
is_terminal_iff created = (cc, λ h. cc (h queued))
is_terminal_iff queued = (cc, λ h. cc (h running))
is_terminal_iff planning = (cc, λ h. cc (h running))
is_terminal_iff running = (cc, λ h. cc (h failed))
is_terminal_iff verifying = (cc, λ h. cc (h failed))
is_terminal_iff failed = (cc, λ h. cc (h rollback))
is_terminal_iff rollback = (cc, λ h. cc (h retry))
is_terminal_iff retry = (cc, λ h. cc (h queued))

-- Over a run from a task whose counter is below 2^32, the counter grows by the number of times that
-- `retry` is entered, modulo 2^32.
pub attempts-Run :
    {t u : Task} {xs : List TaskState}
    → Run t xs u
    → t.attempts < u32_mod
    → u.attempts ≡ (t.attempts + retries xs) % u32_mod
attempts-Run (done t) h = omega arith
attempts-Run (step x {t} {u} {v} {xs} e r) h =
    let facts = transition_to_ok x t u e in
    let bound : u.attempts < u32_mod = ground (arith, facts.2) in
    ground (arith, facts.2, attempts-Run r bound)

-- The states that a run visits.
abbrev pub visited : Task → List TaskState → List TaskState
visited t xs = t.state ∷ xs

abbrev pub EndsVerified : List TaskState → Type 0
EndsVerified l = (ys : List TaskState) × (l ≡ ys ++ verifying ∷ completed ∷ [])

entered_completed : (s : TaskState) → can_transition_to s completed ≡ true → s ≡ verifying
unfolding can_transition_to
entered_completed s h = ground arith

Run-completed : {t u : Task} {xs : List TaskState} → Run t xs u → t.state ≡ completed → xs ≡ []
unfolding can_transition_to
Run-completed (done t) h = refl
Run-completed (step x {t} {u} e r) h = ground (arith, transition_to_ok x t u e)

-- A run from any task that is not completed to one that is visits `verifying` immediately before
-- `completed`, and ends there.
pub Run-EndsVerified :
    {t u : Task} {xs : List TaskState}
    → Run t xs u
    → t.state ≢ completed
    → u.state ≡ completed
    → EndsVerified (visited t xs)
Run-EndsVerified (done t) fresh closed = absurd (fresh closed)
Run-EndsVerified (step x {t} {u} {v} {xs} e r) fresh closed =
    let facts = transition_to_ok x t u e in
    elim (Bool-cases (x == completed)) [
      | inl last ↦
          let is_last : x ≡ completed = (state_beq_iff x completed).0 last in
          let before : t.state ≡ verifying = entered_completed t.state (rw is_last at facts.0) in
          let rest : xs ≡ [] = Run-completed r (facts.1 ∙ is_last) in
          ([], rw (before, is_last, rest))
      | inr more ↦
          let inside : EndsVerified (visited u xs) =
            Run-EndsVerified r (λ q. cc (more, (state_beq_iff x completed).1 (sym facts.1 ∙ q)))
              closed in
          (t.state ∷ inside.0, ap (λ l. t.state ∷ l) (ap (λ a. a ∷ xs) (sym facts.1) ∙ inside.1))
    ]

abbrev pub Completable : Task → Type 0
Completable t = (xs : List TaskState) × (u : Task) × Run t xs u × (u.state ≡ completed)

accepted :
    (x : TaskState) (t : Task)
    → can_transition_to t.state x ≡ true
    → transition_to x t ≡ (ok tt, (transition_to x t).1)
unfolding transition_to
accepted x t h = ground arith

via :
    (x : TaskState) (t : Task)
    → can_transition_to t.state x ≡ true
    → ((u : Task) → u.state ≡ x → Completable u)
    → Completable t
via x t h next =
    let u = (transition_to x t).1 in
    let e = accepted x t h in
    let (xs, v, r, c) = next u (transition_to_ok x t u e).1 in (x ∷ xs, v, step x e r, c)

from_verifying : (t : Task) → t.state ≡ verifying → Completable t
unfolding can_transition_to
from_verifying t h = via completed t (rw h) (λ u c. ([], u, done u, c))

from_running : (t : Task) → t.state ≡ running → Completable t
unfolding can_transition_to
from_running t h = via verifying t (rw h) from_verifying

from_queued : (t : Task) → t.state ≡ queued → Completable t
unfolding can_transition_to
from_queued t h = via running t (rw h) from_running

from_retry : (t : Task) → t.state ≡ retry → Completable t
unfolding can_transition_to
from_retry t h = via queued t (rw h) from_queued

from_rollback : (t : Task) → t.state ≡ rollback → Completable t
unfolding can_transition_to
from_rollback t h = via retry t (rw h) from_retry

completes_from : (s : TaskState) (t : Task) → t.state ≡ s → Completable t
unfolding can_transition_to
completes_from created t h = via queued t (rw h) from_queued
completes_from queued t h = from_queued t h
completes_from planning t h = via running t (rw h) from_running
completes_from running t h = from_running t h
completes_from verifying t h = from_verifying t h
completes_from completed t h = ([], t, done t, h)
completes_from failed t h = via rollback t (rw h) from_rollback
completes_from rollback t h = from_rollback t h
completes_from retry t h = from_retry t h

-- From every state, failures included, some run of accepted transitions ends in `completed`.
pub completable : (t : Task) → Completable t
completable t = completes_from t.state t refl
