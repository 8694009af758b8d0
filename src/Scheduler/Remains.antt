-- ===== src/Scheduler/Remains.antt =====
-- What `swap_remove`, as scheduler/src/lib.rs uses it, leaves: predicates on the elements and sums
-- over them.
use ckos.Base.{
  ℕ, ◌+◌, suc, zero, List, [], ◌∷◌, ◌++◌, some, ◌≡◌, refl, arith, All, Option-cases, inl, inr,
}
use ckos.Scheduler.{last, init, move_last, swap_remove}
use mathlib.Core.Path.{subst}

module _ {A : Type 0} where
  abbrev pub total : (A → ℕ) → List A → ℕ
  total m [] = 0
  total m (x ∷ xs) = m x + total m xs

  last-All :
      (P : A → Type 0) (y : A) (ys : List A) → P y → All P ys → P (last y ys) × All P (init y ys)
  unfolding last init
  last-All P y [] h k = (h, tt)
  last-All P y (z ∷ zs) h k = let (a, b) = last-All P z zs k.0 k.1 in (a, (h, b))

  move_last-All : (P : A → Type 0) (xs : List A) → All P xs → All P (move_last xs)
  unfolding move_last
  move_last-All P [] h = tt
  move_last-All P (y ∷ ys) h = last-All P y ys h.0 h.1

  total-last :
      (m : A → ℕ) (y : A) (ys : List A) → m (last y ys) + total m (init y ys) ≡ m y + total m ys
  unfolding last init
  total-last m y [] = refl
  total-last m y (z ∷ zs) = omega (arith, total-last m z zs)

  total-move_last : (m : A → ℕ) (xs : List A) → total m (move_last xs) ≡ total m xs
  unfolding move_last
  total-move_last m [] = refl
  total-move_last m (y ∷ ys) = total-last m y ys

  -- What holds of all elements holds of the removed one and of the rest.
  pub swap_remove-All :
      (P : A → Type 0) (xs : List A) (i : ℕ) (a : A) (rest : List A)
      → All P xs
      → swap_remove xs i ≡ some (a, rest)
      → P a × All P rest
  unfolding swap_remove
  swap_remove-All P [] i a rest h e = cc
  swap_remove-All P (x ∷ xs) zero a rest h e =
      let same : x ≡ a = cc in
      let left : move_last xs ≡ rest = cc in
      (subst P same h.0, subst (All P) left (move_last-All P xs h.1))
  swap_remove-All P (x ∷ xs) (suc i) a rest h e = elim (Option-cases (swap_remove xs i)) [
    | inl miss ↦ cc (rw miss at e)
    | inr ((b, others), hit) ↦
        let parts = swap_remove-All P xs i b others h.1 hit in
        let same : b ≡ a = cc (rw hit at e) in
        let left : x ∷ others ≡ rest = cc (rw hit at e) in
        (subst P same parts.0, subst (All P) left (h.0, parts.1))
  ]

  -- A sum over the elements is that of the removed one and the rest.
  pub total-swap_remove :
      (m : A → ℕ) (xs : List A) (i : ℕ) (a : A) (rest : List A)
      → swap_remove xs i ≡ some (a, rest)
      → total m xs ≡ m a + total m rest
  unfolding swap_remove
  total-swap_remove m [] i a rest e = cc
  total-swap_remove m (x ∷ xs) zero a rest e =
      let same : x ≡ a = cc in
      let left : move_last xs ≡ rest = cc in rw (← same, ← left, total-move_last m xs) refl
  total-swap_remove m (x ∷ xs) (suc i) a rest e = elim (Option-cases (swap_remove xs i)) [
    | inl miss ↦ cc (rw miss at e)
    | inr ((b, others), hit) ↦
        let same : b ≡ a = cc (rw hit at e) in
        let left : x ∷ others ≡ rest = cc (rw hit at e) in
        rw (← same, ← left) (omega (arith, total-swap_remove m xs i b others hit))
  ]

  pub total-append : (m : A → ℕ) (xs ys : List A) → total m (xs ++ ys) ≡ total m xs + total m ys
  total-append m [] ys = omega arith
  total-append m (x ∷ xs) ys = omega (arith, total-append m xs ys)
