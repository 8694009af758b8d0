-- ===== src/Scheduler/Removal.antt =====
-- `swap_remove`, as scheduler/src/lib.rs uses it, takes one element out and loses no other.
use mathlib.Core.Path.{subst}
use mathlib.Core.List.Perm
use mathlib.Core.List.{Perm}
use ckos.Base.{ℕ, suc, zero, List, [], ◌∷◌, some, get_elem?, ◌≡◌, arith}
use ckos.Scheduler.{last, init, move_last, swap_remove}

module _ {A : Type 0} where
  last_first : (y : A) (ys : List A) → Perm (last y ys ∷ init y ys) (y ∷ ys)
  unfolding last init
  last_first y [] = Perm.refl (y ∷ [])
  last_first y (z ∷ zs) =
      Perm.trans (Perm.swap y (last z zs) (init z zs)) (Perm.cons y (last_first z zs))

  move_last-perm : (xs : List A) → Perm (move_last xs) xs
  unfolding move_last
  move_last-perm [] = Perm.refl []
  move_last-perm (y ∷ ys) = last_first y ys

  -- Removing at an index in range gives the element there and a rearrangement of the others.
  pub swap_remove-perm :
      (xs : List A) (i : ℕ) (a : A)
      → get_elem? xs i ≡ some a
      → (rest : List A) × (swap_remove xs i ≡ some (a, rest)) × Perm xs (a ∷ rest)
  unfolding swap_remove
  swap_remove-perm [] i a h = cc
  swap_remove-perm (x ∷ xs) zero a h =
      let e : x ≡ a = cc in
      (
        move_last xs,
        ground arith,
        subst (λ b. Perm (x ∷ xs) (b ∷ move_last xs)) e
            (Perm.cons x (Perm.symm (move_last-perm xs))),
      )
  swap_remove-perm (x ∷ xs) (suc i) a h =
      let (rest, hit, perm) = swap_remove-perm xs i a h in
      (x ∷ rest, rw hit, Perm.trans (Perm.cons x perm) (Perm.swap a x rest))
