-- ===== src/Base/Bounded.antt =====
-- The bounded buffers of kernel/src/audit.rs and kernel/src/telemetry.rs: push, then drop the oldest.
use mathlib.Core.List.{foldl, append-nil, append_assoc}
use ckos.Base.Tests.{if◌then◌else◌, ltb, Bool-cases}
use ckos.Base.Lists.{length, drop, keep_last, keep_last-append, drop-eq-nil}
use Prim.Native.Nat.{ℕ, ◌-◌}
use mathlib.Core.Path.{◌≡◌, ap, ◌∙◌, sym}
use mathlib.Core.Logic.{inl, inr}
use mathlib.Core.List.{List, [], ◌∷◌, ◌++◌}
use native.Mathlib.Omega.{arith}

module _ {ℓ} {A : Type ℓ} where
  unfoldable pub push_bounded : ℕ → List A → A → List A
  push_bounded most xs x =
      let g = xs ++ x ∷ [] in if ltb most (length g) then drop (length g - most) g else g

  pub push_bounded_lem :
      (most : ℕ) (xs : List A) (x : A) → push_bounded most xs x ≡ keep_last most (xs ++ x ∷ [])
  unfolding push_bounded
  push_bounded_lem most xs x = elim (Bool-cases (ltb most (length (xs ++ x ∷ [])))) [
    | inl over ↦ rw over
    | inr fits ↦
        let none_dropped : 0 ≡ length (xs ++ x ∷ []) - most = ground arith in
        rw fits (ap (λ n. drop n (xs ++ x ∷ [])) none_dropped)
  ]

  pushed_after :
      (most : ℕ) (seen xs rest : List A)
      → xs ≡ keep_last most seen
      → foldl (push_bounded most) xs rest ≡ keep_last most (seen ++ rest)
  pushed_after most seen xs [] h = rw append-nil h
  pushed_after most seen xs (x ∷ rest) h = rw (← append_assoc seen (x ∷ []) rest) (
      pushed_after most (seen ++ x ∷ []) (push_bounded most xs x) rest
        (push_bounded_lem most xs x ∙ (rw h (keep_last-append most seen x))))

  -- However many elements are pushed, the buffer holds the last `most` of them, in order.
  pub foldl-push_bounded :
      (most : ℕ) (xs : List A) → foldl (push_bounded most) [] xs ≡ keep_last most xs
  foldl-push_bounded most xs =
      pushed_after most [] [] xs (sym (drop-eq-nil (0 - most) [] (omega arith)))
