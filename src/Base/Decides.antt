-- ===== src/Base/Decides.antt =====
-- Boolean tests on lists against the predicates that they decide.
use mathlib.Core.Path.{◌≡◌, refl}
use mathlib.Core.Logic.{◌↔◌, ◌⊎◌, inl, inr}
use mathlib.Core.Bool.{Bool, true}
use mathlib.Core.List.{List, [], ◌∷◌, ◌++◌}
use native.Mathlib.Omega.{arith}
use ckos.Base.Tests.{Bool-cases}
use ckos.Base.Lists.{any, all, All}

-- Some element has the property.
abbrev pub AnyOf {ℓ} : {A : Type ℓ} → (A → Type 0) → List A → Type 0
AnyOf P [] = ⊥
AnyOf P (x ∷ xs) = P x ⊎ AnyOf P xs

module _ {ℓ} {A : Type ℓ} where
  -- If the test decides the property of an element, `any` and `all` decide it of the list.
  pub any_iff :
      (p : A → Bool) (P : A → Type 0) (xs : List A)
      → ((x : A) → (p x ≡ true) ↔ P x)
      → (any p xs ≡ true) ↔ AnyOf P xs
  any_iff p P [] h = (cc, absurd)
  any_iff p P (x ∷ xs) h = (
    (λ e. elim (Bool-cases (p x)) [
      | inl here ↦ inl ((h x).0 here)
      | inr skip ↦ inr ((any_iff p P xs h).0 (rw skip at e))
    ]),
    elim [ inl here ↦ rw ((h x).1 here) | inr there ↦ ground (arith, (any_iff p P xs h).1 there) ],
  )

  pub all_iff :
      (p : A → Bool) (P : A → Type 0) (xs : List A)
      → ((x : A) → (p x ≡ true) ↔ P x)
      → (all p xs ≡ true) ↔ All P xs
  all_iff p P [] h = (λ e. tt, λ e. refl)
  all_iff p P (x ∷ xs) h = (
    (λ e. ((h x).0 (ground arith), (all_iff p P xs h).0 (ground arith))),
    (λ e. ground (arith, (h x).1 e.0, (all_iff p P xs h).1 e.1)),
  )

-- `AnyOf` is monotone and distributes over what its predicate says.
module _ {A : Type 0} where
  pub AnyOf-mono :
      (P Q : A → Type 0) (xs : List A) → ((x : A) → P x → Q x) → AnyOf P xs → AnyOf Q xs
  AnyOf-mono P Q [] f h = h
  AnyOf-mono P Q (x ∷ xs) f (inl p) = inl (f x p)
  AnyOf-mono P Q (x ∷ xs) f (inr h) = inr (AnyOf-mono P Q xs f h)

  pub AnyOf-or :
      (P Q : A → Type 0) (xs : List A) → AnyOf (λ x. P x ⊎ Q x) xs → AnyOf P xs ⊎ AnyOf Q xs
  AnyOf-or P Q [] h = absurd h
  AnyOf-or P Q (x ∷ xs) (inl (inl p)) = inl (inl p)
  AnyOf-or P Q (x ∷ xs) (inl (inr q)) = inr (inl q)
  AnyOf-or P Q (x ∷ xs) (inr h) = elim (AnyOf-or P Q xs h) [
    | inl p ↦ inl (inr p)
    | inr q ↦ inr (inr q)
  ]

  pub AnyOf-append :
      (P : A → Type 0) (xs ys : List A) → AnyOf P (xs ++ ys) ↔ (AnyOf P xs ⊎ AnyOf P ys)
  AnyOf-append P [] ys = (inr, elim [ inl e ↦ absurd e | inr h ↦ h ])
  AnyOf-append P (x ∷ xs) ys =
      let rest = AnyOf-append P xs ys in
      (
        elim [
          | inl p ↦ inl (inl p)
          | inr h ↦ elim (rest.0 h) [ inl a ↦ inl (inr a) | inr b ↦ inr b ]
        ],
        elim [
          | inl (inl p) ↦ inl p
          | inl (inr a) ↦ inr (rest.1 (inl a))
          | inr b ↦ inr (rest.1 (inr b))
        ],
      )
