-- ===== src/Kernel/Error.antt =====
-- kernel/src/error.rs: the errors of the kernel, their text, and the results that carry them.
use mathlib.Core.Path.{◌≡◌, refl}
use mathlib.Core.Logic.{◌↔◌, ◌⊎◌, inl, inr}
use ckos.Base.{String, [], ◌∷◌, Bool, true, false, Option, none, some, concat}

pub data KernelError : Type 0 where
  invalid_transition : (from to : String) → KernelError
  not_found : String → KernelError
  policy_denied : String → KernelError
  capability_unavailable : String → KernelError
  resource_exhausted : String → KernelError
  other : String → KernelError

-- `Display`
unfoldable pub to_string : KernelError → String
to_string (invalid_transition from to) =
    concat ("invalid task transition: " ∷ from ∷ " -> " ∷ to ∷ [])
to_string (not_found what) = concat ("not found: " ∷ what ∷ [])
to_string (policy_denied why) = concat ("policy denied: " ∷ why ∷ [])
to_string (capability_unavailable cap) = concat ("no agent provides capability: " ∷ cap ∷ [])
to_string (resource_exhausted what) = concat ("resource exhausted: " ∷ what ∷ [])
to_string (other msg) = msg

pub data Result {ℓ} (A : Type ℓ) : Type ℓ where
  ok : A → Result A
  err : KernelError → Result A

-- `?`
infixl 5 ◌>>=◌ ◌>>◌
abbrev pub ◌>>=◌ {ℓ κ} : {A : Type ℓ} {B : Type κ} → Result A → (A → Result B) → Result B
ok a >>= f = f a
err e >>= f = err e

abbrev pub ◌>>◌ {ℓ κ} : {A : Type ℓ} {B : Type κ} → Result A → Result B → Result B
m >> k = m >>= λ _. k

-- `ok_or`
abbrev pub ok_or {ℓ} : {A : Type ℓ} → Option A → KernelError → Result A
ok_or none e = err e
ok_or (some a) e = ok a

abbrev pub is_ok {ℓ} : {A : Type ℓ} → Result A → Bool
is_ok (ok a) = true
is_ok (err e) = false

pub Result-cases {ℓ} :
    {A : Type ℓ} (r : Result A) → ((a : A) × (r ≡ ok a)) ⊎ ((e : KernelError) × (r ≡ err e))
Result-cases (ok a) = inl (a, refl)
Result-cases (err e) = inr (e, refl)

-- A chain returns a value exactly when both of its parts do.
pub >>=-eq-ok_iff {ℓ κ} :
    {A : Type ℓ} {B : Type κ} (m : Result A) (f : A → Result B) (b : B)
    → ((m >>= f) ≡ ok b) ↔ ((a : A) × (m ≡ ok a) × (f a ≡ ok b))
>>=-eq-ok_iff (ok a) f b = ((λ h. (a, refl, h)), (λ h. cc (h.1, h.2)))
>>=-eq-ok_iff (err e) f b = ((λ h. cc), (λ h. cc h.1))
