-- ===== src/Kernel/Permission/Covers.antt =====
-- What `permission_matches` of kernel/src/permission.rs decides.
use Prim.Native.String.{◌++◌}
use text.Mathlib.TextBridge.{IsPrefix}
use text.Mathlib.TextEquality.{eq_iff, starts_with_iff}
use ckos.Base.{
  String, ◌≡◌, ◌↔◌, ◌⊎◌, inl, inr, true, arith, string_eq, ◌==◌, Bool-cases, Option-cases,
  strip_suffix, strip_suffix_sound, strip_suffix-append,
}
use ckos.Kernel.Permission.{permission_matches}

-- The tokens that a grant stands for: itself, or all that extend what stands before its final `*`.
abbrev pub Covers : String → String → Type 0
Covers granted required =
    (granted ≡ required)
    ⊎ ((prefix : String) × (granted ≡ prefix ++ "*") × IsPrefix prefix required)

matches-Covers :
    (granted required : String)
    → permission_matches granted required ≡ true
    → Covers granted required
unfolding permission_matches
matches-Covers granted required h = elim (Option-cases (strip_suffix "*" granted)) [
  | inl miss ↦ inl ((eq_iff granted required).0 (ground arith))
  | inr (p, hit) ↦ elim (Bool-cases (granted == required)) [
    | inl same ↦ inl ((eq_iff granted required).0 same)
    | inr differ ↦ inr (
      p,
      strip_suffix_sound "*" granted p hit,
      (starts_with_iff required p).0 (rw (differ, hit) at h),
    )
  ]
]

-- A granted token matches a required one exactly when they are equal, or the granted one is a
-- prefix of the required one followed by a `*`.
pub permission_matches_iff :
    (granted required : String)
    → (permission_matches granted required ≡ true) ↔ Covers granted required
unfolding permission_matches
permission_matches_iff granted required = (
  matches-Covers granted required,
  elim [
    | inl same ↦ ground (arith, eq_iff granted required)
    | inr (p, star, q) ↦
        rw (star, strip_suffix-append, (starts_with_iff required p).1 q) (ground arith)
  ],
)
