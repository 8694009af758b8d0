-- ===== src/Policy/Decision.antt =====
-- What `evaluate` of policy/src/lib.rs decides, and how grants and rules change it.
use mathlib.Core.Path.{subst}
use text.Mathlib.TextEquality.{eq_iff}
use ckos.Base.{
  String, List, [], ◌∷◌, true, false, ◌&&◌, Option, none, some, string_eq, ◌≡◌, ◌↔◌, ◌⊎◌, inl, inr,
  arith, refl, any_iff, AnyOf, Bool-cases,
}
use ckos.Base.Map
use ckos.Kernel.Error.{ok}
use ckos.Kernel.Permission.{permission_matches}
use ckos.Kernel.Permission.Covers.{Covers, permission_matches_iff}
use ckos.Policy.{
  AccessRequest, AbacRule, PolicyEngine, perms_allow, rbac_allows, attribute_is, applies, find_deny,
  abac_allows, permit, evaluate,
}

-- The specification: no deny rule applies, and some allow rule applies or some role has been
-- granted a token that covers the action.
abbrev pub Applies : AbacRule → AccessRequest → Type 0
Applies rule req =
    (rule.action ≡ req.action)
    × (Map.get req.attributes rule.attribute_key ≡ some rule.attribute_value)

abbrev pub Denied : PolicyEngine → AccessRequest → Type 0
Denied engine req = AnyOf (λ rule. (rule.deny ≡ true) × Applies rule req) engine.abac_rules

abbrev pub Granted : Option (List String) → String → Type 0
Granted perms action = (ps : List String) × (perms ≡ some ps) × AnyOf (λ p. Covers p action) ps

abbrev pub Allowed : PolicyEngine → AccessRequest → Type 0
Allowed engine req =
    AnyOf (λ rule. (rule.deny ≡ false) × Applies rule req) engine.abac_rules
    ⊎ AnyOf (λ role. Granted (Map.get engine.role_permissions role) req.action) req.roles

attribute_is_iff :
    (o : Option String) (value : String) → (attribute_is o value ≡ true) ↔ (o ≡ some value)
unfolding attribute_is
attribute_is_iff none value = (cc, cc)
attribute_is_iff (some v) value = ground (arith, eq_iff v value)

applies_iff : (rule : AbacRule) (req : AccessRequest) → (applies rule req ≡ true) ↔ Applies rule req
unfolding applies
applies_iff rule req =
    let attr = attribute_is_iff (Map.get req.attributes rule.attribute_key) rule.attribute_value in
    ground (arith, eq_iff rule.action req.action, attr)

perms_allow_iff :
    (perms : Option (List String)) (action : String)
    → (perms_allow perms action ≡ true) ↔ Granted perms action
unfolding perms_allow
perms_allow_iff none action = (cc, λ g. cc g.1)
perms_allow_iff (some ps) action =
    let covered =
      any_iff (λ p. permission_matches p action) (λ p. Covers p action) ps
        (λ p. permission_matches_iff p action) in
    (
      (λ e. (ps, refl, covered.0 e)),
      (λ g. let same : g.0 ≡ ps = cc in covered.1 (subst (AnyOf (λ p. Covers p action)) same g.2)),
    )

rbac_allows_iff :
    (engine : PolicyEngine) (roles : List String) (action : String)
    → (rbac_allows engine roles action ≡ true)
      ↔ AnyOf (λ role. Granted (Map.get engine.role_permissions role) action) roles
unfolding rbac_allows
rbac_allows_iff engine roles action =
    any_iff _ _ roles (λ role. perms_allow_iff (Map.get engine.role_permissions role) action)

abac_allows_iff :
    (rules : List AbacRule) (req : AccessRequest)
    → (abac_allows rules req ≡ true) ↔ AnyOf (λ rule. (rule.deny ≡ false) × Applies rule req) rules
unfolding abac_allows
abac_allows_iff rules req = any_iff _ _ rules (λ rule. ground (arith, applies_iff rule req))

-- `find_deny` finds a rule exactly when one denies the request.
find_deny_cases :
    (rules : List AbacRule) (req : AccessRequest)
    → ((find_deny rules req ≡ none) × ¬ AnyOf (λ rule. (rule.deny ≡ true) × Applies rule req) rules)
      ⊎ ((rule : AbacRule) × (find_deny rules req ≡ some rule)
          × AnyOf (λ rule. (rule.deny ≡ true) × Applies rule req) rules)
unfolding find_deny
find_deny_cases [] req = inl (refl, λ h. h)
find_deny_cases (rule ∷ rules) req =
    let here = applies_iff rule req in
    elim (Bool-cases (rule.deny && applies rule req)) [
      | inl denies ↦ inr (rule, rw denies, inl (ground (arith, here)))
      | inr skips ↦ elim (find_deny_cases rules req) [
        | inl (miss, absent) ↦
            inl
              (rw skips miss, elim [ inl found ↦ ground (arith, here) | inr later ↦ absent later ])
        | inr (found, hit, later) ↦ inr (found, rw skips hit, inr later)
      ]
    ]

permit_iff :
    (engine : PolicyEngine) (req : AccessRequest) → (permit engine req ≡ ok tt) ↔ Allowed engine req
unfolding permit
permit_iff engine req =
    let allow = abac_allows_iff engine.abac_rules req in
    let role = rbac_allows_iff engine req.roles req.action in
    (
      (λ e. elim (Bool-cases (abac_allows engine.abac_rules req)) [
        | inl yes_ ↦ inl (allow.0 yes_)
        | inr miss ↦ inr (role.0 (ground arith))
      ]),
      elim [ inl a ↦ rw (allow.1 a) | inr r ↦ ground (arith, role.1 r) ],
    )

-- A request is permitted exactly when no deny rule applies to it and it is allowed by an allow rule
-- or by a token, wildcards included, that was granted to one of its roles.
pub evaluate_iff :
    (engine : PolicyEngine) (req : AccessRequest)
    → (evaluate engine req ≡ ok tt) ↔ ((¬ Denied engine req) × Allowed engine req)
unfolding evaluate
evaluate_iff engine req = elim (find_deny_cases engine.abac_rules req) [
  | inr (rule, hit, found) ↦ ((λ e. cc (rw hit at e)), (λ e. absurd (e.0 found)))
  | inl (miss, absent) ↦ (
    (λ e. (absent, (permit_iff engine req).0 (rw miss at e))),
    (λ e. rw miss ((permit_iff engine req).1 e.1)),
  )
]
