-- ===== src/Policy/Changes.antt =====
-- How `grant` and `add_rule` of policy/src/lib.rs change the decisions of `evaluate`.
use text.Mathlib.TextEquality.{eq_iff}
use mathlib.Core.Path.{subst}
use ckos.Base.{
  String, List, [], ◌∷◌, true, false, Option, none, some, ◌==◌, string_eq, ◌≡◌, ◌↔◌, ◌⊎◌, inl, inr,
  refl, sym, AnyOf, AnyOf-mono, AnyOf-or, AnyOf-append, Bool-cases, contains, get_or,
}
use ckos.Base.Map
use ckos.Base.Map.{get-insert}
use ckos.Kernel.Error.{ok}
use ckos.Kernel.Permission.Covers.{Covers}
use ckos.Policy.{AccessRequest, AbacRule, PolicyEngine, grant, add_rule, set_insert, evaluate}
use ckos.Policy.Decision.{Applies, Denied, Granted, Allowed, evaluate_iff}

-- Among the roles of a request.
abbrev pub Holds : String → List String → Type 0
Holds role roles = AnyOf (λ r. role ≡ r) roles

-- Inserting a token into a set adds what it covers.
of_contains :
    (P : String → Type 0) (a : String) (set : List String)
    → contains a set ≡ true
    → P a
    → AnyOf P set
of_contains P a [] h p = cc
of_contains P a (x ∷ xs) h p = elim (Bool-cases (x == a)) [
  | inl same ↦ inl (subst P (sym ((eq_iff x a).0 same)) p)
  | inr differ ↦ inr (of_contains P a xs (rw differ at h) p)
]

AnyOf-set_insert :
    (P : String → Type 0) (a : String) (set : List String)
    → AnyOf P (set_insert a set) ↔ (P a ⊎ AnyOf P set)
unfolding set_insert
AnyOf-set_insert P a set = elim (Bool-cases (contains a set)) [
  | inl old ↦ rw old (inr, elim [ inl p ↦ of_contains P a set old p | inr h ↦ h ])
  | inr new ↦ rw new (λ h. h, λ h. h)
]

Granted-some :
    (perms : List String) (x : String) → Granted (some perms) x ↔ AnyOf (λ p. Covers p x) perms
Granted-some perms x = (
  (λ g. let same : g.0 ≡ perms = cc in subst (AnyOf (λ p. Covers p x)) same g.2),
  (λ h. (perms, refl, h)),
)

Granted-or_default :
    (o : Option (List String)) (x : String) → AnyOf (λ p. Covers p x) (get_or o []) ↔ Granted o x
Granted-or_default none x = (absurd, λ g. cc g.1)
Granted-or_default (some perms) x = ((Granted-some perms x).1, (Granted-some perms x).0)

Granted-self :
    (o : Option (List String)) (action x : String)
    → Granted (some (set_insert action (get_or o []))) x ↔ (Covers action x ⊎ Granted o x)
Granted-self o action x =
    let inserted = AnyOf-set_insert (λ p. Covers p x) action (get_or o []) in
    let whole = Granted-some (set_insert action (get_or o [])) x in
    let old = Granted-or_default o x in
    (
      (λ g. elim (inserted.0 (whole.0 g)) [ inl c ↦ inl c | inr h ↦ inr (old.0 h) ]),
      elim [ inl c ↦ whole.1 (inserted.1 (inl c)) | inr h ↦ whole.1 (inserted.1 (inr (old.1 h))) ],
    )

Granted-grant :
    (engine : PolicyEngine) (role action r x : String)
    → Granted (Map.get (grant engine role action).role_permissions r) x
      ↔ (((role ≡ r) × Covers action x) ⊎ Granted (Map.get engine.role_permissions r) x)
unfolding grant
Granted-grant engine role action r x =
    let perms = engine.role_permissions in
    let self = Granted-self (Map.get perms role) action x in
    elim (Bool-cases (role == r)) [
      | inl same ↦
          let e : role ≡ r = (eq_iff role r).0 same in
          rw (get-insert perms role r _, same, ← e)
            (
              (λ g. elim (self.0 g) [ inl c ↦ inl (refl, c) | inr h ↦ inr h ]),
              elim [ inl c ↦ self.1 (inl c.1) | inr h ↦ self.1 (inr h) ],
            )
      | inr differ ↦
          rw (get-insert perms role r _, differ)
            (inr, elim [ inl c ↦ cc (differ, (eq_iff role r).1 c.0) | inr h ↦ h ])
    ]

hold_covering :
    (role : String) (C : Type 0) (roles : List String)
    → AnyOf (λ r. (role ≡ r) × C) roles ↔ (Holds role roles × C)
hold_covering role C [] = (absurd, λ h. h.0)
hold_covering role C (r ∷ roles) =
    let rest = hold_covering role C roles in
    (
      elim [ inl h ↦ (inl h.0, h.1) | inr h ↦ (inr (rest.0 h).0, (rest.0 h).1) ],
      (λ h. elim h.0 [ inl e ↦ inl (e, h.1) | inr t ↦ inr (rest.1 (t, h.1)) ]),
    )

Allowed-grant :
    (engine : PolicyEngine) (role action : String) (req : AccessRequest)
    → Allowed (grant engine role action) req
      ↔ (Allowed engine req ⊎ (Holds role req.roles × Covers action req.action))
unfolding grant
Allowed-grant engine role action req =
    let old = λ (r : String). Granted (Map.get engine.role_permissions r) req.action in
    let extra = λ (r : String). (role ≡ r) × Covers action req.action in
    let roles = hold_covering role (Covers action req.action) req.roles in
    (
      elim [
        | inl rule ↦ inl (inl rule)
        | inr h ↦
            elim (AnyOf-or extra old req.roles (
              AnyOf-mono _ _ req.roles (λ r. (Granted-grant engine role action r req.action).0)
                h)) [ inl e ↦ inr (roles.0 e) | inr g ↦ inl (inr g) ]
      ],
      elim [
        | inl (inl rule) ↦ inl rule
        | inl (inr g) ↦ inr (
            AnyOf-mono old _ req.roles
              (λ r p. (Granted-grant engine role action r req.action).1 (inr p)) g)
        | inr h ↦ inr (
            AnyOf-mono extra _ req.roles
              (λ r p. (Granted-grant engine role action r req.action).1 (inl p)) (roles.1 h))
      ],
    )

-- After a grant exactly those further requests are permitted that no deny rule stops, whose roles
-- include the role of the grant, and whose action the granted token covers.
pub evaluate-grant :
    (engine : PolicyEngine) (role action : String) (req : AccessRequest)
    → (evaluate (grant engine role action) req ≡ ok tt) ↔ (
        (¬ Denied engine req)
        × (Allowed engine req ⊎ (Holds role req.roles × Covers action req.action)))
unfolding grant
evaluate-grant engine role action req =
    let after = evaluate_iff (grant engine role action) req in
    let allowed = Allowed-grant engine role action req in
    ((λ e. ((after.0 e).0, allowed.0 (after.0 e).1)), (λ h. after.1 (h.0, allowed.1 h.1)))

-- A deny rule takes away exactly the requests that it applies to, whatever else permits them.
pub evaluate-add_rule_deny :
    (engine : PolicyEngine) (rule : AbacRule) (req : AccessRequest)
    → rule.deny ≡ true
    → (evaluate (add_rule engine rule) req ≡ ok tt)
      ↔ ((evaluate engine req ≡ ok tt) × (¬ Applies rule req))
unfolding add_rule
evaluate-add_rule_deny engine rule req d =
    let before = evaluate_iff engine req in
    let after = evaluate_iff (add_rule engine rule) req in
    let denies =
      AnyOf-append (λ r. (r.deny ≡ true) × Applies r req) engine.abac_rules (rule ∷ []) in
    let allows =
      AnyOf-append (λ r. (r.deny ≡ false) × Applies r req) engine.abac_rules (rule ∷ []) in
    (
      (λ e.
          let (kept, allowed) = after.0 e in
          (
            before.1 (
              (λ h. kept (denies.1 (inl h))),
              elim allowed [
                | inl a ↦ elim (allows.0 a) [
                  | inl old ↦ inl old
                  | inr (inl here) ↦ cc (d, here.0)
                  | inr (inr bad) ↦ absurd bad
                ]
                | inr role ↦ inr role
              ],
            ),
            (λ hit. kept (denies.1 (inr (inl (d, hit))))),
          )),
      (λ h.
          let (kept, allowed) = before.0 h.0 in
          after.1 (
            (λ den. elim (denies.0 den) [
              | inl old ↦ kept old
              | inr (inl here) ↦ h.1 here.1
              | inr (inr bad) ↦ bad
            ]),
            elim allowed [ inl a ↦ inl (allows.1 (inl a)) | inr role ↦ inr role ],
          )),
    )
