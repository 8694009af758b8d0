-- ===== src/Plugins/Gate.antt =====
-- The permission gate of plugins/src/lib.rs.
use mathlib.Core.Path.{subst}
use ckos.Base.{
  String, List, [], ◌∷◌, ◌++◌, ap, concat, ◌≡◌, ◌↔◌, inl, inr, refl, some, any, any_iff, AnyOf, All,
  Bool-cases, Option-cases, string_eq,
}
use ckos.Base.Map
use ckos.Kernel.Error.{KernelError, Result, ok, err, policy_denied, ◌>>◌, Result-cases}
use ckos.Kernel.Permission.{permission_matches}
use ckos.Kernel.Permission.Covers.{Covers, permission_matches_iff}
use ckos.Plugins.{Tool, ToolRegistry, check_permissions, invoke}

-- Every required token is covered by a granted one.
abbrev pub Authorized : List String → List String → Type 0
Authorized granted required = All (λ perm. AnyOf (λ g. Covers g perm) granted) required

check_permissions_iff :
    (granted : List String) (name : String) (required : List String)
    → (check_permissions granted name required ≡ ok tt) ↔ Authorized granted required
unfolding check_permissions
check_permissions_iff granted name [] = (λ e. tt, λ h. refl)
check_permissions_iff granted name (perm ∷ perms) =
    let rest = check_permissions_iff granted name perms in
    let here =
      any_iff (λ g. permission_matches g perm) (λ g. Covers g perm) granted
        (λ g. permission_matches_iff g perm) in
    elim (Bool-cases (any (λ g. permission_matches g perm) granted)) [
      | inl covered ↦ rw covered ((λ e. (here.0 covered, rest.0 e)), (λ h. rest.1 h.1))
      | inr missing ↦ rw missing ((λ e. cc), (λ h. cc (missing, here.1 h.0)))
    ]

-- What `invoke` does once the tool is found.
abbrev gated : ToolRegistry → String → String → Tool → Result String
gated reg name input tool =
    check_permissions reg.granted name tool.metadata.permissions
    >> (tool.validate input >> tool.execute input)

invoked_iff :
    (reg : ToolRegistry) (name input out : String) (tool : Tool)
    → (gated reg name input tool ≡ ok out) ↔ (
        Authorized reg.granted tool.metadata.permissions
        × (tool.validate input ≡ ok tt)
        × (tool.execute input ≡ ok out))
invoked_iff reg name input out tool =
    elim (Result-cases (check_permissions reg.granted name tool.metadata.permissions)) [
      | inr (e, denied) ↦ rw denied ((λ h. cc), (λ h. cc (denied, (gate.1 h.0))))
      | inl (u, passed) ↦ elim (Result-cases (tool.validate input)) [
        | inr (e, bad) ↦ rw (passed, bad) ((λ h. cc), (λ h. cc h.1))
        | inl (v, good) ↦ rw (passed, good) ((λ h. (gate.0 passed, refl, h)), (λ h. h.2))
      ]
    ]
  where
    gate :
        (check_permissions reg.granted name tool.metadata.permissions ≡ ok tt)
        ↔ Authorized reg.granted tool.metadata.permissions
    gate = check_permissions_iff reg.granted name tool.metadata.permissions

-- An invocation returns `out` exactly when the tool is registered, every permission that it
-- requires is covered by a granted token, it accepts the input, and its execution returns `out`.
pub invoke_iff :
    (reg : ToolRegistry) (name input out : String)
    → (invoke reg name input ≡ ok out) ↔ (
        (tool : Tool) × (Map.get reg.tools name ≡ some tool)
        × Authorized reg.granted tool.metadata.permissions
        × (tool.validate input ≡ ok tt)
        × (tool.execute input ≡ ok out))
unfolding invoke
invoke_iff reg name input out = elim (Option-cases (Map.get reg.tools name)) [
  | inl miss ↦ rw miss ((λ e. cc), (λ h. cc h.1))
  | inr (tool, hit) ↦ rw hit (
    (λ e.
        let parts = (invoked_iff reg name input out tool).0 e in
        (tool, refl, parts.0, parts.1, parts.2)),
    (λ (t, same, auth, valid, ran).
        let e : t ≡ tool = cc in
        subst (λ x. gated reg name input x ≡ ok out) e
          ((invoked_iff reg name input out t).1 (auth, valid, ran))),
  )
]

-- The permission is the first of the list that no granted token covers.
pub record IsFirstMissing (granted required : List String) (perm : String) : Type 0 where
  pub before : List String
  pub after : List String
  pub split : required ≡ before ++ perm ∷ after
  pub covered : Authorized granted before
  pub missing : ¬ AnyOf (λ g. Covers g perm) granted

abbrev denial : String → String → KernelError
denial name perm = policy_denied (concat ("tool " ∷ name ∷ " requires permission " ∷ perm ∷ []))

first_missing :
    (granted : List String) (name : String) (required : List String)
    → ¬ Authorized granted required
    → (perm : String) × IsFirstMissing granted required perm
      × (check_permissions granted name required ≡ err (denial name perm))
unfolding check_permissions
first_missing granted name [] h = absurd (h tt)
first_missing granted name (perm ∷ perms) h =
    let here =
      any_iff (λ g. permission_matches g perm) (λ g. Covers g perm) granted
        (λ g. permission_matches_iff g perm) in
    elim (Bool-cases (any (λ g. permission_matches g perm) granted)) [
      | inr missing ↦ rw missing (
        perm,
        record {
          before = [];
          after = perms;
          split = refl;
          covered = tt;
          missing = λ c. cc (missing, here.1 c);
        },
        refl,
      )
      | inl covered ↦
          let (later, f, denied) = first_missing granted name perms (λ a. h (here.0 covered, a)) in
          rw covered (
            later,
            record {
              before = perm ∷ f.before;
              after = f.after;
              split = ap (λ l. perm ∷ l) f.split;
              covered = (here.0 covered, f.covered);
              missing = f.missing;
            },
            denied,
          )
    ]

-- If a registered tool requires a permission that no granted token covers, its invocation, whatever
-- the tool would do with the input, is an error: a policy denial that names the tool and the first of
-- its permissions that is not covered.
pub invoke_denied :
    (reg : ToolRegistry) (name input : String) (tool : Tool)
    → Map.get reg.tools name ≡ some tool
    → ¬ Authorized reg.granted tool.metadata.permissions
    → (perm : String) × IsFirstMissing reg.granted tool.metadata.permissions perm
      × (invoke reg name input
          ≡ err (policy_denied (concat ("tool " ∷ name ∷ " requires permission " ∷ perm ∷ []))))
unfolding invoke
invoke_denied reg name input tool hit h =
    let (perm, f, denied) = first_missing reg.granted name tool.metadata.permissions h in
    (perm, f, rw (hit, denied) refl)
