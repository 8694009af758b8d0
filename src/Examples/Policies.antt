-- ===== src/Examples/Policies.antt =====
-- The policy engine and the tool registry at concrete inputs.
use ckos.Base.{String, concat, [], ◌∷◌, ◌≡◌, refl, inl, inr, true, false}
use ckos.Base.Map
use ckos.Base.Text.{strip_suffix}
use ckos.Kernel.Error.{ok, err, policy_denied}
use ckos.Kernel.Permission.{permission_matches}
use ckos.Kernel.Permission.Covers.{permission_matches_iff}
use ckos.Policy.{AccessRequest, AbacRule, PolicyEngine, evaluate, grant}
use ckos.Policy.Decision.{Denied, Allowed, Applies, evaluate_iff}
use ckos.Policy.Changes.{evaluate-grant}
use ckos.Plugins.{Tool, ToolRegistry, invoke}
use ckos.Plugins.Gate.{Authorized, IsFirstMissing, invoke_iff, invoke_denied}

-- Doctors may use the medical capability, and nobody may outside office hours.
abbrev nights_off : AbacRule
nights_off = record {
  action = "capability.medical";
  attribute_key = "hours";
  attribute_value = "night";
  deny = true;
}

abbrev clinic : PolicyEngine
clinic = record {
  role_permissions = ("doctor", "capability.*" ∷ []) ∷ [];
  abac_rules = nights_off ∷ [];
}

abbrev day_request : AccessRequest
day_request = record {
  subject = "alice";
  roles = "doctor" ∷ [];
  action = "capability.medical";
  attributes = ("hours", "day") ∷ [];
}

clinic_undenied : ¬ Denied clinic day_request
unfolding Map.get
clinic_undenied = elim [ inl h ↦ cc h.1.1 | inr bad ↦ bad ]

clinic_allows : Allowed clinic day_request
unfolding Map.get
clinic_allows =
    inr (inl (("capability.*" ∷ []), refl, inl (inr ("capability.", refl, ("medical", refl)))))

evaluate_iff_example : evaluate clinic day_request ≡ ok tt
evaluate_iff_example = (evaluate_iff clinic day_request).1 (clinic_undenied, clinic_allows)

-- A nurse gets the token that only doctors had.
abbrev nurse_request : AccessRequest
nurse_request = record day_request { roles = "nurse" ∷ [] }

nurse_undenied : ¬ Denied clinic nurse_request
unfolding Map.get
nurse_undenied = elim [ inl h ↦ cc h.1.1 | inr bad ↦ bad ]

evaluate-grant_example : evaluate (grant clinic "nurse" "capability.medical") nurse_request ≡ ok tt
evaluate-grant_example =
    (evaluate-grant clinic "nurse" "capability.medical" nurse_request).1
      (nurse_undenied, inr (inl refl, inl refl))

abbrev no_weekends : AbacRule
no_weekends = record nights_off { attribute_value = "weekend" }

not_weekend : ¬ Applies no_weekends day_request
unfolding Map.get
not_weekend h = cc h.1

abbrev reader : Tool
reader = record {
  metadata = record { name = "read"; description = "reads"; permissions = "fs.read" ∷ [] };
  validate = λ input. ok tt;
  execute = λ input. ok input;
}

abbrev tools : ToolRegistry
tools = record { tools = ("read", reader) ∷ []; granted = "fs.*" ∷ [] }

abbrev locked : ToolRegistry
locked = record { tools = ("read", reader) ∷ []; granted = "net.*" ∷ [] }

reader-Authorized : Authorized tools.granted reader.metadata.permissions
reader-Authorized = (inl (inr ("fs.", refl, ("read", refl))), tt)

invoke_iff_example : invoke tools "read" "notes.txt" ≡ ok "notes.txt"
unfolding Map.get
invoke_iff_example =
    (invoke_iff tools "read" "notes.txt" "notes.txt").1
      (reader, refl, reader-Authorized, refl, refl)

net_only : permission_matches "net.*" "fs.read" ≡ false
unfolding permission_matches strip_suffix
net_only = refl

locked_out : ¬ Authorized locked.granted reader.metadata.permissions
locked_out h = elim h.0 [
  | inl c ↦ cc (net_only, (permission_matches_iff "net.*" "fs.read").1 c)
  | inr bad ↦ bad
]

invoke_denied_example :
    (perm : String) × IsFirstMissing locked.granted ("fs.read" ∷ []) perm
    × (invoke locked "read" "x"
        ≡ err (policy_denied (concat ("tool " ∷ "read" ∷ " requires permission " ∷ perm ∷ []))))
unfolding Map.get
invoke_denied_example = invoke_denied locked "read" "x" reader refl locked_out
