-- ===== src/Policy.antt =====
-- policy/src/lib.rs: the role- and attribute-based policy engine.
pub mod Identity
pub mod Decision
pub mod Changes
use ckos.Base.{
  String, List, [], ◌∷◌, ◌++◌, Bool, true, false, not, ◌&&◌, ◌||◌, Option, none, some, ◌==◌,
  string_eq, if◌then◌else◌, any, contains, get_or, concat,
}
use ckos.Base.Map
use ckos.Base.Map.{Map}
use ckos.Kernel.Error.{Result, ok, err, policy_denied}
use ckos.Kernel.Permission.{permission_matches}

pub record AccessRequest : Type 0 where
  pub subject : String
  pub roles : List String
  pub action : String
  pub attributes : Map String String

pub record AbacRule : Type 0 where
  pub action : String
  pub attribute_key : String
  pub attribute_value : String
  pub deny : Bool

-- A `HashSet` of permission tokens is the list of its elements.
pub record PolicyEngine : Type 0 where
  pub role_permissions : Map String (List String)
  pub abac_rules : List AbacRule

unfoldable pub new : PolicyEngine
new = record { role_permissions = []; abac_rules = [] }

-- `HashSet::insert`
unfoldable pub set_insert : String → List String → List String
set_insert a set = if contains a set then set else a ∷ set

unfoldable pub grant : PolicyEngine → String → String → PolicyEngine
unfolding set_insert
grant engine role action =
    let perms = get_or (Map.get engine.role_permissions role) [] in
    record engine {
      role_permissions = Map.insert engine.role_permissions role (set_insert action perms);
    }

unfoldable pub add_rule : PolicyEngine → AbacRule → PolicyEngine
add_rule engine rule = record engine { abac_rules = engine.abac_rules ++ rule ∷ [] }

unfoldable pub perms_allow : Option (List String) → String → Bool
perms_allow none action = false
perms_allow (some perms) action = any (λ p. permission_matches p action) perms

unfoldable pub rbac_allows : PolicyEngine → List String → String → Bool
unfolding perms_allow
rbac_allows engine roles action =
    any (λ role. perms_allow (Map.get engine.role_permissions role) action) roles

-- `req.attributes.get(key) == Some(&value)`
unfoldable pub attribute_is : Option String → String → Bool
attribute_is none value = false
attribute_is (some v) value = v == value

unfoldable pub applies : AbacRule → AccessRequest → Bool
unfolding attribute_is
applies rule req =
    (rule.action == req.action)
    && attribute_is (Map.get req.attributes rule.attribute_key) rule.attribute_value

-- the first deny rule that applies, by the loop of `evaluate`
unfoldable pub find_deny : List AbacRule → AccessRequest → Option AbacRule
find_deny [] req = none
find_deny (rule ∷ rules) req =
    let rest = find_deny rules req in if rule.deny && applies rule req then some rule else rest

unfoldable pub abac_allows : List AbacRule → AccessRequest → Bool
abac_allows rules req = any (λ rule. not rule.deny && applies rule req) rules

unfoldable pub denial : AbacRule → AccessRequest → Result (Unit {0})
denial rule req = err (
    policy_denied
      (concat (req.action ∷ " denied for " ∷ rule.attribute_key ∷ "=" ∷ rule.attribute_value ∷ [])))

-- what follows the deny rules
unfoldable pub permit : PolicyEngine → AccessRequest → Result (Unit {0})
permit engine req =
    if abac_allows engine.abac_rules req || rbac_allows engine req.roles req.action
    then ok tt
    else err (policy_denied (concat (req.action ∷ " not permitted for " ∷ req.subject ∷ [])))

unfoldable pub decide_after : Option AbacRule → PolicyEngine → AccessRequest → Result (Unit {0})
unfolding permit denial
decide_after none engine req = permit engine req
decide_after (some rule) engine req = denial rule req

unfoldable pub evaluate : PolicyEngine → AccessRequest → Result (Unit {0})
unfolding decide_after
evaluate engine req = decide_after (find_deny engine.abac_rules req) engine req
