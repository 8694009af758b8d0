-- ===== src/Plugins.antt =====
-- plugins/src/lib.rs: the tool registry and its permission gate. A tool is its methods; what they
-- compute is the tool's own affair.
pub mod Gate
use ckos.Base.{
  String, List, [], ◌∷◌, Option, none, some, any, contains, if◌then◌else◌, string_eq, concat,
}
use ckos.Base.Map
use ckos.Base.Map.{Map}
use ckos.Kernel.Error.{Result, ok, err, ok_or, not_found, policy_denied, ◌>>=◌, ◌>>◌}
use ckos.Kernel.Permission.{permission_matches}

pub record ToolMetadata : Type 0 where
  pub name : String
  pub description : String
  pub permissions : List String

pub record Tool : Type 0 where
  pub metadata : ToolMetadata
  pub validate : String → Result (Unit {0})
  pub execute : String → Result String

-- The granted tokens, a `HashSet`, are the list of its elements.
pub record ToolRegistry : Type 0 where
  pub tools : Map String Tool
  pub granted : List String

unfoldable pub new : ToolRegistry
new = record { tools = []; granted = [] }

unfoldable pub grant : ToolRegistry → String → ToolRegistry
grant reg permission = record reg {
  granted = if contains permission reg.granted then reg.granted else permission ∷ reg.granted;
}

unfoldable pub register : ToolRegistry → Tool → ToolRegistry
register reg tool = record reg { tools = Map.insert reg.tools tool.metadata.name tool }

unfoldable pub metadata : ToolRegistry → String → Option ToolMetadata
metadata reg name = elim (Map.get reg.tools name) [ none ↦ none | some t ↦ some t.metadata ]

-- the loop over the permissions that the tool requires
unfoldable pub check_permissions : List String → String → List String → Result (Unit {0})
check_permissions granted name [] = ok tt
check_permissions granted name (perm ∷ perms) =
    let rest = check_permissions granted name perms in
    if any (λ g. permission_matches g perm) granted
    then rest
    else err (policy_denied (concat ("tool " ∷ name ∷ " requires permission " ∷ perm ∷ [])))

unfoldable pub invoke : ToolRegistry → String → String → Result String
invoke reg name input = do
  tool ← ok_or (Map.get reg.tools name) (not_found (concat ("tool " ∷ name ∷ [])))
  check_permissions reg.granted name tool.metadata.permissions
  tool.validate input
  tool.execute input
