-- ===== src/Policy/Identity.antt =====
-- policy/src/identity.rs: identities, and the static provider that authenticates tokens.
use ckos.Base.{String, List, [], ◌∷◌, ◌++◌, string_eq}
use ckos.Base.Map
use ckos.Base.Map.{Map}
use ckos.Kernel.Error.{Result, ok_or, policy_denied}
use ckos.Policy.{AccessRequest}

pub record Identity : Type 0 where
  pub subject : String
  pub roles : List String
  pub attributes : Map String String

unfoldable pub new : String → Identity
new subject = record { subject = subject; roles = []; attributes = [] }

unfoldable pub with_role : Identity → String → Identity
with_role i role = record i { roles = i.roles ++ role ∷ [] }

unfoldable pub with_attribute : Identity → String → String → Identity
with_attribute i key value = record i { attributes = Map.insert i.attributes key value }

unfoldable pub request : Identity → String → AccessRequest
request i action = record {
  subject = i.subject;
  roles = i.roles;
  action = action;
  attributes = i.attributes;
}

pub record StaticTokenProvider : Type 0 where
  pub tokens : Map String Identity

unfoldable pub empty : StaticTokenProvider
empty = record { tokens = [] }

unfoldable pub add_token : StaticTokenProvider → String → Identity → StaticTokenProvider
add_token p token identity = record p { tokens = Map.insert p.tokens token identity }

unfoldable pub authenticate : StaticTokenProvider → String → Result Identity
authenticate p token = ok_or (Map.get p.tokens token) (policy_denied "invalid or unknown token")
