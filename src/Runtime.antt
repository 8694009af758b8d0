-- ===== src/Runtime.antt =====
-- runtime/src/lib.rs: runtimes, their registry and the choice of a runtime for a capability. What a
-- runtime computes is outside the repository's control, so `run` also takes how many requests were
-- run before: two calls may answer differently.
pub mod Registry
pub mod Nearest
pub mod Selection
pub mod Tokens
use ckos.Base.{
  ℕ, String, List, [], ◌∷◌, ◌++◌, Bool, true, false, Option, none, some, is_some, ltb,
  if◌then◌else◌, ◌==◌, concat, normalised, contains, keep, map, string_eq,
}
use ckos.Base.Map
use ckos.Base.Map.{Map}
use ckos.Kernel.Capability.{Capability, capability_eq, as_token}
use ckos.Kernel.Error.{Result, ok, err, other, ok_or, capability_unavailable}

pub data RuntimeKind : Type 0 where
  cpu gpu npu edge cloud : RuntimeKind

-- `RuntimeKind::as_token`
unfoldable pub kind_token : RuntimeKind → String
kind_token cpu = "cpu"
kind_token gpu = "gpu"
kind_token npu = "npu"
kind_token edge = "edge"
kind_token cloud = "cloud"

-- the `match` of `FromStr`
unfoldable pub kind_of : String → Result RuntimeKind
kind_of t =
    if t == "cpu"
    then ok cpu
    else if t == "gpu"
    then ok gpu
    else if t == "npu"
    then ok npu
    else if t == "edge"
    then ok edge
    else if t == "cloud"
    then ok cloud
    else err (other (concat ("unknown runtime kind: " ∷ t ∷ [])))

unfoldable pub kind_from_str : String → Result RuntimeKind
unfolding kind_of normalised
kind_from_str s = kind_of (normalised s)

pub record InferenceRequest : Type 0 where
  pub input : String
  pub capability : Capability
  pub max_tokens : ℕ

pub record InferenceResponse : Type 0 where
  pub output : String
  pub tokens : ℕ

pub record Runtime : Type 0 where
  pub id : String
  pub name : String
  pub kind : RuntimeKind
  pub capabilities : List Capability
  pub run : (earlier : ℕ) → InferenceRequest → Result InferenceResponse

-- `Runtime::supports`
unfoldable pub supports : Capability → Runtime → Bool
supports cap r = contains cap r.capabilities

unfoldable pub locality_rank : RuntimeKind → ℕ
locality_rank edge = 0
locality_rank npu = 1
locality_rank gpu = 2
locality_rank cpu = 3
locality_rank cloud = 4

pub record RuntimeInfo : Type 0 where
  pub id : String
  pub name : String
  pub kind : RuntimeKind
  pub capabilities : List Capability

pub record RuntimeRegistry : Type 0 where
  pub runtimes : Map String Runtime
  pub order : List String

unfoldable pub new : RuntimeRegistry
new = record { runtimes = []; order = [] }

-- `register`: only a new id is added to the order
unfoldable pub register : RuntimeRegistry → Runtime → RuntimeRegistry
register reg runtime = record {
  runtimes = Map.insert reg.runtimes runtime.id runtime;
  order =
      if is_some (Map.get reg.runtimes runtime.id) then reg.order else reg.order ++ runtime.id ∷ [];
}

-- `order.iter().filter_map(|id| runtimes.get(id))`
unfoldable pub registered : Map String Runtime → List String → List Runtime
registered runtimes [] = []
registered runtimes (id ∷ ids) =
    let rest = registered runtimes ids in
    elim (Map.get runtimes id) [ none ↦ rest | some r ↦ r ∷ rest ]

unfoldable pub info : Runtime → RuntimeInfo
info r = record { id = r.id; name = r.name; kind = r.kind; capabilities = r.capabilities }

unfoldable pub list : RuntimeRegistry → List RuntimeInfo
unfolding registered info
list reg = map info (registered reg.runtimes reg.order)

unfoldable pub get : RuntimeRegistry → String → Option Runtime
get reg id = Map.get reg.runtimes id

-- `min_by_key`: the first of the least elements
unfoldable pub min_by_rank : List Runtime → Option Runtime
min_by_rank [] = none
min_by_rank (r ∷ rs) = elim (min_by_rank rs) [
  | none ↦ some r
  | some best ↦ if ltb (locality_rank best.kind) (locality_rank r.kind) then some best else some r
]

unfoldable pub candidates : RuntimeRegistry → Capability → List Runtime
unfolding registered supports
candidates reg cap = keep (supports cap) (registered reg.runtimes reg.order)

unfoldable pub select : RuntimeRegistry → Capability → Result Runtime
unfolding candidates min_by_rank as_token
select reg cap = ok_or (min_by_rank (candidates reg cap)) (capability_unavailable (as_token cap))
