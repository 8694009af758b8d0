-- ===== src/Examples/Registries.antt =====
-- The registries of runtimes and agents and the verifier at concrete inputs.
use ckos.Base.{◌↔◌, normalised, String, [], ◌∷◌, ◌≡◌, ◌⊎◌, refl, some, AnyOf, arith, string_eq}
use text.Mathlib.TextEquality.{eq_iff}
use ckos.Base.Map
use ckos.Kernel.Capability.{coding, vision, as_token}
use ckos.Kernel.Error.{ok, err, other, capability_unavailable}
use ckos.Runtime
use ckos.Runtime.{
  kind_token, kind_from_str, gpu, Runtime, RuntimeRegistry, cpu, edge, cloud, candidates, select,
  supports,
}
use ckos.Runtime.Registry.{IsIndexed, IsIndexed-new, register-IsIndexed}
use ckos.Runtime.Nearest.{IsFirstNearest, Offers}
use ckos.Runtime.Selection.{select_cases}
use ckos.Runtime.Tokens.{from_str_iff}
use ckos.Kernel.Task.{high, priority_token, priority_from_str, normal}
use ckos.Agents.{AgentInstance, CapabilityRegistry, ready, running, terminated, discover}
use ckos.Agents.Service.{IsKeyed, transition_all, terminated-discover}
use ckos.Verifier.{pass, fail, skip, Check, Report}

abbrev in_cloud : Runtime
in_cloud = record {
  id = "r1";
  name = "cloud";
  kind = cloud;
  capabilities = coding ∷ vision ∷ [];
  run = λ earlier req. err (other "offline");
}

abbrev on_edge : Runtime
on_edge = record in_cloud { id = "r2"; name = "edge"; kind = edge; capabilities = coding ∷ [] }

abbrev two_runtimes : RuntimeRegistry
two_runtimes = Runtime.register (Runtime.register Runtime.new in_cloud) on_edge

two_runtimes-IsIndexed : IsIndexed two_runtimes
two_runtimes-IsIndexed =
    register-IsIndexed (Runtime.register Runtime.new in_cloud) on_edge
      (register-IsIndexed Runtime.new in_cloud IsIndexed-new)

register-IsIndexed_example : IsIndexed two_runtimes
register-IsIndexed_example =
    register-IsIndexed (Runtime.register Runtime.new in_cloud) on_edge
      (register-IsIndexed Runtime.new in_cloud IsIndexed-new)

select_cases_example :
    ((r : Runtime) × (select two_runtimes coding ≡ ok r)
      × IsFirstNearest two_runtimes.runtimes two_runtimes.order coding r)
    ⊎ ((select two_runtimes coding ≡ err (capability_unavailable (as_token coding)))
        × ((id : String) (r : Runtime)
            → Map.get two_runtimes.runtimes id ≡ some r
            → ¬ Offers coding r))
select_cases_example = select_cases two_runtimes coding two_runtimes-IsIndexed

-- The most local of the two runtimes is chosen, though it was registered last.
edge_first : select two_runtimes coding ≡ ok on_edge
unfolding select candidates Runtime.registered Runtime.register Runtime.new Map.get Map.insert
    Runtime.locality_rank
edge_first = refl

abbrev retired : AgentInstance
retired = record {
  instance_id = "a1";
  manifest = record {
    id = "coder";
    version = "0.1.0";
    description = "";
    capabilities = coding ∷ [];
    memory = [];
    runtimes = [];
    permissions = [];
    priority = normal;
  };
  state = terminated;
}

abbrev office : CapabilityRegistry
office = record { agents = ("a1", retired) ∷ []; by_capability = ("coding", "a1" ∷ []) ∷ [] }

office-IsKeyed : IsKeyed office
unfolding Map.get
office-IsKeyed id a h = ground (arith, eq_iff "a1" id)

terminated-discover_example :
    ¬ AnyOf
      (λ b. b.instance_id ≡ "a1")
      (discover (transition_all office (("a1", ready) ∷ ("a1", running) ∷ [])) coding)
unfolding Map.get
terminated-discover_example =
    terminated-discover office (("a1", ready) ∷ ("a1", running) ∷ []) "a1" retired coding
      office-IsKeyed refl refl

abbrev mixed : Report
mixed = record { results = ("length", pass) ∷ ("json", skip) ∷ [] }

abbrev never : Check
never = record { name = "never"; evaluate = λ output. fail "no" }

from_str_iff_example :
    ((priority_from_str " High " ≡ ok high) ↔ (normalised " High " ≡ priority_token high))
    × ((kind_from_str " High " ≡ ok gpu) ↔ (normalised " High " ≡ kind_token gpu))
from_str_iff_example = from_str_iff " High " high gpu
