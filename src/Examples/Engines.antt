-- ===== src/Examples/Engines.antt =====
-- The engine at concrete parts: an echo runtime, a clinic's policy and a check for empty output.
use ckos.Base.{◌+◌, ◌*◌, [], ◌∷◌, refl, inl, none, some, if◌then◌else◌, ◌==◌, string_eq, nat_eq}
use ckos.Kernel.Capability.{medical}
use ckos.Kernel.Error.{ok, err, other}
use ckos.Kernel.Task.{created, normal}
use ckos.Runtime.{Runtime, cpu}
use ckos.Verifier.{Check, pass, fail}
use ckos.Examples.Kernels.{whole}
use ckos.Engine.State.{Surroundings, Engine, Context}
use ckos.Engine.Execute.{execute}
use ckos.Engine.Ends.{Ends}
use ckos.Engine.Outcome.{execute-Ends}

abbrev pub desk : Surroundings
desk = record { now_ms = λ n. 1000 + n; elapsed_ns = λ n. 500 * n; doubles = whole }

-- It fails on its first request and echoes later ones.
abbrev flaky : Runtime
flaky = record {
  id = "r1";
  name = "flaky";
  kind = cpu;
  capabilities = medical ∷ [];
  run = λ earlier req.
      if earlier == 0
      then err (other "cold start")
      else ok (record { output = req.input; tokens = 3 });
}

abbrev not_empty : Check
not_empty = record {
  name = "not_empty";
  evaluate = λ out. if out == "" then fail "empty" else pass;
}

abbrev pub clinic_engine : Engine
clinic_engine = record {
  runtimes = record { runtimes = ("r1", flaky) ∷ []; order = "r1" ∷ [] };
  agents = record { agents = []; by_capability = [] };
  verifier = record { checks = not_empty ∷ [] };
  access = some (
    record { role_permissions = ("doctor", "capability.*" ∷ []) ∷ []; abac_rules = [] },
    record { subject = "alice"; roles = "doctor" ∷ []; attributes = [] },
  );
}

abbrev start : Context
start = record {
  task = record {
    id = "t1";
    workflow = none;
    description = "read the scan";
    capability = medical;
    priority = normal;
    depends_on = [];
    state = created;
    attempts = 0;
  };
  world = record {
    events = [];
    audit = record { records = []; max_records = 100 };
    telemetry = record { samples = []; max_samples = 100 };
    runs = 1;
    stamps = 0;
  };
}

execute-Ends_example : Ends clinic_engine start (execute desk clinic_engine start)
execute-Ends_example = execute-Ends desk clinic_engine start (inl refl)
