-- ===== src/Verifier.antt =====
-- verifier/src/lib.rs: verdicts, reports and the verifier that runs a set of checks.
pub mod Verdicts
use ckos.Base.{String, List, [], ◌∷◌, ◌++◌, map, Bool, true, false, all}

pub data Verdict : Type 0 where
  pass : Verdict
  fail : String → Verdict
  skip : Verdict

unfoldable pub is_ok : Verdict → Bool
is_ok (fail why) = false
is_ok _ = true

-- A check is its name and its evaluation of a candidate output.
pub record Check : Type 0 where
  pub name : String
  pub evaluate : String → Verdict

pub record Report : Type 0 where
  pub results : List (String × Verdict)

unfoldable pub passed : Report → Bool
unfolding is_ok
passed report = all (λ r. is_ok r.1) report.results

-- the `filter_map` of `failures`
unfoldable pub failing : List (String × Verdict) → List (String × String)
failing [] = []
failing ((name, fail why) ∷ rest) = (name, why) ∷ failing rest
failing ((name, pass) ∷ rest) = failing rest
failing ((name, skip) ∷ rest) = failing rest

unfoldable pub failures : Report → List (String × String)
unfolding failing
failures report = failing report.results

pub record Verifier : Type 0 where
  pub checks : List Check

unfoldable pub new : Verifier
new = record { checks = [] }

unfoldable pub with_check : Verifier → Check → Verifier
with_check v check = record v { checks = v.checks ++ check ∷ [] }

unfoldable pub verify : Verifier → String → Report
verify v output = record { results = map (λ c. (c.name, c.evaluate output)) v.checks }
