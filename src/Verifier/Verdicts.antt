-- ===== src/Verifier/Verdicts.antt =====
-- The verdict of a verifier of verifier/src/lib.rs as a whole.
use ckos.Base.{
  String, List, [], ◌∷◌, map, true, false, ◌&&◌, ◌≡◌, ◌↔◌, refl, arith, all, all-append, ◌∙◌, AnyOf,
  inl, inr, Bool-cases,
}
use mathlib.Core.List.{map-append}
use ckos.Verifier.{
  Verdict, pass, fail, skip, is_ok, Report, Check, Verifier, passed, failing, failures, verify,
  with_check,
}

failing_nil : (rs : List (String × Verdict)) → (all (λ r. is_ok r.1) rs ≡ true) ↔ (failing rs ≡ [])
unfolding failing is_ok
failing_nil [] = (λ h. refl, λ h. refl)
failing_nil ((name, pass) ∷ rs) = failing_nil rs
failing_nil ((name, skip) ∷ rs) = failing_nil rs
failing_nil ((name, fail why) ∷ rs) = (cc, cc)

-- A report passed exactly when it lists no failure.
pub passed_iff : (report : Report) → (passed report ≡ true) ↔ (failures report ≡ [])
unfolding passed failures
passed_iff report = failing_nil report.results

-- Adding a check can only make a verifier stricter: an output passes with it exactly when it
-- passed before and the new check does not fail it.
pub passed-with_check :
    (v : Verifier) (check : Check) (output : String)
    → passed (verify (with_check v check) output)
      ≡ (passed (verify v output) && is_ok (check.evaluate output))
unfolding passed verify with_check
passed-with_check v check output =
    let run : Check → String × Verdict = λ c. (c.name, c.evaluate output) in
    rw (map-append run v.checks (check ∷ []))
      (all-append (λ r. is_ok r.1) (map run v.checks) (run check ∷ []) ∙ ground arith)

-- The check fails the output, whatever reason it gives.
abbrev pub Objects : String → Check → Type 0
Objects output check = (why : String) × (check.evaluate output ≡ fail why)

is_ok_iff : (v : Verdict) → (is_ok v ≡ false) ↔ ((why : String) × (v ≡ fail why))
unfolding is_ok
is_ok_iff pass = (cc, λ h. cc h.1)
is_ok_iff skip = (cc, λ h. cc h.1)
is_ok_iff (fail why) = (λ e. (why, refl), λ h. refl)

rejected_iff :
    (checks : List Check) (output : String)
    → (all {A = String × Verdict} (λ r. is_ok r.1) (map (λ c. (c.name, c.evaluate output)) checks)
        ≡ false)
      ↔ AnyOf (Objects output) checks
rejected_iff [] output = (cc, absurd)
rejected_iff (c ∷ cs) output =
    let (here, back) = is_ok_iff (c.evaluate output) in
    let (later, before) = rejected_iff cs output in
    (
      (λ e. elim (Bool-cases (is_ok (c.evaluate output))) [
        | inl fine ↦ inr (later (rw fine at e))
        | inr bad ↦ inl (here bad)
      ]),
      elim [ inl bad ↦ rw (back bad) refl | inr there ↦ ground (arith, before there) ],
    )

-- A verifier rejects an output exactly when one of its checks fails it.
pub passed-Objects :
    (v : Verifier) (output : String)
    → (passed (verify v output) ≡ false) ↔ AnyOf (Objects output) v.checks
unfolding passed verify
passed-Objects v output = rejected_iff v.checks output
