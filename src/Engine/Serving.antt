-- ===== src/Engine/Serving.antt =====
-- How the run of a selected runtime in `Engine::execute` of sdk/src/engine.rs ends.
use ckos.Base.{String, true, false, ◌≡◌, refl, arith, inl, inr, Bool-cases, Option}
use ckos.Kernel.Audit.{is_error, with_error, with_input, with_output, with_runtime, new}
use ckos.Kernel.Capability.{capability_eq}
use ckos.Kernel.Error.{Result, ok, Result-cases, to_string}
use ckos.Kernel.Task.{TaskState, queued, running, transition_to, can_transition_to, is_retry}
use mathlib.Core.List.{append_assoc}
use ckos.Agents.{discover}
use ckos.Runtime.{select, Runtime, InferenceResponse}
use ckos.Verifier.{passed, verify, failures}
use ckos.Verifier.Verdicts.{passed-Objects}
use ckos.Engine.Ends.{crashed, rejected, accepted, first_manifest, answer, AdmittedTo, Ends}
use ckos.Engine.State.{Surroundings, Engine, Context, transition}
use ckos.Engine.Execute.{join, serve, responded, settle}

transition_lem :
    (next : TaskState) (c : Context)
    → can_transition_to c.task.state next ≡ true
    → is_retry next ≡ false
    → transition next c ≡ (ok tt, record c { task = record c.task { state = next } })
unfolding transition transition_to
transition_lem next c h k = ground arith

module _ (env : Surroundings) (engine : Engine) where
  abbrev answer_to : Runtime → Context → Result InferenceResponse
  answer_to rt c = answer engine c.task.capability c.task.description c.world.runs rt

  -- Once a runtime is selected for a queued task.
  pub serve-Ends :
      (agent : Option String) (rt : Runtime) (c : Context)
      → c.task.state ≡ queued
      → AdmittedTo engine c
      → select engine.runtimes c.task.capability ≡ ok rt
      → agent ≡ first_manifest (discover engine.agents c.task.capability)
      → Ends engine c (serve env engine agent rt c)
  unfolding serve can_transition_to transition_to is_error with_error with_input with_output
      with_runtime new
  serve-Ends agent rt c q free found own =
      rw (transition_lem running c (rw q) refl) (elim (Result-cases (answer_to rt c)) [
        | inr (e, down) ↦
            rw (down, responded)
              (
                crashed (to_string e),
                record {
                  due = record {
                    runtime = rt;
                    error = e;
                    admitted = free;
                    selected = found;
                    answered = down;
                    explained = refl;
                    returned = refl;
                  };
                  task = refl;
                  events = append_assoc c.world.events _ _;
                  runs = refl;
                  entry = _;
                  audited = refl;
                  action = refl;
                  of_input = refl;
                  of_output = refl;
                  error = refl;
                  flagged = refl;
                  returned = (e, refl);
                },
              )
        | inl (response, up) ↦ elim (Bool-cases (passed (verify engine.verifier response.output))) [
          | inl good ↦
              rw (up, responded, good, settle)
                (
                  accepted,
                  record {
                    due = (
                      response,
                      record {
                        runtime = rt;
                        result = _;
                        admitted = free;
                        selected = found;
                        answered = up;
                        returned = refl;
                        named = refl;
                        output = refl;
                        capability = refl;
                        agent = own;
                      },
                      (λ bad. cc (good, (passed-Objects engine.verifier response.output).1 bad)),
                    );
                    task = refl;
                    events = append_assoc c.world.events _ _;
                    runs = refl;
                    entry = _;
                    audited = refl;
                    action = refl;
                    of_input = refl;
                    of_output = refl;
                    error = refl;
                    flagged = refl;
                    returned = (_, refl, refl, refl, refl);
                  },
                )
          | inr bad ↦
              rw (up, responded, bad, settle)
                (
                  rejected (join (failures (verify engine.verifier response.output))),
                  record {
                    due = (
                      response,
                      record {
                        runtime = rt;
                        result = _;
                        admitted = free;
                        selected = found;
                        answered = up;
                        returned = refl;
                        named = refl;
                        output = refl;
                        capability = refl;
                        agent = own;
                      },
                      (passed-Objects engine.verifier response.output).0 bad,
                      refl,
                    );
                    task = refl;
                    events = append_assoc c.world.events _ _;
                    runs = refl;
                    entry = _;
                    audited = refl;
                    action = refl;
                    of_input = refl;
                    of_output = refl;
                    error = refl;
                    flagged = refl;
                    returned = (_, refl, refl, refl, refl);
                  },
                )
        ]
      ])
