-- ===== src/Engine.antt =====
-- sdk/src/engine.rs: the execution engine. `Engine/State` has its parts and the effects of a run,
-- `Engine/Execute` the execution of one task and `Engine/Workflow` that of a whole workflow; the
-- other modules prove what they guarantee.
pub mod State
pub mod Execute
pub mod Ends
pub mod Serving
pub mod Outcome
pub mod Workflow
