-- ===== src/Lib.antt =====
-- CKOS, a kernel for knowledge work: tasks are scheduled, executed on runtimes, verified and audited.
--
-- The program's parts and the files that model them (paths from the repository's root):
--   Kernel      kernel/src: errors, permission tokens, capabilities, the task and its lifecycle, the
--               event bus, the audit log and the telemetry, each in the child of its name;
--               Kernel/Doubles is the interface for `f64`
--   Policy      policy/src/lib.rs and, in Policy/Identity, policy/src/identity.rs
--   Plugins     plugins/src/lib.rs, the tool registry and its gate
--   Runtime     runtime/src/lib.rs, the runtimes and the selection of one for a capability
--   Agents      sdk/src/agent.rs, the lifecycle of agents and the registry by capability
--   Verifier    verifier/src/lib.rs, verdicts, reports and the verifier
--   Scheduler   scheduler/src/lib.rs, scores, the pending queue and its dispatch
--   Workflow    workflow/src/lib.rs, graphs of steps and their execution order
--   Planner     planner/src/lib.rs: plans wired from subtasks, and the heuristic planner
--   Graph       graph/src/lib.rs, the knowledge graph, its changes and its traversal; in
--               Graph/Versioning graph/src/versioning.rs, the versions, branches and merges of graphs
--   Memory      memory/src/lib.rs, documents and the storage in memory, and in Memory/Collection
--               memory/src/maintenance.rs, its garbage collection; in Memory/Headers the
--               escaping of memory/src/file_store.rs
--   Engine      sdk/src/engine.rs: Engine/State has the state that an execution changes,
--               Engine/Execute the method `Engine::execute` in its stages, and Engine/Workflow the
--               loop of `Engine::run_workflow` with its retries; Engine/Ends describes the ends of
--               an execution and what leads to each
--   Reflection  sdk/src/reflection.rs: the evaluation of results and their consensus
--   Web         web/src/json.rs, the escaping of texts
--   Messaging   sdk/src/messaging.rs: messages, inboxes and the routing mesh
--   Base        what these share: tests, lists, maps as association lists, texts
--   Examples    test data, and the theorems at concrete inputs
-- Other children hold lemmas and theorems about the module that they stand under.
--
-- Correspondence. A struct is a record with the source's fields and an enum a data type with its
-- variants; `&mut self` is a state that is passed in and returned. `Result` is `Kernel.Error.Result`;
-- `execute` is a function from a context (the task and the world of the bus, the log and the
-- telemetry) to a result and a context, so what was done before an early return stays done. A hash
-- map is an association list that is read by its first entry, a hash set the list of its elements.
-- `u32`, `u64` and `usize` arithmetic wraps around where the source's does in a release build.
--
-- Taken as parameters, since the repository does not decide them: what runtimes, tools, checks and
-- subscribers compute, the clock, the ids that `id.rs` mints, the lower-casing of Unicode texts
-- (`lower`), which numbers of an embedding are finite or zero, and the arithmetic of `f32` and `f64`.
-- Their operations are the records `Scheduler.Floats.Float` and `Kernel.Doubles.Double`, and their
-- laws, facts of IEEE 754, are `Scheduler.Floats.FloatLaws` and `Kernel.Doubles.DoubleLaws`.
-- Examples/Fixed and Examples/Kernels give an arithmetic that has them.
--
-- Bounds and fuel. `run_loop` of Engine/Workflow has three units of fuel for each task and one more: a
-- task is dispatched at most once more than its two retries, and the last round finds nothing to
-- dispatch. `place_all` of Workflow has one unit of fuel more than there are steps; a step is
-- placed at most once, so its loop ends with the list of ready steps empty before the fuel does.
-- `search` of Graph has two units more than the graph has edges: a node enters the queue at most
-- once, the start at first and any other by an edge that led to it first. `log` of Graph/Versioning
-- has as much fuel as there are versions, and every parent is older than its child.
--
-- Not modelled: locks (each method of a locked object is one step), parsers and printers of
-- manifests, workflows and queries, the page rank, the check of dates and the Graphviz output of the
-- knowledge graph, the files of the memory, summaries, embeddings and retrieval, sessions, the JSON
-- values but for their texts, the web server and the command line.
pub mod Base
pub mod Kernel
pub mod Policy
pub mod Plugins
pub mod Planner
pub mod Web
pub mod Workflow
pub mod Scheduler
pub mod Reflection
pub mod Runtime
pub mod Agents
pub mod Verifier
pub mod Engine
pub mod Memory
pub mod Messaging
pub mod Graph
pub mod Examples
