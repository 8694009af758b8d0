-- ===== src/Examples.antt =====
-- Test data, tests and the theorems of the other modules at concrete inputs.
pub mod Fixed
pub mod Kernels
pub mod Policies
pub mod Registries
pub mod Schedules
pub mod Engines
pub mod Workflows
pub mod Messages
pub mod Graphs
pub mod Documents
pub mod Repositories
pub mod Reflections
