-- ===== src/Tests.antt =====
-- Concrete inputs: the data of the tests, and one instance of each theorem that has hypotheses.
pub mod Samples
pub mod Projects
pub mod Stores
pub mod Registers
pub mod Runs
pub mod Artifacts
pub mod Landing
pub mod Sessions
pub mod Calls
pub mod Memories
pub mod Workflows
pub mod Configs
