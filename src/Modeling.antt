-- ===== src/Modeling.antt =====
-- The modeling pipeline, internal/modeling: a project moves through five stages, each of which
-- leaves artifacts behind.
pub mod Types
pub mod Names
pub mod StageMap
pub mod Project
pub mod Ints
pub mod RegIr
pub mod Store
pub mod Classify
pub mod Steps
pub mod Artifacts
pub mod Apply
pub mod Pipeline
pub mod Applier
