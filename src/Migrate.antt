-- ===== src/Migrate.antt =====
-- The migration core, packages/core/src: the planner of the load order, the use cases and the
-- orchestrator that runs them as nine steps.
pub mod Schema
pub mod Language
pub mod Failure
pub mod Effects
pub mod Carry
pub mod Carried
pub mod Translate
pub mod Planner
pub mod Counting
pub mod Symmetry
pub mod Levels
pub mod Visits
pub mod Rounds
pub mod Edges
pub mod Names
pub mod Plans
pub mod Progress
pub mod Ports
pub mod Orchestrator
pub mod Triples
pub mod Lifecycle
pub mod Kept
pub mod Actions
pub mod Stages
pub mod Outcome
pub mod Triggers
mod Tests
