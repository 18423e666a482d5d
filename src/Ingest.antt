-- ===== src/Ingest.antt =====
-- How a batch of events reaches the metadata database: apps/runner/src/agent/run-projection.ts folds it
-- into patches, and `applyProjection` of apps/runner/src/agent/ingestion.ts writes these.
pub mod Project
pub mod Store
pub mod Upserts
pub mod Again
pub mod Finished
pub mod Outcome
mod Tests
