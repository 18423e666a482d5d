-- ===== src/Writer.antt =====
-- apps/runner/src/agent/event-writer.ts, which batches a run's events into the metadata database.
pub mod State
pub mod Order
pub mod Cap
mod Tests
