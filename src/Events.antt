-- ===== src/Events.antt =====
-- The event stream of a run: packages/core/src/domain/types/events.types.ts and the sinks of
-- packages/core/src/application/events, through which the child process emits it.
pub mod Types
pub mod Sinks
pub mod Samples
mod Tests
