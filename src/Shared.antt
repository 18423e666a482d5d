-- ===== src/Shared.antt =====
-- packages/core/src/shared/utils.ts: splitting a list into chunks and retrying with backoff.
pub mod Utils
pub mod Laws
mod Tests
