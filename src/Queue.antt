-- ===== src/Queue.antt =====
-- apps/runner/src/agent/queue-store.ts, with the writes to `runs` of
-- apps/web/server/repositories/runs.repo.ts. `Tables` has the rows, `Statements` and `Sweep` the SQL
-- statements as functions of the tables, `Repository` the writes of the other files, and the other
-- children prove what the queue promises.
pub mod Rows
pub mod Tables
pub mod Statements
pub mod Sweep
pub mod Repository
pub mod Exclusion
pub mod Picked
pub mod Claims
pub mod Steps
pub mod Frozen
pub mod Leases
mod Tests
