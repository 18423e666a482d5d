-- ===== src/Client.antt =====
-- apps/web/app/utils/run-reducer.ts, the browser's fold of a run's event stream, with the wire types of
-- apps/web/shared/run-wire.ts. `State` has the types and `Fold` the functions; the other children prove
-- what the fold promises.
pub mod State
pub mod Fold
pub mod Replay
pub mod Rows
pub mod Tables
mod Logs
pub mod Batches
pub mod Keyed
mod Tests
