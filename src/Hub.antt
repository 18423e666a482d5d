-- ===== src/Hub.antt =====
-- The realtime hub: who watches which run, and what each socket is sent, apps/web/server/runs/run-hub.ts.
pub mod State
pub mod Rooms
pub mod Granted
pub mod Isolation
pub mod Delivery
mod Tests
