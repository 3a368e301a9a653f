-- ===== src/Scheduler.antt =====
-- packages/monitoring/src/scheduler.ts: the repeated check jobs of the monitors. The queue of each
-- region is a parameter, with what the scheduler relies on as laws.
pub mod Maps
pub mod Desired
pub mod Sync
pub mod Converge
pub mod Stable
mod Tests
