-- ===== src/Pipeline.antt =====
-- packages/monitoring/src/pipeline.ts and flapping.ts: what one check outcome does to the store.
pub mod Snapshots
pub mod Incidents
pub mod Process
pub mod Lifecycle
pub mod Outages
pub mod Alerts
pub mod Effects
pub mod Tenancy
pub mod Processor
pub mod Results
mod Tests
