-- ===== src/StatusPages.antt =====
-- apps/api/src/services/status-page.service.ts: what the public page shows and who subscribes to it.
pub mod PublicPage
pub mod Subscribers
pub mod Overall
pub mod Confirmation
pub mod Lifecycle
mod Tests
