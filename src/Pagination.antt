-- ===== src/Pagination.antt =====
-- packages/shared/src/pagination.ts and apps/api/src/services/cursor.ts: lists in pages.
pub mod Pages
pub mod Order
pub mod Cut
pub mod Walk
pub mod Views
mod Tests
