-- ===== src/Ssrf.antt =====
-- packages/notifications/src/security/ssrf.ts: which addresses an outbound request may reach.
pub mod V4
pub mod V6
pub mod Guard
pub mod Quads
mod Hex
pub mod Ranges
pub mod Mapped
pub mod Safety
mod Tests
