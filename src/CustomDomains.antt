-- ===== src/CustomDomains.antt =====
-- packages/shared/src/domains.ts and apps/api/src/services/custom-domain.service.ts: status pages
-- under the hostnames of customers.
pub mod Hostnames
pub mod Service
pub mod Normal
pub mod Serving
mod Tests
