-- ===== src/Billing.antt =====
-- apps/api/src/services/billing-webhook.service.ts: the events of the payment provider, and the
-- subscriptions that they change.
pub mod Values
pub mod Tables
pub mod Effects
pub mod Webhook
pub mod Replay
mod Tests
