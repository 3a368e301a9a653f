-- ===== src/Alerting.antt =====
-- packages/monitoring/src/alerting: fan-out of an incident to alert channels, and the delivery of
-- one alert over its channel's transport.
pub mod Dispatch
pub mod Delivery
mod Tests
