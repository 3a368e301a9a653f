-- ===== src/Escalation.antt =====
-- packages/monitoring/src/escalation: the timed follow-up of an open incident by a policy's steps.
pub mod Policy
pub mod Paging
pub mod Engine
pub mod Firing
pub mod Positions
pub mod Rounds
pub mod Choices
pub mod Guards
mod Tests
