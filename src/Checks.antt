-- ===== src/Checks.antt =====
-- One full check of a monitor: validations of a signal, and the probe loop with retries.
pub mod Comparators
pub mod Validations
pub mod Execute
pub mod Verdicts
pub mod Retries
mod Tests
