-- ===== src/Metering.antt =====
-- src/metering.ts: the usage of a participant as lines for the gateway's meters.
pub mod Lines
pub mod Billed
mod Tests
