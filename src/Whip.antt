-- ===== src/Whip.antt =====
-- src/whip*.ts: the records of the WHIP resources, their billing, and the sweep of the orphans.
pub mod Resource
pub mod Meter
pub mod Plan
pub mod Sweep
pub mod Buckets
pub mod Effects
pub mod Visit
pub mod Rule
pub mod Found
pub mod Refine
pub mod Deaths
pub mod Billing
pub mod Orphans
pub mod Cron
pub mod Limit
mod Tests
