-- ===== src/Tap.antt =====
-- src/media-tap.ts: the fan-out of a room's media to its consumers.
pub mod Queue
pub mod Fanout
pub mod Order
pub mod Account
pub mod Pushed
pub mod Taken
pub mod Receipt
mod Tests
