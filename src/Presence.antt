-- ===== src/Presence.antt =====
-- src/presence.ts, and the version counter and the presence socket of the class RoomDO in src/room.ts.
pub mod View
pub mod Wire
pub mod Engine
pub mod Fanout
pub mod Abuse
pub mod Version
mod Tests
