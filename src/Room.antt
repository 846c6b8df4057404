-- ===== src/Room.antt =====
-- src/room-state.ts and the class RoomCore of src/room.ts.
pub mod State
pub mod Core
pub mod Admin
pub mod Tracks
pub mod Store
pub mod Serve
pub mod Change
pub mod Banned
pub mod Isolation
pub mod Capacity
pub mod Lock
pub mod Clock
pub mod Seats
pub mod Durable
pub mod Knock
pub mod Usage
mod Tests
