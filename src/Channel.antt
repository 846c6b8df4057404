-- ===== src/Channel.antt =====
-- src/channel.ts and src/channel-do.ts: the publish and subscribe channels.
pub mod Recent
pub mod Ring
pub mod Hub
pub mod Object
pub mod History
mod Tests
