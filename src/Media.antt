-- ===== src/Media.antt =====
-- The media formats: src/encoders/ivf.ts and src/muxer/webm.ts.
pub mod Bytes
pub mod Double
pub mod Ivf
pub mod Webm
mod Tests
