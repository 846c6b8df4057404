-- ===== src/Media/Webm.antt =====
-- src/muxer/webm.ts: the WebM muxer.
pub mod Ebml
pub mod Muxer
pub mod Header
pub mod Timeline
