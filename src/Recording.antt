-- ===== src/Recording.antt =====
-- src/recording-writer.ts: the writer of a recording to one object of a bucket.
pub mod Key
pub mod Writer
pub mod Bytes
pub mod Whole
pub mod Stream
pub mod Object
pub mod Session
pub mod Loss
mod Tests
