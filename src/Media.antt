-- ===== src/Media.antt =====
-- The media pipeline: src/media.
pub mod AuRing
pub mod FramePool
pub mod FrameHub
pub mod Yuv
pub mod EncoderWorker
