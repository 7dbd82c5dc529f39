-- ===== src/Janus.antt =====
-- The parts of src/janus.
pub mod RtpSender
