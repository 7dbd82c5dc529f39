-- ===== src/WebRtc.antt =====
-- The WebRTC stack: src/webrtc.
pub mod Wire
pub mod Rtcp
pub mod RtpH264
pub mod IceLite
pub mod Dtls
pub mod Sdp
pub mod Session
