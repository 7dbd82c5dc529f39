-- ===== src/Lib.antt =====
-- camstream, a webcam-to-browser WebRTC server in C. A source thread captures frames and publishes
-- them to the frame hub; an encode thread takes them from its mailbox and pushes access units into
-- a ring; the main thread drains the ring into one session for each viewer. A session answers the
-- STUN checks of its viewer, passes DTLS records to its engine until the keys are there, cuts the
-- access units into RTP packets and acts on the RTCP feedback.
--
-- Media/AuRing models src/media/au_ring.c, Media/FramePool models src/media/frame_pool.c and
-- Media/FrameHub models src/media/frame_hub.c. Media/Yuv models src/media/yuv_convert.c, and
-- Media/EncoderWorker the loop of src/media/encoder_worker.c, which joins the hub, the ring and
-- the conversion: its rounds may alternate with steps of the other threads on the shared objects.
-- Base has the lists, buffers and tests that they share, and Base/Walk the slots of a circular
-- queue. WebRtc/Rtcp models src/webrtc/rtcp.c, WebRtc/RtpH264 models src/webrtc/rtp_h264.c and
-- WebRtc/IceLite models src/webrtc/ice_lite.c; WebRtc/Wire has the big-endian words of all three.
--
-- WebRtc/Dtls models the part of src/webrtc/dtls_srtp.c that has no callback: the queue of
-- records, the fingerprint and the layout of the keys. A text of a digest that does not fit its
-- buffer is `none`; the digests are those of SHA-256, which fit, so what the overrun does is not
-- followed. WebRtc/Session models src/webrtc/webrtc_session.c with the functions of the engine
-- that call back into it: Session/Media has what a session sends, Session/Datagram what it does
-- with a datagram, Session/Life the machine that its life follows, each step named by what the
-- libraries answer in the call that makes it, and Session/Calls the calls of the server in any
-- order. `rtc_session_close` and `dtls_srtp_close` call one another; the model has the depth of
-- the calls as an argument, two are made at most, and more change nothing.
--
-- WebRtc/Sdp models the parse of an offer in src/webrtc/sdp.c, and Base/Strtol the two functions of
-- the C library by which it and the command line read numbers.
--
-- Janus/RtpSender models the thread of src/janus/janus_rtp_sender.c, which in the Janus build takes the
-- place of the sessions: it drains the ring into one stream of RTP packets. Its drain has one round
-- more than the ring has access units.
--
-- App/Config models the command line of src/app/app_config.c, in each of the three builds. Its loop
-- has a round for each argument, and each takes one at least.
--
-- A C struct is a record; a function that updates it returns the new one. The pointer to the
-- struct itself is never null in the model: the guards for that are left out. An array is a list
-- with native indices, `memcpy` is `blit`, and a buffer with its length is one list. A function
-- that takes a lock does its work under it, so it is one step. Sums of sizes and indices cannot
-- wrap, since they are bounded by the size of an array in memory; counters and sequence numbers
-- keep their wrap-around. The parsers of RTCP and of STUN read by functions that return `none`
-- outside the buffer; the scan for start codes and the conversion read 0 there. The loops of the
-- parsers and of the packetizer run on fuel that the length of the buffer bounds: each round moves
-- on by a byte at least. The loops over the pixels of a frame run on the count of rounds that are
-- left. The datagrams that a session sends are a list in its record, and the two hooks of the
-- server are counters of their calls.
--
-- The HMAC of the crypto library is a parameter of WebRtc/IceLite, and the function that an
-- encoder object points to is a parameter of each round of Media/EncoderWorker. What the clock,
-- OpenSSL and libsrtp answer during a call of a session is an argument of the call, the record Env
-- of WebRtc/Session: which reads and writes an SSL function makes and how it ends, the exported
-- keys, the digest of the peer's certificate, and the protection of a packet.
--
-- Not modelled are sockets and threads, the camera, the encoders, the certificate and the set-up of
-- the libraries, the text of the answer to an offer, and the web server.
pub mod App
pub mod Base
pub mod Janus
pub mod Media
pub mod WebRtc
