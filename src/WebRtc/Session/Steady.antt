-- ===== src/WebRtc/Session/Steady.antt =====
-- The functions of src/webrtc/webrtc_session.c that send, and leave the core of a session alone.
use ideal_broccoli.Base.{
  ℕ, ◌+◌, ◌%◌, ◌≡◌, refl, ◌∙◌, Bool, not, ◌&&◌, ◌||◌, Bool-cases, inl, inr, none, Option-cases,
  List, [], ◌∷◌, ltb, if◌then◌else◌, length, get_or, take,
}
use ideal_broccoli.WebRtc.IceLite.{Peer, stun_build_error_response}
use ideal_broccoli.WebRtc.RtpH264.{RtpPacket, packetize}
use ideal_broccoli.WebRtc.Rtcp
use ideal_broccoli.WebRtc.Rtcp.{RtcpFeedback}
use ideal_broccoli.WebRtc.Session.{RtcSession, RtcSessionState, Env, is_in, retx_cache_size}
use ideal_broccoli.WebRtc.Session.Media.{
  rtp_packet_sink, sink_all, rtc_session_send_access_unit, retransmit, retransmit_all, send_report,
}
use ideal_broccoli.WebRtc.Session.Datagram.{send_to, stun_send_error}
use ideal_broccoli.WebRtc.Session.Core.{core, core-send_udp}

pub core-rtp_packet_sink :
    (env : Env) (packet : RtpPacket) (s : RtcSession) → core (rtp_packet_sink env packet s) ≡ core s
unfolding rtp_packet_sink
core-rtp_packet_sink env packet s =
    elim (Bool-cases (ltb (1200 + 64) (length packet.bytes) || not s.dtls.srtp_ready)) [
      | inl e ↦ simp (rtp_packet_sink, e) refl
      | inr e ↦ elim (Option-cases (env.protect packet.bytes)) [
        | inl f ↦ simp (rtp_packet_sink, e, f) refl
        | inr (bytes, f) ↦ simp (rtp_packet_sink, e, f) (core-send_udp bytes s)
      ]
    ]

pub core-sink_all :
    (env : Env) (packets : List RtpPacket) (s : RtcSession) → core (sink_all env packets s) ≡ core s
unfolding sink_all
core-sink_all env [] s = refl
core-sink_all env (packet ∷ packets) s =
    core-sink_all env packets (rtp_packet_sink env packet s) ∙ core-rtp_packet_sink env packet s

pub core-send_access_unit :
    (env : Env) (access_unit : List ℕ) (pts_us : ℕ) (is_idr : Bool) (s : RtcSession)
    → core (rtc_session_send_access_unit env access_unit pts_us is_idr s).0 ≡ core s
unfolding rtc_session_send_access_unit
core-send_access_unit env access_unit pts_us is_idr s =
    elim (Bool-cases (is_in s.state RtcSessionState.streaming)) [
      | inr e ↦ simp (rtc_session_send_access_unit, e) refl
      | inl e ↦ elim (Option-cases (packetize s.rtp access_unit pts_us)) [
        | inl f ↦ simp (rtc_session_send_access_unit, e, f) refl
        | inr ((packets, rtp), f) ↦
            simp (rtc_session_send_access_unit, e, f)
              (core-sink_all env packets
                (record s { idr_requested = s.idr_requested && not is_idr; rtp = rtp }))
      ]
    ]

pub core-retransmit_all : (seqs : List ℕ) (s : RtcSession) → core (retransmit_all seqs s) ≡ core s
unfolding retransmit_all retransmit
core-retransmit_all [] s = refl
core-retransmit_all (seq ∷ seqs) s =
    core-retransmit_all seqs (retransmit seq s)
    ∙ elim (Bool-cases (ltb 0 (length (get_or s.retx (seq % retx_cache_size) [])))) [
      | inl e ↦ simp (retransmit, e) (core-send_udp (get_or s.retx (seq % retx_cache_size) []) s)
      | inr e ↦ simp (retransmit, e) refl
    ]

pub core-send_report : (env : Env) (s : RtcSession) → core (send_report env s) ≡ core s
unfolding send_report
core-send_report env s =
    elim (Option-cases (
      if s.dtls.srtp_ready
      then env.protect_rtcp (
          Rtcp.build_sender_report s.rtp.ssrc env.wall_us s.rtp.last_timestamp s.rtp.packets
            s.rtp.octets)
      else none)) [
        | inl f ↦ simp (send_report, f) refl
        | inr (bytes, f) ↦ simp (send_report, f) (core-send_udp bytes s)
      ]

pub core-stun_send_error :
    (env : Env) (tid : List ℕ) (error_code : ℕ) (source : Peer) (s : RtcSession)
    → core (stun_send_error env tid error_code source s) ≡ core s
unfolding stun_send_error send_to
core-stun_send_error env tid error_code source s =
    elim (Option-cases (stun_build_error_response tid error_code (take 64 env.stack))) [
      | inl f ↦ simp (stun_send_error, f) refl
      | inr ((err, err_len), f) ↦ simp (stun_send_error, f) refl
    ]
