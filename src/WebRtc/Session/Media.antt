-- ===== src/WebRtc/Session/Media.antt =====
-- src/webrtc/webrtc_session.c: the packets that a session sends, the feedback that it gets, and its
-- periodic work.
use ideal_broccoli.Base.{
  ℕ, ◌+◌, ◌-◌, ◌%◌, ◌^◌, Bool, true, false, not, ◌&&◌, ◌||◌, Option, none, some, List, [], ◌∷◌, ltb,
  leb, if◌then◌else◌, length, get_or, set,
}
use ideal_broccoli.WebRtc.RtpH264.{RtpPacket, packetize}
use ideal_broccoli.WebRtc.Rtcp
use ideal_broccoli.WebRtc.Rtcp.{RtcpFeedback, build_sender_report}
use ideal_broccoli.WebRtc.Session.{
  RtcSession, RtcSessionState, Env, is_in, bump32, retx_cache_size, send_udp, dtls_tick,
  rtc_session_close, rtc_session_request_idr,
}

-- `rtp_packet_sink`, with `dtls_srtp_send_rtp`: a packet is protected, sent and kept in its slot.
unfoldable pub rtp_packet_sink : Env → RtpPacket → RtcSession → RtcSession
rtp_packet_sink env packet s =
    elim (ltb (1200 + 64) (length packet.bytes) || not s.dtls.srtp_ready) [
      | true ↦ s
      | false ↦ elim (env.protect packet.bytes) [
        | none ↦ s
        | some bytes ↦
            let s' = send_udp bytes s in
            record s' {
              retx = set s'.retx (packet.sequence % retx_cache_size) bytes;
              stats = record s'.stats {
                packets_sent = (s'.stats.packets_sent + 1) % 2 ^ 64;
                bytes_sent = (s'.stats.bytes_sent + length packet.bytes) % 2 ^ 64;
              };
            }
      ]
    ]

unfoldable pub sink_all : Env → List RtpPacket → RtcSession → RtcSession
sink_all env [] s = s
sink_all env (packet ∷ packets) s = sink_all env packets (rtp_packet_sink env packet s)

-- The number is that of the packets; `none` stands for the packetizer's -1.
unfoldable pub rtc_session_send_access_unit :
    Env → List ℕ → ℕ → Bool → RtcSession → RtcSession × Option ℕ
rtc_session_send_access_unit env access_unit pts_us is_idr s =
    let s' = record s { idr_requested = s.idr_requested && not is_idr } in
    elim (is_in s.state RtcSessionState.streaming) [
      | false ↦ (s', some 0)
      | true ↦ elim (packetize s'.rtp access_unit pts_us) [
        | none ↦ (s', none)
        | some (packets, rtp) ↦
            let s'' = sink_all env packets (record s' { rtp = rtp }) in
            (
              record s'' {
                streaming_announced = s''.streaming_announced || ltb 0 (length packets);
              },
              some (length packets),
            )
      ]
    ]

-- One round of the loop over the NACKs. The packet is counted whether or not a peer is known.
unfoldable pub retransmit : ℕ → RtcSession → RtcSession
retransmit seq s =
    let bytes = get_or s.retx (seq % retx_cache_size) [] in
    let s' = send_udp bytes s in
    if ltb 0 (length bytes)
    then record s' { stats = record s'.stats { retransmissions = bump32 s'.stats.retransmissions } }
    else s

unfoldable pub retransmit_all : List ℕ → RtcSession → RtcSession
retransmit_all [] s = s
retransmit_all (seq ∷ seqs) s = retransmit_all seqs (retransmit seq s)

unfoldable pub on_feedback : Env → RtcpFeedback → RtcSession → RtcSession
on_feedback env fb s =
    let asked = rtc_session_request_idr env (record s {
      stats = record s.stats { pli_received = (s.stats.pli_received + fb.pli + fb.fir) % 2 ^ 32 };
    }) in
    let s' = if ltb 0 fb.pli || ltb 0 fb.fir then asked else s in
    let counted = record s' {
      stats = record s'.stats {
        nacks_received = (s'.stats.nacks_received + length fb.nack_seq) % 2 ^ 32;
      };
    } in
    if fb.bye
    then rtc_session_close env s
    else if ltb 0 (length fb.nack_seq)
    then retransmit_all fb.nack_seq counted
    else s'

-- `dtls_on_rtcp`; the parser always has a result.
unfoldable pub on_rtcp : Env → List ℕ → RtcSession → RtcSession
on_rtcp env packet s = elim (Rtcp.parse packet) [ none ↦ s | some fb ↦ on_feedback env fb s ]

-- The sender report of a tick.
unfoldable pub send_report : Env → RtcSession → RtcSession
send_report env s =
    let sr =
      build_sender_report s.rtp.ssrc env.wall_us s.rtp.last_timestamp s.rtp.packets s.rtp.octets in
    let s' : RtcSession = elim (if s.dtls.srtp_ready then env.protect_rtcp sr else none) [
      | none ↦ s
      | some bytes ↦
          let sent = send_udp bytes s in
          record sent { stats = record sent.stats { rtcp_sent = bump32 sent.stats.rtcp_sent } }
    ] in
    record s' { next_sr_ms = env.now + 1000 }

abbrev pub session_idle_timeout_ms : ℕ
session_idle_timeout_ms = 15000

abbrev pub session_dtls_watchdog_ms : ℕ
session_dtls_watchdog_ms = 30000

-- A time in the future counts as an age of 0, which `-` on ℕ gives.
unfoldable pub rtc_session_tick : Env → RtcSession → RtcSession
rtc_session_tick env s =
    let s' = dtls_tick env s in
    if is_in s.state RtcSessionState.closed
    then s
    else if ltb session_idle_timeout_ms (env.now - s.last_rx_ms)
    then rtc_session_close env s
    else if is_in s.state RtcSessionState.ice
        && ltb session_dtls_watchdog_ms (env.now - s.created_ms)
    then rtc_session_close env s
    else if is_in s'.state RtcSessionState.streaming && leb s'.next_sr_ms env.now
    then send_report env s'
    else s'
