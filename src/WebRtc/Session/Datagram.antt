-- ===== src/WebRtc/Session/Datagram.antt =====
-- `rtc_session_on_udp` of src/webrtc/webrtc_session.c: one datagram from the socket.
use ideal_broccoli.Base.{
  ℕ, ◌+◌, ◌*◌, ◌%◌, Bool, not, ◌&&◌, ◌||◌, Option, none, some, ◌>>=◌, List, ◌∷◌, leb, ◌==◌,
  if◌then◌else◌, length, get_or, take,
}
use ideal_broccoli.WebRtc.IceLite.{
  Peer, RtcPacketClass, rtc_classify_packet, stun_header_size, stun_is_binding_request,
  stun_verify_mi, stun_username_matches, stun_build_binding_response, stun_build_error_response,
}
use ideal_broccoli.WebRtc.Session.{RtcSession, RtcSessionState, Env, is_in, bump32, dtls_on_udp}
use ideal_broccoli.WebRtc.Session.Media.{on_rtcp}

-- What the tests of a STUN datagram come to; a refusal has the transaction id.
pub data StunVerdict : Type 0 where
  no_request : StunVerdict
  refused : List ℕ → StunVerdict
  valid : StunVerdict

-- The three tests, in their order. `none` stands for a read outside the datagram.
unfoldable pub judge : (List ℕ → List ℕ → List ℕ) → List ℕ → List ℕ → List ℕ → Option StunVerdict
judge hmac local_pwd local_ufrag buffer = do
  request ← stun_is_binding_request buffer
  elim request [
    | none ↦ some StunVerdict.no_request
    | some tid ↦ do
      verified ← stun_verify_mi hmac buffer local_pwd
      matches ← stun_username_matches buffer local_ufrag
      some (if verified && matches then StunVerdict.valid else StunVerdict.refused tid)
  ]

-- A datagram to an address that need not be the peer's.
unfoldable pub send_to : Peer → List ℕ → RtcSession → RtcSession
send_to peer packet s = record s { sent = (peer, packet) ∷ s.sent }

unfoldable pub stun_send_error : Env → List ℕ → ℕ → Peer → RtcSession → RtcSession
unfolding send_to
stun_send_error env tid error_code source s =
    elim (stun_build_error_response tid error_code (take 64 env.stack)) [
      | none ↦ s
      | some (err, err_len) ↦ send_to source (take err_len err) s
    ]

-- `sin_addr.s_addr` and `sin_port`. In an IPv6 address the former is the flow label, which is 0.
abbrev sin_addr : Peer → ℕ
sin_addr (Peer.ipv4 addr port) = addr
sin_addr (Peer.ipv6 addr port) = 0

abbrev sin_port : Peer → ℕ
sin_port (Peer.ipv4 addr port) = port
sin_port (Peer.ipv6 addr port) = port

abbrev pub has_moved : Peer → Peer → Bool
has_moved source remote =
    not (sin_addr source == sin_addr remote) || not (sin_port source == sin_port remote)

-- The peer follows the latest valid check.
unfoldable pub follow : Peer → RtcSession → RtcSession
follow source s = elim s.remote [
  | none ↦ record s { remote = some source }
  | some peer ↦
      if has_moved source peer
      then record s {
        remote = some source;
        stats = record s.stats { peer_moved = bump32 s.stats.peer_moved };
      }
      else s
]

unfoldable pub answer_check : Env → List ℕ → Peer → RtcSession → RtcSession
unfolding follow send_to
answer_check env buffer source s =
    let s' =
      follow source (record s { stats = record s.stats { stun_ok = bump32 s.stats.stun_ok } }) in
    let s'' =
      if is_in s'.state RtcSessionState.new
      then record s' { state = RtcSessionState.ice }
      else s' in
    elim (stun_build_binding_response env.hmac s.local_pwd buffer source 128) [
      | none ↦ s''
      | some response ↦ send_to source response s''
    ]

-- A binding indication is counted; its type is read from the first two bytes.
abbrev is_indication : List ℕ → Bool
is_indication buffer =
    get_or buffer 0 0 * 256 + get_or buffer 1 0 == 0x0011 && leb stun_header_size (length buffer)

unfoldable pub on_verdict : Env → List ℕ → Peer → StunVerdict → RtcSession → RtcSession
unfolding stun_send_error answer_check
on_verdict env buffer source StunVerdict.no_request s =
    if is_indication buffer
    then record s { stats = record s.stats { stun_ok = bump32 s.stats.stun_ok } }
    else s
on_verdict env buffer source (StunVerdict.refused tid) s =
    stun_send_error env tid 401 source
      (record s { stats = record s.stats { stun_bad_user = bump32 s.stats.stun_bad_user } })
on_verdict env buffer source StunVerdict.valid s = answer_check env buffer source s

unfoldable pub on_stun : Env → List ℕ → Peer → RtcSession → RtcSession
unfolding on_verdict
on_stun env buffer source s =
    let s' = record s { stats = record s.stats { stun_rx = bump32 s.stats.stun_rx } } in
    elim (judge env.hmac s.local_pwd s.local_ufrag buffer) [
      | none ↦ s'
      | some verdict ↦ on_verdict env buffer source verdict s'
    ]

-- The second byte tells RTCP from RTP, which is dropped. Of a datagram of one byte it is read as 0.
unfoldable pub on_rtp : Env → List ℕ → RtcSession → RtcSession
on_rtp env buffer s =
    let pt = get_or buffer 1 0 % 128 in
    if leb 64 pt && leb pt 95 && is_in s.state RtcSessionState.streaming
    then elim (if s.dtls.srtp_ready then env.unprotect_rtcp buffer else none) [
      | none ↦ s
      | some packet ↦ on_rtcp env packet s
    ]
    else s

unfoldable pub on_class : Env → List ℕ → Peer → RtcPacketClass → RtcSession → RtcSession
unfolding on_stun on_rtp
on_class env buffer source RtcPacketClass.stun s = on_stun env buffer source s
on_class env buffer source RtcPacketClass.dtls s = elim s.remote [
  | none ↦ s
  | some peer ↦ dtls_on_udp env buffer s
]
on_class env buffer source RtcPacketClass.rtp s = on_rtp env buffer s
on_class env buffer source RtcPacketClass.other s = s

unfoldable pub rtc_session_on_udp : Env → List ℕ → Peer → RtcSession → RtcSession
unfolding on_class
rtc_session_on_udp env buffer source s =
    if is_in s.state RtcSessionState.closed
    then s
    else on_class env buffer source (rtc_classify_packet buffer) (record s { last_rx_ms = env.now })
