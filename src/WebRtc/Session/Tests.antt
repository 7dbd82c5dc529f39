-- ===== src/WebRtc/Session/Tests.antt =====
-- A session in several calls: a signed check, a handshake that ends in a streaming session, a
-- picture that is asked for again, and the close.
use ideal_broccoli.Base.{
  ℕ, ◌+◌, ◌-◌, ◌*◌, ◌≤◌, ◌<◌, ◌≡◌, ◌≢◌, ◌⊎◌, refl, true, none, some, List, [], ◌∷◌, ◌++◌, arith,
  length, replicate, length-replicate,
}
use ideal_broccoli.WebRtc.IceLite.{Peer}
use ideal_broccoli.WebRtc.RtpH264
use ideal_broccoli.WebRtc.RtpH264.{
  RtpH264, RtpPacket, packetize, next_nal, find_start, find_end, start_code, send_nals, send_nal,
  has_nal, send, with_base, timestamp,
}
use ideal_broccoli.WebRtc.Session.{
  RtcSession, RtcSessionState, Env, SslCall, SslOutcome, create, close_on, rtc_session_close,
}
use ideal_broccoli.WebRtc.Session.Media.{rtc_session_send_access_unit, retransmit}
use ideal_broccoli.WebRtc.Session.Datagram.{rtc_session_on_udp}
use ideal_broccoli.WebRtc.Session.Core.{core}
use ideal_broccoli.WebRtc.Session.Closing.{over, close_on_lem}
use ideal_broccoli.WebRtc.Session.Life.{Life, At}
use ideal_broccoli.WebRtc.Session.Calls.{Call, Lived, run, run_refines, create-At}
use ideal_broccoli.WebRtc.Session.Authority.{IsAuthentic, on_udp-IsAuthentic}
use ideal_broccoli.WebRtc.Session.Retransmit.{retransmit-send_access_unit}
use ideal_broccoli.WebRtc.Session.Pacing.{Rising, ask_all, ask_all_bound}

-- Every call of OpenSSL succeeds, the handshake is finished at once, and the protection appends a
-- byte.
abbrev call_done : SslCall
call_done = record { reads = 4096 ∷ []; writes = (22 ∷ []) ∷ []; outcome = SslOutcome.done }

abbrev env_at : ℕ → Env
env_at time = record {
  now = time;
  idr_now = time;
  sr_now = time;
  wall_us = 0;
  hmac = λ key message. replicate 20 9;
  stack = [];
  allocated = true;
  accept = call_done;
  read = call_done;
  finished = true;
  derivation = record {
    material = some (replicate 60 1);
    out_created = true;
    in_created = true;
    peer_digest = none;
  };
  shutdown = (21 ∷ []) ∷ [];
  timeout_writes = [];
  protect = λ packet. some (packet ++ 0xEE ∷ []);
  protect_rtcp = λ packet. some packet;
  unprotect_rtcp = λ packet. some packet;
}

abbrev peer : Peer
peer = Peer.ipv4 0xC0A80102 40000

abbrev start : RtcSession
start = create (b'u' ∷ []) (b'p' ∷ []) [] 7 96 1

-- A binding request for the user "u", whose MESSAGE-INTEGRITY is what the hash above gives.
abbrev signed_check : List ℕ
signed_check =
    0
    ∷ 1
    ∷ 0
    ∷ 32
    ∷ 0x21
    ∷ 0x12
    ∷ 0xA4
    ∷ 0x42
    ∷ (replicate 12 3 ++ (0 ∷ 6 ∷ 0 ∷ 3 ∷ b'u' ∷ b':' ∷ b'x' ∷ 0 ∷ 0 ∷ 8 ∷ 0 ∷ 20 ∷ replicate 20 9))

-- A DTLS record and an RTCP packet that says goodbye.
abbrev calls : List Call
calls =
    Call.datagram (env_at 2) signed_check peer
    ∷ Call.datagram (env_at 3) (22 ∷ 0 ∷ []) peer
    ∷ Call.access_unit (env_at 4) (0 ∷ 0 ∷ 1 ∷ 0x65 ∷ 1 ∷ []) 0 true
    ∷ Call.tick (env_at 5)
    ∷ Call.close (env_at 6)
    ∷ []

-- The session of an offer with the fingerprint "f AB:01", and a peer with the certificate of that
-- digest.
abbrev fingerprint : List ℕ
fingerprint = b'f' ∷ b' ' ∷ b'A' ∷ b'B' ∷ b':' ∷ b'0' ∷ b'1' ∷ []

abbrev checked_start : RtcSession
checked_start = create (b'u' ∷ []) (b'p' ∷ []) fingerprint 7 96 1

abbrev certified : ℕ → Env
certified time = record (env_at time) {
  derivation = record (env_at time).derivation { peer_digest = some (0xAB ∷ 0x01 ∷ []) };
}

abbrev checked_calls : List Call
checked_calls =
    Call.datagram (certified 2) signed_check peer
    ∷ Call.datagram (certified 3) (22 ∷ 0 ∷ []) peer
    ∷ calls

run_refines_example :
    (m : Life) × Lived checked_calls Life.fresh m
    × At fingerprint m (core (run checked_calls checked_start))
run_refines_example =
    run_refines fingerprint checked_calls Life.fresh checked_start
      (create-At (b'u' ∷ []) (b'p' ∷ []) fingerprint 7 96 1)

close_on_lem_example :
    (close_on 5 (env_at 2) start ≡ rtc_session_close (env_at 2) start)
    × (((start.state ≡ RtcSessionState.closed) × (rtc_session_close (env_at 2) start ≡ start))
        ⊎ ((start.state ≢ RtcSessionState.closed)
            × (core (rtc_session_close (env_at 2) start) ≡ over (core start))))
close_on_lem_example = close_on_lem 4 (env_at 2) start

on_udp-IsAuthentic_example :
    ((rtc_session_on_udp (env_at 2) signed_check peer start).remote ≡ start.remote)
    ⊎ (((rtc_session_on_udp (env_at 2) signed_check peer start).remote ≡ some peer)
        × IsAuthentic (env_at 2) signed_check start)
on_udp-IsAuthentic_example = on_udp-IsAuthentic (env_at 2) signed_check peer start

-- A session that streams.
abbrev live : RtcSession
live = record start {
  state = RtcSessionState.streaming;
  remote = some peer;
  dtls = record start.dtls { srtp_ready = true };
}

abbrev picture : List ℕ
picture = 0 ∷ 0 ∷ 1 ∷ 0x65 ∷ 1 ∷ []

abbrev sent_packet : RtpPacket
sent_packet = (send (with_base live.rtp 0) 0 true (0x65 ∷ 1 ∷ [])).0

abbrev rtp_after : RtpH264
rtp_after = (send (with_base live.rtp 0) 0 true (0x65 ∷ 1 ∷ [])).1

one_packet : packetize live.rtp picture 0 ≡ some (sent_packet ∷ [], rtp_after)
unfolding create RtpH264.create RtpH264.reset packetize next_nal find_start find_end start_code
    send_nals send_nal has_nal send with_base timestamp
one_packet = refl

slots : length live.retx ≡ 512
unfolding create
slots = length-replicate {A = List ℕ} 512 []

streams : (live.dtls.srtp_ready ≡ true) × (0 < length (sent_packet.bytes ++ 0xEE ∷ []))
unfolding send
streams = (refl, omega arith)

retransmit-send_access_unit_example :
    let t = (rtc_session_send_access_unit (env_at 4) picture 0 true live).0 in
    (retransmit sent_packet.sequence t).sent ≡ (peer, sent_packet.bytes ++ 0xEE ∷ []) ∷ t.sent
retransmit-send_access_unit_example =
    retransmit-send_access_unit (env_at 4) live picture 0 true peer [] sent_packet [] rtp_after
      (sent_packet.bytes ++ 0xEE ∷ []) refl streams.0 refl slots (omega arith) one_packet
      (omega arith) refl streams.1

abbrev requests : List Env
requests = env_at 10 ∷ env_at 300 ∷ env_at 500 ∷ []

rising : Rising 10 requests 500
rising =
    Rising.next (omega arith) (omega arith) (
      Rising.next (omega arith) (omega arith) (Rising.next (omega arith) (omega arith) Rising.stop))

never_asked : start.last_idr_ms ≡ 0
unfolding create
never_asked = refl

ask_all_bound_example :
    (start.idr_requests ≤ (ask_all requests start).idr_requests)
    × (400 * ((ask_all requests start).idr_requests - start.idr_requests) ≤ 500 - 10 + 400)
ask_all_bound_example = ask_all_bound 10 500 requests start (omega arith) never_asked rising
