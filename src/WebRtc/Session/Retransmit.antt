-- ===== src/WebRtc/Session/Retransmit.antt =====
-- The retransmission cache of src/webrtc/webrtc_session.c over the numbering of
-- src/webrtc/rtp_h264.c.
use ideal_broccoli.Base.{
  ℕ, ◌+◌, ◌%◌, ◌^◌, ◌≤◌, ◌<◌, ◌≡◌, ◌≢◌, refl, sym, ap, subst, ◌∙◌, Bool, true, false, not, ◌&&◌,
  ◌||◌, Bool-cases, inl, inr, some, Option-cases, List, [], ◌∷◌, ◌++◌, arith, ltb, length, get_or,
  All, length-set, get_or-set_self, get_or-set_ne,
}
use ideal_broccoli.WebRtc.IceLite.{Peer}
use ideal_broccoli.WebRtc.RtpH264.{RtpH264, RtpPacket, packetize, timestamp, with_base}
use ideal_broccoli.WebRtc.RtpH264.Stream.{Numbered, Sent, WellFormed, packetize-Sent}
use ideal_broccoli.WebRtc.Session.{RtcSession, RtcSessionState, Env, is_in, send_udp}
use ideal_broccoli.WebRtc.Session.Media.{
  rtp_packet_sink, sink_all, rtc_session_send_access_unit, retransmit,
}
use ideal_broccoli.WebRtc.Session.Core.{Core}
use ideal_broccoli.WebRtc.Session.Steady.{core-sink_all}

-- The cache after a packet: its slot has the protected bytes, or nothing changes.
retx-send_udp : (packet : List ℕ) (s : RtcSession) → (send_udp packet s).retx ≡ s.retx
unfolding send_udp
retx-send_udp packet s = elim (Option-cases s.remote) [
  | inl e ↦ simp (send_udp, e) refl
  | inr (peer, e) ↦ simp (send_udp, e) refl
]

abbrev cached : RtcSession → ℕ → List ℕ
cached s i = get_or s.retx i []

cached-sink_other :
    (env : Env) (packet : RtpPacket) (s : RtcSession) (i : ℕ)
    → packet.sequence % 512 ≢ i
    → cached (rtp_packet_sink env packet s) i ≡ cached s i
unfolding rtp_packet_sink
cached-sink_other env packet s i other =
    elim (Bool-cases (ltb (1200 + 64) (length packet.bytes) || not s.dtls.srtp_ready)) [
      | inl e ↦ simp (rtp_packet_sink, e) refl
      | inr e ↦ elim (Option-cases (env.protect packet.bytes)) [
        | inl f ↦ simp (rtp_packet_sink, e, f) refl
        | inr (bytes, f) ↦
            simp (rtp_packet_sink, e, f)
              (get_or-set_ne (send_udp bytes s).retx (packet.sequence % 512) i bytes [] other
                ∙ ap (λ r. get_or r i []) (retx-send_udp bytes s))
      ]
    ]

length-sink :
    (env : Env) (packet : RtpPacket) (s : RtcSession)
    → length (rtp_packet_sink env packet s).retx ≡ length s.retx
unfolding rtp_packet_sink
length-sink env packet s =
    elim (Bool-cases (ltb (1200 + 64) (length packet.bytes) || not s.dtls.srtp_ready)) [
      | inl e ↦ simp (rtp_packet_sink, e) refl
      | inr e ↦ elim (Option-cases (env.protect packet.bytes)) [
        | inl f ↦ simp (rtp_packet_sink, e, f) refl
        | inr (bytes, f) ↦
            simp (rtp_packet_sink, e, f)
              (length-set (send_udp bytes s).retx (packet.sequence % 512) bytes
                ∙ ap length (retx-send_udp bytes s))
      ]
    ]

length-sink_all :
    (env : Env) (packets : List RtpPacket) (s : RtcSession)
    → length (sink_all env packets s).retx ≡ length s.retx
unfolding sink_all
length-sink_all env [] s = refl
length-sink_all env (packet ∷ packets) s =
    length-sink_all env packets (rtp_packet_sink env packet s) ∙ length-sink env packet s

-- Fewer than 512 packets that follow leave a slot alone.
cached-sink_all :
    (env : Env) (u w k i : ℕ) (packets : List RtpPacket) (s : RtcSession)
    → Numbered u packets w
    → i < 512
    → u % 512 ≡ (i + k) % 512
    → k + length packets < 512
    → cached (sink_all env packets s) i ≡ cached s i
unfolding sink_all
cached-sink_all env u w k i [] s numbered small at room = refl
cached-sink_all env u w k i (packet ∷ packets) s (Numbered.next e rest) small at room =
    let other : packet.sequence % 512 ≢ i = λ h. omega (arith, h, e, at, room, small) in
    cached-sink_all env ((u + 1) % 2 ^ 16) w (k + 1) i packets (rtp_packet_sink env packet s) rest
      small (omega (arith, at)) (omega (arith, room))
    ∙ cached-sink_other env packet s i other

cached-sink :
    (env : Env) (packet : RtpPacket) (s : RtcSession) (bytes : List ℕ)
    → length s.retx ≡ 512
    → s.dtls.srtp_ready ≡ true
    → length packet.bytes ≤ 1200
    → env.protect packet.bytes ≡ some bytes
    → cached (rtp_packet_sink env packet s) (packet.sequence % 512) ≡ bytes
unfolding rtp_packet_sink
cached-sink env packet s bytes slots ready fits protected =
    let test : (ltb (1200 + 64) (length packet.bytes) || not s.dtls.srtp_ready) ≡ false =
      ground (arith, ready, fits) in
    simp (rtp_packet_sink, test, protected)
      (get_or-set_self (send_udp bytes s).retx (packet.sequence % 512) bytes []
        (omega (arith, slots, ap length (retx-send_udp bytes s))))

sink_all-append :
    (env : Env) (xs ys : List RtpPacket) (s : RtcSession)
    → sink_all env (xs ++ ys) s ≡ sink_all env ys (sink_all env xs s)
unfolding sink_all
sink_all-append env [] ys s = refl
sink_all-append env (x ∷ xs) ys s = sink_all-append env xs ys (rtp_packet_sink env x s)

-- The numbers from a packet on.
Numbered-tail :
    {u w : ℕ} (xs : List RtpPacket) (packet : RtpPacket) (ys : List RtpPacket)
    → Numbered u (xs ++ packet ∷ ys) w
    → (packet.sequence < 65536) × Numbered packet.sequence ys w
Numbered-tail {u = u} {w = w} [] packet ys (Numbered.next e rest) =
    (omega (arith, e), subst (λ n. Numbered n ys w) (sym e) rest)
Numbered-tail {u = u} {w = w} (x ∷ xs) packet ys (Numbered.next e rest) =
    Numbered-tail {u = (u + 1) % 2 ^ 16} {w = w} xs packet ys rest

All-tail :
    (P : RtpPacket → Type 0) (xs : List RtpPacket) (packet : RtpPacket) (ys : List RtpPacket)
    → All P (xs ++ packet ∷ ys)
    → P packet
All-tail P [] packet ys h = h.0
All-tail P (x ∷ xs) packet ys h = All-tail P xs packet ys h.1

-- The cache when an access unit with this packet has been sent.
cached-all :
    (env : Env) (p p' : RtpH264) (ts : ℕ) (xs ys : List RtpPacket) (packet : RtpPacket)
    (s : RtcSession) (bytes : List ℕ)
    → Sent p ts (xs ++ packet ∷ ys) p'
    → length s.retx ≡ 512
    → s.dtls.srtp_ready ≡ true
    → length ys < 512
    → env.protect packet.bytes ≡ some bytes
    → cached (sink_all env (xs ++ packet ∷ ys) s) (packet.sequence % 512) ≡ bytes
unfolding sink_all
cached-all env p p' ts xs ys packet s bytes sent slots ready few protected =
    let before = sink_all env xs s in
    let after = rtp_packet_sink env packet before in
    let (small, numbered) = Numbered-tail xs packet ys sent.numbered in
    let formed = All-tail (WellFormed p ts) xs packet ys sent.formed in
    ap (λ (t : RtcSession). cached t (packet.sequence % 512))
      (sink_all-append env xs (packet ∷ ys) s)
    ∙ cached-sink_all env packet.sequence p'.sequence 0 (packet.sequence % 512) ys after numbered
        (omega arith) (omega arith) (omega (arith, few))
    ∙ cached-sink env packet before bytes (length-sink_all env xs s ∙ slots)
        (ap (λ (c : Core). c.ready) (core-sink_all env xs s) ∙ ready) formed.fits protected

retransmit_lem :
    (seq : ℕ) (peer : Peer) (bytes : List ℕ) (t : RtcSession)
    → cached t (seq % 512) ≡ bytes
    → 0 < length bytes
    → t.remote ≡ some peer
    → (retransmit seq t).sent ≡ (peer, bytes) ∷ t.sent
unfolding retransmit send_udp
retransmit_lem seq peer bytes t slot pos remote =
    let test : ltb 0 (length bytes) ≡ true = ground arith in
    simp (retransmit, slot, test, send_udp, remote) refl

send_access_unit_lem :
    (env : Env) (s : RtcSession) (access_unit : List ℕ) (pts_us : ℕ) (is_idr : Bool)
    (packets : List RtpPacket) (rtp : RtpH264)
    → is_in s.state RtcSessionState.streaming ≡ true
    → packetize s.rtp access_unit pts_us ≡ some (packets, rtp)
    → let t =
        sink_all env packets
          (record s { idr_requested = s.idr_requested && not is_idr; rtp = rtp }) in
      (rtc_session_send_access_unit env access_unit pts_us is_idr s).0
      ≡ record t { streaming_announced = t.streaming_announced || ltb 0 (length packets) }
unfolding rtc_session_send_access_unit
send_access_unit_lem env s access_unit pts_us is_idr packets rtp e f =
    simp (rtc_session_send_access_unit, e, f) refl

-- A streaming session with a peer and keys has sent an access unit of at least one byte. Each of the
-- last 512 packets that came of it, if it was protected, is still there for a NACK: its retransmission
-- sends the peer the very bytes that the protection gave.
pub retransmit-send_access_unit :
    (env : Env) (s : RtcSession) (access_unit : List ℕ) (pts_us : ℕ) (is_idr : Bool) (peer : Peer)
    (xs : List RtpPacket) (packet : RtpPacket) (ys : List RtpPacket) (rtp : RtpH264)
    (bytes : List ℕ)
    → s.state ≡ RtcSessionState.streaming
    → s.dtls.srtp_ready ≡ true
    → s.remote ≡ some peer
    → length s.retx ≡ 512
    → 0 < length access_unit
    → packetize s.rtp access_unit pts_us ≡ some (xs ++ packet ∷ ys, rtp)
    → length ys < 512
    → env.protect packet.bytes ≡ some bytes
    → 0 < length bytes
    → let t = (rtc_session_send_access_unit env access_unit pts_us is_idr s).0 in
      (retransmit packet.sequence t).sent ≡ (peer, bytes) ∷ t.sent
retransmit-send_access_unit env s access_unit pts_us is_idr peer xs packet ys rtp bytes streams
      ready remote slots pos packets few protected some_bytes =
    let s' = record s { idr_requested = s.idr_requested && not is_idr; rtp = rtp } in
    let test : is_in s.state RtcSessionState.streaming ≡ true =
      ap (λ x. is_in x RtcSessionState.streaming) streams in
    let (out, e, sent) = packetize-Sent s.rtp access_unit pts_us pos in
    let ts = timestamp (with_base s.rtp pts_us) pts_us in
    let same : out ≡ (xs ++ packet ∷ ys, rtp) = cc (e, packets) in
    let sent' = subst (λ (o : List RtpPacket × RtpH264). Sent s.rtp ts o.0 o.1) same sent in
    let slot = cached-all env s.rtp rtp ts xs ys packet s' bytes sent' slots ready few protected in
    let remote' = ap (λ (c : Core). c.remote) (core-sink_all env (xs ++ packet ∷ ys) s') ∙ remote in
    let final = sink_all env (xs ++ packet ∷ ys) s' in
    let whole =
      send_access_unit_lem env s access_unit pts_us is_idr (xs ++ packet ∷ ys) rtp test packets in
    subst (λ (t : RtcSession). (retransmit packet.sequence t).sent ≡ (peer, bytes) ∷ t.sent)
      (sym whole)
      (retransmit_lem packet.sequence peer bytes
        (record final {
          streaming_announced = final.streaming_announced || ltb 0 (length (xs ++ packet ∷ ys));
        })
        slot some_bytes remote')
