-- ===== src/Janus/RtpSender/Stream.antt =====
-- The numbers and the counters of what src/janus/janus_rtp_sender.c sends.
use ideal_broccoli.Base.{
  ℕ, zero, suc, ◌+◌, ◌%◌, ◌^◌, ◌≡◌, refl, sym, ap, subst, Bool, true, false, not, ◌&&◌, ◌||◌,
  Bool-cases, inl, inr, Option, none, some, List, [], ◌∷◌, arith, ltb, leb, if◌then◌else◌, length,
  take,
}
use ideal_broccoli.Media.AuRing.{AuRing, AccessUnit, pop}
use ideal_broccoli.WebRtc.RtpH264.{RtpH264}
use ideal_broccoli.WebRtc.RtpH264.Stream.{Numbered}
use ideal_broccoli.WebRtc.Rtcp
use ideal_broccoli.WebRtc.Rtcp.{RtcpFeedback}
use ideal_broccoli.Janus.RtpSender.{
  JanusRtpSender, Socket, Round, Polled, Thread, send_unit, drain, on_feedback, handle_rtcp,
  send_sender_report, sender_round, sender_step, sender_thread,
}
use ideal_broccoli.Janus.RtpSender.Units.{Streamed, send_unit-Streamed}

-- A round of the drain behind its pop.
abbrev after_pop :
    ℕ → Socket → AuRing → JanusRtpSender → Option AccessUnit → AuRing × JanusRtpSender
after_pop k socket ring s out = elim out [
  | none ↦ (ring, s)
  | some unit ↦ drain k socket ring (send_unit socket unit s)
]

drain-Streamed :
    (k n : ℕ) (socket : Socket) (ring : AuRing) (s : JanusRtpSender)
    → Streamed n s
    → Streamed n (drain k socket ring s).1
unfolding drain
drain-Streamed zero n socket ring s h = h
drain-Streamed (suc k) n socket ring s h = go (pop ring s.au_capacity).0 (λ unit.
    drain-Streamed k n socket (pop ring s.au_capacity).1 (send_unit socket unit s)
      (send_unit-Streamed n socket unit s h))
  where
    go :
        (out : Option AccessUnit)
        → ((unit : AccessUnit)
            → Streamed n (drain k socket (pop ring s.au_capacity).1 (send_unit socket unit s)).1)
        → Streamed n (after_pop k socket (pop ring s.au_capacity).1 s out).1
    go none again = h
    go (some unit) again = again unit

-- What has no part in the stream of packets.
alike :
    (n : ℕ) (s t : JanusRtpSender)
    → t.attempted ≡ s.attempted
    → t.packetizer ≡ s.packetizer
    → t.stats.packets_sent ≡ s.stats.packets_sent
    → t.stats.send_errors ≡ s.stats.send_errors
    → Streamed n s
    → Streamed n t
alike n s t a p sent errors h = record {
  numbered =
      subst (λ q. Numbered n q t.packetizer.sequence) (sym a)
        (subst (λ (x : RtpH264). Numbered n s.attempted x.sequence) (sym p) h.numbered);
  counted = omega (arith, h.counted, sent, errors, ap length a);
}

feedback-Streamed :
    (n : ℕ) (feedback : RtcpFeedback) (s : JanusRtpSender)
    → Streamed n s
    → Streamed n (on_feedback feedback s)
unfolding on_feedback
feedback-Streamed n feedback s h = elim (Bool-cases (ltb 0 feedback.pli || ltb 0 feedback.fir)) [
  | inl e ↦
      simp (on_feedback, e)
        (alike n s
          (record s {
            force_idr = true;
            stats = record s.stats {
              pli_received = (s.stats.pli_received + feedback.pli) % 2 ^ 32;
              fir_received = (s.stats.fir_received + feedback.fir) % 2 ^ 32;
            };
          })
          refl refl refl refl h)
  | inr e ↦ simp (on_feedback, e) h
]

datagram-Streamed :
    (n : ℕ) (parsed : Option RtcpFeedback) (s : JanusRtpSender)
    → Streamed n s
    → Streamed n (elim parsed [ none ↦ s | some feedback ↦ on_feedback feedback s ])
datagram-Streamed n none s h = h
datagram-Streamed n (some feedback) s h = feedback-Streamed n feedback s h

handle_rtcp-Streamed :
    (n : ℕ) (datagrams : List (List ℕ)) (s : JanusRtpSender)
    → Streamed n s
    → Streamed n (handle_rtcp datagrams s)
unfolding handle_rtcp
handle_rtcp-Streamed n [] s h = h
handle_rtcp-Streamed n (datagram ∷ datagrams) s h =
    let s' = record s {
      stats = record s.stats { rtcp_received = (s.stats.rtcp_received + 1) % 2 ^ 32 };
    } in
    let parsed = Rtcp.parse (take 1500 datagram) in
    handle_rtcp-Streamed n datagrams
      (elim parsed [ none ↦ s' | some feedback ↦ on_feedback feedback s' ])
      (datagram-Streamed n parsed s' (alike n s s' refl refl refl refl h))

report-Streamed :
    (n wall_us : ℕ) (accepted : Bool) (s : JanusRtpSender)
    → Streamed n s
    → Streamed n (send_sender_report wall_us accepted s)
unfolding send_sender_report
report-Streamed n wall_us true s h =
    alike n s (send_sender_report wall_us true s) refl refl refl refl h
report-Streamed n wall_us false s h = h

round-Streamed :
    (n : ℕ) (socket : Socket) (k : ℕ) (round : Round) (datagrams : List (List ℕ)) (t : Thread)
    → Streamed n t.sender
    → Streamed n (sender_round socket k round datagrams t).sender
unfolding sender_round
round-Streamed n socket k round datagrams t h =
    let s = handle_rtcp datagrams t.sender in
    let (ring', s') = drain k socket t.ring s in
    let h' = drain-Streamed k n socket t.ring s (handle_rtcp-Streamed n datagrams t.sender h) in
    elim (Bool-cases (leb t.next_sr_ms round.now)) [
      | inl e ↦ simp (sender_round, e) (report-Streamed n round.wall_us round.accepted s' h')
      | inr e ↦ simp (sender_round, e) h'
    ]

-- A round of the thread behind its poll.
abbrev after_poll : Socket → Round → Thread → Polled → Thread × Bool
after_poll socket round t polled = elim polled [
  | Polled.interrupted ↦ (t, true)
  | Polled.failed ↦ (t, false)
  | Polled.waiting datagrams ↦ (sender_round socket (t.ring.count + 1) round datagrams t, true)
]

step-Streamed :
    (n : ℕ) (socket : Socket) (round : Round) (polled : Polled) (t : Thread)
    → Streamed n t.sender
    → Streamed n (after_poll socket round t polled).0.sender
step-Streamed n socket round Polled.interrupted t h = h
step-Streamed n socket round Polled.failed t h = h
step-Streamed n socket round (Polled.waiting datagrams) t h =
    round-Streamed n socket (t.ring.count + 1) round datagrams t h

-- However the thread runs, whatever the sockets answer and whatever the encoder does to the ring
-- between its rounds, the packets that it tries to send are numbered one behind the other across all
-- access units, those that are refused included, and each is counted as sent or as an error, modulo
-- 2 ^ 32: if this holds at first.
pub sender_thread-Streamed :
    (n : ℕ) (socket : Socket) (rounds : List (Round × (AuRing → AuRing) × Bool)) (t : Thread)
    → Streamed n t.sender
    → Streamed n (sender_thread socket rounds t).sender
unfolding sender_thread sender_step
sender_thread-Streamed n socket [] t h = h
sender_thread-Streamed n socket ((round, others, taken) ∷ rounds) t h =
    let (t', goes_on) = sender_step socket round t in
    let h' : Streamed n t'.sender = step-Streamed n socket round round.polled t h in
    let next = record t' {
      ring = others t'.ring;
      sender = record t'.sender { force_idr = t'.sender.force_idr && not taken };
    } in
    let rest =
      sender_thread-Streamed n socket rounds next
        (alike n t'.sender next.sender refl refl refl refl h') in
    pick goes_on (sender_thread socket rounds next) t' rest h'
  where
    pick :
        (b : Bool) (x y : Thread)
        → Streamed n x.sender
        → Streamed n y.sender
        → Streamed n (if b then x else y).sender
    pick true x y p q = p
    pick false x y p q = q
