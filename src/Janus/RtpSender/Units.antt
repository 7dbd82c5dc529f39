-- ===== src/Janus/RtpSender/Units.antt =====
-- The numbers and the counters of one access unit's packets in src/janus/janus_rtp_sender.c.
use ideal_broccoli.Base.{
  ℕ, ◌+◌, ◌%◌, ◌^◌, ◌≡◌, refl, sym, ap, subst, ◌∙◌, Bool-cases, inl, inr, none, some, Option-cases,
  List, [], ◌∷◌, ◌++◌, arith, ◌==◌, length, length-append,
}
use mathlib.Core.List.{append-nil, append_assoc}
use ideal_broccoli.Media.AuRing.{AccessUnit}
use ideal_broccoli.WebRtc.RtpH264.{RtpH264, RtpPacket, packetize}
use ideal_broccoli.WebRtc.RtpH264.Stream.{Numbered, Numbered-append, packetize-Sent}
use ideal_broccoli.Janus.RtpSender.{JanusRtpSender, Socket, send_sink, send_all, send_unit}

-- All packets that `sendto` was called with are numbered one behind the other from `n` on, however
-- many access units they came of, and each was counted as sent or as an error.
pub record Streamed (n : ℕ) (s : JanusRtpSender) : Type 0 where
  pub numbered : Numbered n s.attempted s.packetizer.sequence
  pub counted : (s.stats.packets_sent + s.stats.send_errors) % 2 ^ 32 ≡ length s.attempted % 2 ^ 32

-- The counters alone.
Counted : JanusRtpSender → Type 0
Counted s = (s.stats.packets_sent + s.stats.send_errors) % 2 ^ 32 ≡ length s.attempted % 2 ^ 32

attempted-send_sink :
    (socket : Socket) (packet : RtpPacket) (s : JanusRtpSender)
    → (send_sink socket packet s).attempted ≡ s.attempted ++ (packet ∷ [])
unfolding send_sink
attempted-send_sink socket packet s = elim (Option-cases (socket (length s.attempted))) [
  | inl e ↦ simp (send_sink, e) refl
  | inr (now, e) ↦ simp (send_sink, e) refl
]

packetizer-send_sink :
    (socket : Socket) (packet : RtpPacket) (s : JanusRtpSender)
    → (send_sink socket packet s).packetizer ≡ s.packetizer
unfolding send_sink
packetizer-send_sink socket packet s = elim (Option-cases (socket (length s.attempted))) [
  | inl e ↦ simp (send_sink, e) refl
  | inr (now, e) ↦ simp (send_sink, e) refl
]

send_sink-Counted :
    (socket : Socket) (packet : RtpPacket) (s : JanusRtpSender)
    → Counted s
    → Counted (send_sink socket packet s)
unfolding send_sink Counted
send_sink-Counted socket packet s h = elim (Option-cases (socket (length s.attempted))) [
  | inl e ↦ simp (send_sink, e) (omega (arith, h, length-append s.attempted (packet ∷ [])))
  | inr (now, e) ↦ simp (send_sink, e) (omega (arith, h, length-append s.attempted (packet ∷ [])))
]

attempted-send_all :
    (socket : Socket) (packets : List RtpPacket) (s : JanusRtpSender)
    → (send_all socket packets s).attempted ≡ s.attempted ++ packets
unfolding send_all
attempted-send_all socket [] s = sym (append-nil s.attempted)
attempted-send_all socket (packet ∷ packets) s =
    attempted-send_all socket packets (send_sink socket packet s)
    ∙ ap (λ q. q ++ packets) (attempted-send_sink socket packet s)
    ∙ append_assoc s.attempted (packet ∷ []) packets

packetizer-send_all :
    (socket : Socket) (packets : List RtpPacket) (s : JanusRtpSender)
    → (send_all socket packets s).packetizer ≡ s.packetizer
unfolding send_all
packetizer-send_all socket [] s = refl
packetizer-send_all socket (packet ∷ packets) s =
    packetizer-send_all socket packets (send_sink socket packet s)
    ∙ packetizer-send_sink socket packet s

send_all-Counted :
    (socket : Socket) (packets : List RtpPacket) (s : JanusRtpSender)
    → Counted s
    → Counted (send_all socket packets s)
unfolding send_all
send_all-Counted socket [] s h = h
send_all-Counted socket (packet ∷ packets) s h =
    send_all-Counted socket packets (send_sink socket packet s)
      (send_sink-Counted socket packet s h)

-- What the packetizer gives is numbered on from its state.
packetize-Numbered :
    (p : RtpH264) (bytes : List ℕ) (pts_us : ℕ) (packets : List RtpPacket) (p' : RtpH264)
    → packetize p bytes pts_us ≡ some (packets, p')
    → Numbered p.sequence packets p'.sequence
unfolding packetize
packetize-Numbered p bytes pts_us packets p' e = elim (Bool-cases (length bytes == 0)) [
  | inl empty ↦
      let nothing : packetize p bytes pts_us ≡ none = rw (packetize, empty) refl in cc (nothing, e)
  | inr full ↦
      let (out, e', sent) = packetize-Sent p bytes pts_us (ground (arith, full)) in
      let same : out ≡ (packets, p') = cc (e, e') in
      subst (λ (o : List RtpPacket × RtpH264). Numbered p.sequence o.0 o.1.sequence) same
        sent.numbered
]

pub send_unit-Streamed :
    (n : ℕ) (socket : Socket) (unit : AccessUnit) (s : JanusRtpSender)
    → Streamed n s
    → Streamed n (send_unit socket unit s)
unfolding send_unit Counted
send_unit-Streamed n socket (bytes, meta) s h =
    elim (Option-cases (packetize s.packetizer bytes meta.pts_us)) [
      | inl e ↦ simp (send_unit, e) (record { numbered = h.numbered; counted = h.counted })
      | inr ((packets, packetizer), e) ↦
          let s' = record s {
            stats = record s.stats { access_units = (s.stats.access_units + 1) % 2 ^ 64 };
            packetizer = packetizer;
          } in
          let all_numbered =
            Numbered-append h.numbered
              (packetize-Numbered s.packetizer bytes meta.pts_us packets packetizer e) in
          let there : Numbered n (send_all socket packets s').attempted packetizer.sequence =
            subst (λ q. Numbered n q packetizer.sequence)
              (sym (attempted-send_all socket packets s')) all_numbered in
          simp (send_unit, e)
            (record {
              numbered =
                  subst
                    (λ (p : RtpH264). Numbered n (send_all socket packets s').attempted p.sequence)
                    (sym (packetizer-send_all socket packets s')) there;
              counted = send_all-Counted socket packets s' h.counted;
            })
    ]
