-- ===== src/WebRtc/RtpH264/Stream.antt =====
-- The stream of packets that src/webrtc/rtp_h264.c sends: numbering, size, header and counters.
use ideal_broccoli.Base.{
  ℕ, zero, suc, ◌+◌, ◌-◌, ◌%◌, ◌^◌, ◌≤◌, ◌<◌, ◌≡◌, refl, ◌∙◌, Bool, true, false, not, ◌&&◌, List,
  [], ◌∷◌, ◌++◌, arith, ltb, leb, if◌then◌else◌, ◌==◌, Bool-cases, inl, inr, length, slice, All,
  All-append, All-mono, length-append, length-take, drop, some, Option-cases,
}
use ideal_broccoli.WebRtc.RtpH264.{
  RtpH264, RtpPacket, payload_budget, next_nal, send, header, chunk, fragment_size, is_last,
  fragment, send_fragments, send_nal, send_nals, packetize, has_nal, with_base, timestamp,
}

-- The packets carry the sequence numbers that follow `s`, the last one of which is `t`.
pub data Numbered : ℕ → List RtpPacket → ℕ → Type 0 where
  stop : {s : ℕ} → Numbered s [] s
  next :
      {s t : ℕ} {packet : RtpPacket} {rest : List RtpPacket}
      → packet.sequence ≡ (s + 1) % 2 ^ 16
      → Numbered ((s + 1) % 2 ^ 16) rest t
      → Numbered s (packet ∷ rest) t

pub Numbered-append :
    {s t w : ℕ} {xs ys : List RtpPacket}
    → Numbered s xs t
    → Numbered t ys w
    → Numbered s (xs ++ ys) w
Numbered-append stop h = h
Numbered-append (next e rest) h = next e (Numbered-append rest h)

abbrev pub octets : List RtpPacket → ℕ
octets [] = 0
octets (packet ∷ rest) = length packet.bytes - 12 + octets rest

octets-append : (xs ys : List RtpPacket) → octets (xs ++ ys) ≡ octets xs + octets ys
octets-append [] ys = omega arith
octets-append (x ∷ xs) ys = omega (arith, octets-append xs ys)

-- A packet of the stream: at most 1200 bytes, a header with its own number and the time, the payload type and the source of `p`.
pub record WellFormed (p : RtpH264) (ts : ℕ) (packet : RtpPacket) : Type 0 where
  pub fits : length packet.bytes ≤ 1200
  pub payload : List ℕ
  pub bytes_eq : packet.bytes ≡ header p ts packet.marker packet.sequence ++ payload

-- What sending `packets` makes of the state `p`.
pub record Sent (p : RtpH264) (ts : ℕ) (packets : List RtpPacket) (p' : RtpH264) : Type 0 where
  pub numbered : Numbered p.sequence packets p'.sequence
  pub ssrc_eq : p'.ssrc ≡ p.ssrc
  pub payload_type_eq : p'.payload_type ≡ p.payload_type
  pub packets_eq : p'.packets % 2 ^ 32 ≡ (p.packets + length packets) % 2 ^ 32
  pub octets_eq : p'.octets % 2 ^ 32 ≡ (p.octets + octets packets) % 2 ^ 32
  pub formed : All (WellFormed p ts) packets

Sent-nil : (p : RtpH264) (ts : ℕ) → Sent p ts [] p
Sent-nil p ts = record {
  numbered = stop;
  ssrc_eq = refl;
  payload_type_eq = refl;
  packets_eq = omega arith;
  octets_eq = omega arith;
  formed = tt;
}

WellFormed-source :
    (p p' : RtpH264) (ts : ℕ) (packet : RtpPacket)
    → p'.ssrc ≡ p.ssrc
    → p'.payload_type ≡ p.payload_type
    → WellFormed p' ts packet
    → WellFormed p ts packet
WellFormed-source p p' ts packet se te w = record {
  fits = w.fits;
  payload = w.payload;
  bytes_eq = w.bytes_eq ∙ rw (se, te) refl;
}

Sent-append :
    (p q r : RtpH264) (ts : ℕ) (xs ys : List RtpPacket)
    → Sent p ts xs q
    → Sent q ts ys r
    → Sent p ts (xs ++ ys) r
Sent-append p q r ts xs ys a b = record {
  numbered = Numbered-append a.numbered b.numbered;
  ssrc_eq = b.ssrc_eq ∙ a.ssrc_eq;
  payload_type_eq = b.payload_type_eq ∙ a.payload_type_eq;
  packets_eq = omega (arith, a.packets_eq, b.packets_eq, length-append xs ys);
  octets_eq = omega (arith, a.octets_eq, b.octets_eq, octets-append xs ys);
  formed = All-append (WellFormed p ts) xs ys a.formed (
      All-mono (WellFormed q ts) (WellFormed p ts) ys
        (λ packet. WellFormed-source p q ts packet a.ssrc_eq a.payload_type_eq) b.formed);
}

send-Sent :
    (p : RtpH264) (ts : ℕ) (marker : Bool) (payload : List ℕ)
    → length payload ≤ payload_budget
    → Sent p ts ((send p ts marker payload).0 ∷ []) (send p ts marker payload).1
unfolding send
send-Sent p ts marker payload fits = record {
  numbered = next refl stop;
  ssrc_eq = refl;
  payload_type_eq = refl;
  packets_eq = omega arith;
  octets_eq = omega arith;
  formed = (record { fits = omega arith; payload = payload; bytes_eq = refl }, tt);
}

fragment-fits : (nal : List ℕ) (offset : ℕ) → length (fragment nal offset) ≤ payload_budget
unfolding fragment
fragment-fits nal offset =
    omega (arith, length-take (fragment_size (length nal) offset) (drop offset nal), piece)
  where
    piece : fragment_size (length nal) offset ≤ chunk
    piece = ground arith

send_fragments-Sent :
    (n : ℕ) (p : RtpH264) (ts : ℕ) (more : Bool) (nal : List ℕ) (offset : ℕ)
    → Sent p ts (send_fragments n p ts more nal offset).0 (send_fragments n p ts more nal offset).1
unfolding send_fragments
send_fragments-Sent zero p ts more nal offset = Sent-nil p ts
send_fragments-Sent (suc n) p ts more nal offset =
    let marker = is_last (length nal) offset && not more in
    let payload = fragment nal offset in
    let (packet, p') = send p ts marker payload in
    let next = offset + fragment_size (length nal) offset in
    let again = send_fragments n p' ts more nal next in
    elim (Bool-cases (ltb offset (length nal))) [
      | inl e ↦ rw e (
          Sent-append p p' again.1 ts (packet ∷ []) again.0
            (send-Sent p ts marker payload (fragment-fits nal offset))
            (send_fragments-Sent n p' ts more nal next))
      | inr e ↦ rw e (Sent-nil p ts)
    ]

send_nal-Sent :
    (p : RtpH264) (ts : ℕ) (more : Bool) (nal : List ℕ)
    → Sent p ts (send_nal p ts more nal).0 (send_nal p ts more nal).1
unfolding send_nal
send_nal-Sent p ts more nal = elim (Bool-cases (leb (length nal) payload_budget)) [
  | inl e ↦ rw e (send-Sent p ts (not more) nal (ground arith))
  | inr e ↦ rw e (send_fragments-Sent (length nal) p ts more nal 1)
]

send_nals-Sent :
    (n : ℕ) (p : RtpH264) (ts : ℕ) (bytes : List ℕ) (c : ℕ)
    → Sent p ts (send_nals n p ts bytes c).0 (send_nals n p ts bytes c).1
unfolding send_nals
send_nals-Sent zero p ts bytes c = Sent-nil p ts
send_nals-Sent (suc n) p ts bytes c = elim (Option-cases (next_nal bytes c)) [
  | inl e ↦ rw (send_nals, e) (Sent-nil p ts)
  | inr ((o, s), e) ↦
      rw (send_nals, e)
        (elim (Bool-cases (s == 0)) [
          | inl z ↦ rw z (send_nals-Sent n p ts bytes o)
          | inr z ↦ rw z (
              let (sent, p') = send_nal p ts (has_nal bytes (o + s)) (slice bytes o s) in
              let again = send_nals n p' ts bytes (o + s) in
              Sent-append p p' again.1 ts sent again.0
                (send_nal-Sent p ts (has_nal bytes (o + s)) (slice bytes o s))
                (send_nals-Sent n p' ts bytes (o + s)))
        ])
]

-- The state with the bases of the time has the rest of the fields.
module _ (p : RtpH264) (pts_us last : ℕ) where
  based : Bool → RtpH264
  based b = record (if b then p else record p { base_pts_us = pts_us; have_base = true }) {
    last_timestamp = last;
  }

  Sent-based :
      (b : Bool) (ts : ℕ) (packets : List RtpPacket) (p' : RtpH264)
      → Sent (based b) ts packets p'
      → Sent p ts packets p'
  unfolding based
  Sent-based true ts packets p' s = record {
    numbered = s.numbered;
    ssrc_eq = s.ssrc_eq;
    payload_type_eq = s.payload_type_eq;
    packets_eq = s.packets_eq;
    octets_eq = s.octets_eq;
    formed =
        All-mono (WellFormed (based true) ts) (WellFormed p ts) packets
          (λ packet. WellFormed-source p (based true) ts packet refl refl) s.formed;
  }
  Sent-based false ts packets p' s = record {
    numbered = s.numbered;
    ssrc_eq = s.ssrc_eq;
    payload_type_eq = s.payload_type_eq;
    packets_eq = s.packets_eq;
    octets_eq = s.octets_eq;
    formed =
        All-mono (WellFormed (based false) ts) (WellFormed p ts) packets
          (λ packet. WellFormed-source p (based false) ts packet refl refl) s.formed;
  }

  Sent-with_base :
      (ts : ℕ) (packets : List RtpPacket) (p' : RtpH264)
      → Sent (record (with_base p pts_us) { last_timestamp = last }) ts packets p'
      → Sent p ts packets p'
  unfolding with_base based
  Sent-with_base = Sent-based p.have_base

-- A buffer with bytes is packetized. The packets are numbered on from the state's sequence number,
-- each is at most 1200 bytes with the header of the state's source, its payload type and the
-- picture's time, and the counters rise by the packets and by the bytes of their payloads, modulo
-- 2 ^ 32.
pub packetize-Sent :
    (p : RtpH264) (access_unit : List ℕ) (pts_us : ℕ)
    → 0 < length access_unit
    → (out : List RtpPacket × RtpH264) × (packetize p access_unit pts_us ≡ some out)
      × Sent p (timestamp (with_base p pts_us) pts_us) out.0 out.1
unfolding packetize
packetize-Sent p access_unit pts_us pos =
    let p' = with_base p pts_us in
    let ts = timestamp p' pts_us in
    let start = record p' { last_timestamp = ts } in
    let test : (length access_unit == 0) ≡ false = ground arith in
    let out = send_nals (length access_unit + 1) start ts access_unit 0 in
    rw test (
      out,
      refl,
      Sent-with_base p pts_us ts ts out.0 out.1
          (send_nals-Sent (length access_unit + 1) start ts access_unit 0),
    )
