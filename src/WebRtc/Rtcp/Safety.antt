-- ===== src/WebRtc/Rtcp/Safety.antt =====
-- `rtcp_parse` on any bytes: it ends, and reads and writes inside its arrays.
use ideal_broccoli.Base.{
  ℕ, zero, suc, ◌+◌, ◌*◌, ◌/◌, ◌%◌, ◌^◌, ◌≤◌, ◌<◌, ◌≡◌, refl, Bool, true, false, Option, some,
  ◌>>=◌, List, arith, leb, ltb, ◌==◌, ◌&&◌, ◌||◌, if◌then◌else◌, Bool-cases, inl, inr, length,
  length-append, get_or, get_elem?-eq-get_or,
}
use ideal_broccoli.WebRtc.Wire.{read_be16_inside, read_be32_inside}
use ideal_broccoli.WebRtc.Rtcp.{
  RtcpFeedback, max_nack, no_feedback, has_room, push_nack, nack_bit, nack_bits, nack_entry,
  nack_loop, receiver_report, parse_packet, parse_loop, parse,
}

-- No more sequence numbers than the array has entries.
abbrev Bounded : RtcpFeedback → Type 0
Bounded fb = length fb.nack_seq ≤ max_nack

-- A result, and it is bounded.
abbrev Fine : Option RtcpFeedback → Type 0
Fine r = (fb : RtcpFeedback) × (r ≡ some fb) × Bounded fb

Fine-if :
    (b : Bool) {r t : Option RtcpFeedback}
    → (b ≡ true → Fine r)
    → (b ≡ false → Fine t)
    → Fine (if b then r else t)
Fine-if true p q = p refl
Fine-if false p q = q refl

Fine->>= :
    (r : Option RtcpFeedback) (k : RtcpFeedback → Option RtcpFeedback)
    → Fine r
    → ((fb : RtcpFeedback) → Bounded fb → Fine (k fb))
    → Fine (r >>= k)
Fine->>= r k (fb, e, h) next = rw e (next fb h)

push_nack_bounds : (fb : RtcpFeedback) (seq : ℕ) → has_room fb ≡ true → Bounded (push_nack fb seq)
push_nack_bounds fb seq room = ground (arith, length-append fb.nack_seq (List.◌∷◌ seq List.[]))

nack_bit_bounds :
    (pid mask bit : ℕ) (fb : RtcpFeedback)
    → Bounded fb
    → has_room fb ≡ true
    → Bounded (nack_bit pid mask bit fb)
unfolding nack_bit
nack_bit_bounds pid mask bit fb h room =
    ground (arith, push_nack_bounds fb ((pid + bit + 1) % 2 ^ 16) room)

nack_bits_bounds :
    (n pid mask bit : ℕ) (fb : RtcpFeedback) → Bounded fb → Bounded (nack_bits n pid mask bit fb)
unfolding nack_bits
nack_bits_bounds zero pid mask bit fb h = h
nack_bits_bounds (suc n) pid mask bit fb h = elim (Bool-cases (has_room fb)) [
  | inl room ↦
      rw (room, nack_bits)
        (nack_bits_bounds n pid mask (bit + 1) (nack_bit pid mask bit fb)
          (nack_bit_bounds pid mask bit fb h room))
  | inr full ↦ rw (full, nack_bits) h
]

nack_entry_bounds :
    (pid mask : ℕ) (fb : RtcpFeedback) → Bounded fb → Bounded (nack_entry pid mask fb)
unfolding nack_entry
nack_entry_bounds pid mask fb h = elim (Bool-cases (has_room fb)) [
  | inl room ↦
      rw room (nack_bits_bounds 16 pid mask 0 (push_nack fb pid) (push_nack_bounds fb pid room))
  | inr full ↦ rw full (nack_bits_bounds 16 pid mask 0 fb h)
]

nack_loop-Fine :
    (n : ℕ) (buffer : List ℕ) (i stop : ℕ) (fb : RtcpFeedback)
    → Bounded fb
    → stop ≤ length buffer
    → i ≤ stop + 8
    → stop + 8 < i + n
    → Fine (nack_loop n buffer i stop fb)
unfolding nack_loop
nack_loop-Fine zero buffer i stop fb h s l f = absurd (omega arith)
nack_loop-Fine (suc n) buffer i stop fb h s l f =
    elim (Bool-cases (leb (i + 4) stop && has_room fb)) [
      | inl more ↦
          let pid : ℕ = get_or buffer i 0 * 256 + get_or buffer (i + 1) 0 in
          let mask : ℕ = get_or buffer (i + 2) 0 * 256 + get_or buffer (i + 2 + 1) 0 in
          let ih =
            nack_loop-Fine n buffer (i + 4) stop (nack_entry pid mask fb)
              (nack_entry_bounds pid mask fb h) s (ground arith) (ground arith) in
          rw
            (
              more,
              read_be16_inside buffer i (ground arith),
              read_be16_inside buffer (i + 2) (ground arith),
            )
            ih
      | inr done ↦ rw done (fb, refl, h)
    ]

receiver_report-Fine :
    (buffer : List ℕ) (offset : ℕ) (fb : RtcpFeedback)
    → Bounded fb
    → offset + 32 ≤ length buffer
    → Fine (receiver_report buffer offset fb)
unfolding receiver_report
receiver_report-Fine buffer offset fb h inside =
    let (highest, eh) = read_be32_inside buffer (offset + 16) (omega arith) in
    let (jitter, ej) = read_be32_inside buffer (offset + 20) (omega arith) in
    (
      record fb {
        has_rr = true;
        rr_fraction_lost = get_or buffer (offset + 12) 0;
        rr_highest_seq = highest;
        rr_jitter = jitter;
      },
      rw (get_elem?-eq-get_or buffer (offset + 12) 0 (omega arith), eh, ej),
      h,
    )

parse_packet-Fine :
    (buffer : List ℕ) (offset fmt type len : ℕ) (fb : RtcpFeedback)
    → Bounded fb
    → offset + len ≤ length buffer
    → 4 ≤ len
    → Fine (parse_packet buffer offset fmt type len fb)
unfolding parse_packet
parse_packet-Fine buffer offset fmt type len fb h inside pos =
    Fine-if (type == 205)
      (λ _.
        Fine-if (fmt == 1)
          (λ _.
            nack_loop-Fine (len + 1) buffer (offset + 12) (offset + len) fb h inside (omega arith)
              (omega arith))
          (λ _. same))
      (λ _.
        Fine-if (type == 201)
          (λ _.
            Fine-if (leb 1 fmt && leb 32 len)
              (λ e. receiver_report-Fine buffer offset fb h (ground arith)) (λ _. same))
          (λ _.
            Fine-if (type == 203) (λ _. (record fb { bye = true }, refl, h))
              (λ _. Fine-if (type == 206) (λ _. (_, refl, feedback)) (λ _. same))))
  where
    same : Fine (some fb)
    same = (fb, refl, h)

    feedback : Bounded (
        if fmt == 1
        then record fb { pli = fb.pli + 1 }
        else if fmt == 4
        then record fb { fir = fb.fir + 1 }
        else fb)
    feedback = ground arith

parse_loop-Fine :
    (n : ℕ) (buffer : List ℕ) (offset : ℕ) (fb : RtcpFeedback)
    → Bounded fb
    → offset ≤ length buffer
    → length buffer < offset + n
    → Fine (parse_loop n buffer offset fb)
unfolding parse_loop
parse_loop-Fine zero buffer offset fb h l f = absurd (omega arith)
parse_loop-Fine (suc n) buffer offset fb h l f =
    elim (Bool-cases (leb (offset + 4) (length buffer))) [
      | inl more ↦
          let words : ℕ = get_or buffer (offset + 2) 0 * 256 + get_or buffer (offset + 2 + 1) 0 in
          let len : ℕ = (words + 1) * 4 in
          rw
            (
              more,
              get_elem?-eq-get_or buffer offset 0 (ground arith),
              get_elem?-eq-get_or buffer (offset + 1) 0 (ground arith),
              read_be16_inside buffer (offset + 2) (ground arith),
            )
            (Fine-if (get_or buffer offset 0 / 64 == 2)
              (λ _.
                Fine-if (ltb (length buffer) (offset + len) || len == 0) (λ _. (fb, refl, h))
                  (λ fits.
                    Fine->>= _ _
                      (parse_packet-Fine buffer offset _ _ len fb h (ground arith) (omega arith))
                      (λ fb' h'.
                        parse_loop-Fine n buffer (offset + len) fb' h' (ground arith)
                          (omega arith))))
              (λ _. (fb, refl, h)))
      | inr done ↦ rw done (fb, refl, h)
    ]

-- `rtcp_parse` ends on any bytes with a result, after reads inside the buffer only, and with at
-- most 128 sequence numbers to retransmit.
pub parse_total :
    (buffer : List ℕ)
    → (fb : RtcpFeedback) × (parse buffer ≡ some fb) × (length fb.nack_seq ≤ max_nack)
unfolding parse
parse_total buffer =
    parse_loop-Fine (length buffer + 1) buffer 0 no_feedback (omega arith) (omega arith)
      (omega arith)
