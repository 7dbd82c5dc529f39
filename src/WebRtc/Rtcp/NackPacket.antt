-- ===== src/WebRtc/Rtcp/NackPacket.antt =====
-- Whole NACK packets: exactly the sequence numbers that the viewer names are retransmitted.
use mathlib.Core.List.{append_assoc}
use native.Mathlib.Numerals.{add-one}
use ideal_broccoli.Base.{
  ℕ, zero, suc, ◌+◌, ◌*◌, ◌/◌, ◌%◌, ◌^◌, ◌≤◌, ◌<◌, ◌≡◌, refl, sym, ap, ap₂, subst₂, ◌∙◌, true,
  false, some, List, [], ◌∷◌, ◌++◌, arith, ltb, le→leb, ◌==◌, Bool-cases, inl, inr, All, length,
  take, drop, get_elem?, ◌||◌, length-append, length-take,
}
use ideal_broccoli.WebRtc.Wire.{read_be16, write_be16, write_be32, read_be16-write}
use ideal_broccoli.WebRtc.Rtcp.{
  RtcpFeedback, max_nack, no_feedback, has_room, nack_entry, nack_loop, parse_packet, parse_loop,
  parse,
}
use ideal_broccoli.WebRtc.Rtcp.Nack.{
  requested, lost, entries, nack_packet, add, add-nil, add_full, add-add, nack_entry-add,
}

-- Both parts of an entry are 16-bit words.
abbrev pub IsWordPair : ℕ × ℕ → Type 0
IsWordPair e = (e.0 < 2 ^ 16) × (e.1 < 2 ^ 16)

module _ (n : ℕ) (buffer : List ℕ) (i stop : ℕ) (fb : RtcpFeedback) where
  nack_loop_step :
      (pid mask : ℕ)
      → i + 4 ≤ stop
      → has_room fb ≡ true
      → read_be16 buffer i ≡ some pid
      → read_be16 buffer (i + 2) ≡ some mask
      → nack_loop (suc n) buffer i stop fb
        ≡ nack_loop n buffer (i + 4) stop (nack_entry pid mask fb)
  unfolding nack_loop
  nack_loop_step pid mask inside room p q = rw (le→leb (i + 4) stop inside, room, p, q)

  nack_loop_full : has_room fb ≡ false → nack_loop (suc n) buffer i stop fb ≡ some fb
  unfolding nack_loop
  nack_loop_full full = ground arith

  nack_loop_end : stop < i + 4 → nack_loop (suc n) buffer i stop fb ≡ some fb
  unfolding nack_loop
  nack_loop_end h = ground arith

-- The words of an entry stand where the loop reads them.
entry_words :
    (pre rest : List ℕ) (pid mask : ℕ)
    → pid < 2 ^ 16
    → mask < 2 ^ 16
    → let buffer = pre ++ (write_be16 pid ++ (write_be16 mask ++ rest)) in
      (read_be16 buffer (length pre) ≡ some pid)
      × (read_be16 buffer (length pre + 2) ≡ some mask)
      × ((pre ++ (write_be16 pid ++ write_be16 mask)) ++ rest ≡ buffer)
      × (length (pre ++ (write_be16 pid ++ write_be16 mask)) ≡ length pre + 4)
entry_words pre rest pid mask hp hm = (
  read_be16-write pre (write_be16 mask ++ rest) pid hp,
  subst₂ (λ b k. read_be16 b k ≡ some mask)
      (append_assoc pre (write_be16 pid) (write_be16 mask ++ rest))
      (length-append pre (write_be16 pid)) (read_be16-write (pre ++ write_be16 pid) rest mask hm),
  append_assoc pre (write_be16 pid ++ write_be16 mask) rest,
  length-append pre (write_be16 pid ++ write_be16 mask),
)

nack_loop-add :
    (es : List (ℕ × ℕ)) (n : ℕ) (pre buffer : List ℕ) (i : ℕ) (fb : RtcpFeedback)
    → pre ++ entries es ≡ buffer
    → length pre ≡ i
    → All IsWordPair es
    → length fb.nack_seq ≤ max_nack
    → length es < n
    → nack_loop n buffer i (length buffer) fb ≡ some (add fb (requested es))
nack_loop-add [] zero pre buffer i fb e l w h f = absurd (omega arith)
nack_loop-add [] (suc n) pre buffer i fb e l w h f =
    nack_loop_end n buffer i (length buffer) fb (omega (arith, ap length e, length-append pre []))
    ∙ ap some (sym (add-nil fb h))
nack_loop-add ((pid, mask) ∷ es) zero pre buffer i fb e l w h f = absurd (omega arith)
nack_loop-add ((pid, mask) ∷ es) (suc n) pre buffer i fb e l w h f =
    elim (Bool-cases (has_room fb)) [
      | inl room ↦
          let (first, second, joined, len) = entry_words pre (entries es) pid mask w.0.0 w.0.1 in
          nack_loop_step n buffer i (length buffer) fb pid mask
            (omega (
              arith,
              l,
              ap length e,
              ap length joined,
              length-append (pre ++ (write_be16 pid ++ write_be16 mask)) (entries es),
              len,
            ))
            room (subst₂ (λ b k. read_be16 b k ≡ some pid) e l first)
            (subst₂ (λ b k. read_be16 b (k + 2) ≡ some mask) e l second)
          ∙ nack_loop-add es n (pre ++ (write_be16 pid ++ write_be16 mask)) buffer (i + 4)
              (nack_entry pid mask fb) (joined ∙ e) (omega (arith, len, l)) w.1
              (omega (
                arith,
                ap (λ x. length x.nack_seq) (nack_entry-add pid mask fb h),
                length-take max_nack (fb.nack_seq ++ (pid ∷ lost 16 pid mask 0)),
              ))
              (omega arith)
          ∙ ap (λ x. some (add x (requested es))) (nack_entry-add pid mask fb h)
          ∙ ap some (add-add fb (pid ∷ lost 16 pid mask 0) (requested es))
      | inr full ↦
          nack_loop_full n buffer i (length buffer) fb full
          ∙ ap some (sym (add_full fb (requested ((pid, mask) ∷ es)) (ground arith)))
    ]

module _ (n : ℕ) (buffer : List ℕ) (offset : ℕ) (fb : RtcpFeedback) where
  parse_loop_step :
      (b type words : ℕ) (fb' : RtcpFeedback)
      → get_elem? buffer offset ≡ some b
      → b / 64 ≡ 2
      → get_elem? buffer (offset + 1) ≡ some type
      → read_be16 buffer (offset + 2) ≡ some words
      → offset + (words + 1) * 4 ≤ length buffer
      → parse_packet buffer offset (b % 32) type ((words + 1) * 4) fb ≡ some fb'
      → parse_loop (suc n) buffer offset fb ≡ parse_loop n buffer (offset + (words + 1) * 4) fb'
  unfolding parse_loop
  parse_loop_step b type words fb' e version t l inside p =
      rw (le→leb (offset + 4) (length buffer) (omega arith), e, t, l, version, fits, p)
    where
      fits : (ltb (length buffer) (offset + (words + 1) * 4) || (words + 1) * 4 == 0) ≡ false
      fits = ground arith

  parse_loop_end : length buffer < offset + 4 → parse_loop (suc n) buffer offset fb ≡ some fb
  unfolding parse_loop
  parse_loop_end h = ground arith

length-entries : (es : List (ℕ × ℕ)) → length (entries es) ≡ 4 * length es
length-entries [] = refl
length-entries ((pid, mask) ∷ es) = omega (arith, length-entries es)

-- A generic NACK packet with any entries asks for exactly the packets that its entries name, in
-- their order, as far as the array of 128 numbers goes, and for nothing else.
pub parse-nack_packet :
    (sender media : ℕ) (es : List (ℕ × ℕ))
    → All IsWordPair es
    → length es < 65534
    → parse (nack_packet sender media es)
      ≡ some (record no_feedback { nack_seq = take max_nack (requested es) })
unfolding parse parse_packet
parse-nack_packet sender media es w small =
    ap (λ k. parse_loop k buffer 0 no_feedback) (add-one (length buffer))
    ∙ parse_loop_step (length buffer) buffer 0 no_feedback 0x81 205 (2 + length es)
        (add no_feedback (requested es)) refl refl refl
        (read_be16-write (0x81 ∷ 205 ∷ []) _ (2 + length es) (omega arith)) (omega (arith, size))
        packet
    ∙ parse_loop_end (suc (length (drop 2 buffer))) buffer (0 + (2 + length es + 1) * 4)
        (add no_feedback (requested es)) (omega (arith, size))
  where
    buffer : List ℕ
    buffer = nack_packet sender media es

    size : length buffer ≡ 12 + 4 * length es
    size = omega (arith, length-entries es)

    pre : List ℕ
    pre = 0x81 ∷ 205 ∷ (write_be16 (2 + length es) ++ (write_be32 sender ++ write_be32 media))

    packet :
        parse_packet buffer 0 (0x81 % 32) 205 ((2 + length es + 1) * 4) no_feedback
        ≡ some (add no_feedback (requested es))
    packet =
        ap₂ (λ k stop. nack_loop k buffer 12 stop no_feedback) (omega (arith, size))
          (omega (arith, size))
        ∙ nack_loop-add es (length buffer + 1) pre buffer 12 no_feedback refl refl w (omega arith)
            (omega (arith, size))
