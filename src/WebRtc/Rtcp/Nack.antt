-- ===== src/WebRtc/Rtcp/Nack.antt =====
-- The entries of a generic NACK: which sequence numbers they name, and what the loop over the bits
-- makes of them.
use mathlib.Core.List.{append-nil, append_assoc}
use ideal_broccoli.Base.{
  take_all, ℕ, zero, suc, ◌+◌, ◌%◌, ◌^◌, ◌≤◌, ◌<◌, ◌≡◌, refl, sym, ap, ◌∙◌, true, List, [], ◌∷◌,
  ◌++◌, arith, ltb→lt, if◌then◌else◌, Bool-cases, inl, inr, length, take, length-append,
}
use ideal_broccoli.WebRtc.Wire.{write_be16, write_be32}
use ideal_broccoli.WebRtc.Rtcp.{
  RtcpFeedback, max_nack, has_room, is_set, push_nack, nack_bit, nack_bits, nack_entry,
}

-- The packets lost behind `pid`, from bit `bit` of the mask on, `n` bits.
abbrev pub lost : ℕ → ℕ → ℕ → ℕ → List ℕ
lost zero pid mask bit = []
lost (suc n) pid mask bit =
    if is_set mask bit
    then (pid + bit + 1) % 2 ^ 16 ∷ lost n pid mask (bit + 1)
    else lost n pid mask (bit + 1)

-- What a list of pairs of a packet and the mask of the 16 behind it asks for (RFC 4585, 6.2.1).
abbrev pub requested : List (ℕ × ℕ) → List ℕ
requested [] = []
requested ((pid, mask) ∷ es) = pid ∷ (lost 16 pid mask 0 ++ requested es)

-- The same pairs on the wire.
abbrev pub entries : List (ℕ × ℕ) → List ℕ
entries [] = []
entries ((pid, mask) ∷ es) = write_be16 pid ++ (write_be16 mask ++ entries es)

-- A generic NACK packet of a viewer.
abbrev pub nack_packet : ℕ → ℕ → List (ℕ × ℕ) → List ℕ
nack_packet sender media es =
    0x81
    ∷ 205
    ∷ (write_be16 (2 + length es) ++ (write_be32 sender ++ (write_be32 media ++ entries es)))

-- Feedback with more numbers, as many as there is room for.
abbrev pub add : RtcpFeedback → List ℕ → RtcpFeedback
add fb xs = record fb { nack_seq = take max_nack (fb.nack_seq ++ xs) }

module _ {ℓ} {A : Type ℓ} where
  take_full : (n : ℕ) (xs ys : List A) → n ≤ length xs → take n (xs ++ ys) ≡ take n xs
  take_full zero xs ys h = refl
  take_full (suc n) [] ys h = absurd (omega arith)
  take_full (suc n) (x ∷ xs) ys h = ap (◌∷◌ x) (take_full n xs ys (omega arith))

  take-take-append : (n : ℕ) (xs ys : List A) → take n (take n xs ++ ys) ≡ take n (xs ++ ys)
  take-take-append zero xs ys = refl
  take-take-append (suc n) [] ys = refl
  take-take-append (suc n) (x ∷ xs) ys = ap (◌∷◌ x) (take-take-append n xs ys)

module _ (fb : RtcpFeedback) where
  pub add-nil : length fb.nack_seq ≤ max_nack → add fb [] ≡ fb
  add-nil h =
      ap (λ l. record fb { nack_seq = l })
        (ap (take max_nack) (append-nil fb.nack_seq) ∙ take_all max_nack fb.nack_seq h)

  pub add_full : (xs : List ℕ) → length fb.nack_seq ≡ max_nack → add fb xs ≡ fb
  add_full xs h =
      ap (λ l. record fb { nack_seq = l })
        (take_full max_nack fb.nack_seq xs (omega (arith, h))
          ∙ take_all max_nack fb.nack_seq (omega (arith, h)))

  pub add-push : (s : ℕ) (xs : List ℕ) → add (push_nack fb s) xs ≡ add fb (s ∷ xs)
  add-push s xs =
      ap (λ l. record fb { nack_seq = take max_nack l }) (append_assoc fb.nack_seq (s ∷ []) xs)

  pub add-add : (xs ys : List ℕ) → add (add fb xs) ys ≡ add fb (xs ++ ys)
  add-add xs ys =
      ap (λ l. record fb { nack_seq = l })
        (take-take-append max_nack (fb.nack_seq ++ xs) ys
          ∙ ap (take max_nack) (append_assoc fb.nack_seq xs ys))

pub room_for : (fb : RtcpFeedback) → has_room fb ≡ true → length fb.nack_seq < max_nack
room_for fb h = ltb→lt _ _ h

nack_bits-add :
    (n pid mask bit : ℕ) (fb : RtcpFeedback)
    → length fb.nack_seq ≤ max_nack
    → nack_bits n pid mask bit fb ≡ add fb (lost n pid mask bit)
unfolding nack_bits nack_bit
nack_bits-add zero pid mask bit fb h = sym (add-nil fb h)
nack_bits-add (suc n) pid mask bit fb h = elim (Bool-cases (has_room fb)) [
  | inl room ↦ elim (Bool-cases (is_set mask bit)) [
    | inl on ↦
        rw (room, nack_bits, on)
          (nack_bits-add n pid mask (bit + 1) (push_nack fb ((pid + bit + 1) % 2 ^ 16)) (
              omega (
                arith,
                room_for fb room,
                length-append fb.nack_seq (((pid + bit + 1) % 2 ^ 16) ∷ []),
              ))
            ∙ add-push fb ((pid + bit + 1) % 2 ^ 16) (lost n pid mask (bit + 1)))
    | inr off ↦ rw (room, nack_bits, off) (nack_bits-add n pid mask (bit + 1) fb h)
  ]
  | inr full ↦ rw (full, nack_bits) (sym (add_full fb _ (ground arith)))
]

pub nack_entry-add :
    (pid mask : ℕ) (fb : RtcpFeedback)
    → length fb.nack_seq ≤ max_nack
    → nack_entry pid mask fb ≡ add fb (pid ∷ lost 16 pid mask 0)
unfolding nack_entry
nack_entry-add pid mask fb h = elim (Bool-cases (has_room fb)) [
  | inl room ↦ rw room (
      nack_bits-add 16 pid mask 0 (push_nack fb pid)
        (omega (arith, room_for fb room, length-append fb.nack_seq (pid ∷ [])))
      ∙ add-push fb pid (lost 16 pid mask 0))
  | inr full ↦ rw full (
      nack_bits-add 16 pid mask 0 fb h
      ∙ add_full fb (lost 16 pid mask 0) (ground arith)
      ∙ sym (add_full fb (pid ∷ lost 16 pid mask 0) (ground arith)))
]
