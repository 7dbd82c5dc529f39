-- ===== src/WebRtc/IceLite/Walk.antt =====
-- The walk of `stun_find_attribute` (src/webrtc/ice_lite.c) over the attributes of a message.
use ideal_broccoli.Base.{
  ℕ, zero, suc, ◌+◌, ◌*◌, ◌≤◌, ◌<◌, ◌≡◌, ◌≢◌, refl, ap, ◌∙◌, Bool-cases, inl, inr, Option, none,
  some, ◌>>=◌, List, arith, ltb, leb, ◌==◌, length, get_or,
}
use ideal_broccoli.WebRtc.Wire.{read_be16, read_be16_inside}
use ideal_broccoli.WebRtc.IceLite.{find_loop, stun_find_attribute, stun_header_size, padded}

-- The walk comes to an attribute at an offset and has passed none of the type `wanted`.
pub data Passes (buf : List ℕ) (wanted : ℕ) : ℕ → ℕ → Type 0 where
  here : {o : ℕ} → Passes buf wanted o o
  past :
      {o o' type len : ℕ}
      → read_be16 buf o ≡ some type
      → type ≢ wanted
      → read_be16 buf (o + 2) ≡ some len
      → Passes buf wanted (o + (4 + padded len)) o'
      → Passes buf wanted o o'

-- What a result of the walk from `offset` on says.
pub Found : List ℕ → ℕ → ℕ → ℕ → Option (ℕ × ℕ) → Type 0
Found buf wanted end offset none = Unit
Found buf wanted end offset (some (value, len)) =
    (o : ℕ) × (value ≡ o + 4)
    × Passes buf wanted offset o
    × (read_be16 buf o ≡ some wanted)
    × (read_be16 buf (o + 2) ≡ some len)
    × (offset ≤ o)
    × (value + len ≤ end)

-- One attribute of another type before.
Found-past :
    (buf : List ℕ) (wanted end offset type len : ℕ) (r : Option (ℕ × ℕ))
    → read_be16 buf offset ≡ some type
    → type ≢ wanted
    → read_be16 buf (offset + 2) ≡ some len
    → Found buf wanted end (offset + (4 + padded len)) r
    → Found buf wanted end offset r
unfolding Found
Found-past buf wanted end offset type len none a b c h = tt
Found-past buf wanted end offset type len (some (v, m)) a b c h =
    (h.0, h.1, past a b c h.2, h.3, h.4, omega (arith, h.5), h.6)

Found-mono :
    (buf : List ℕ) (wanted end end' offset : ℕ) (r : Option (ℕ × ℕ))
    → end ≤ end'
    → Found buf wanted end offset r
    → Found buf wanted end' offset r
unfolding Found
Found-mono buf wanted end end' offset none le h = tt
Found-mono buf wanted end end' offset (some (v, m)) le h =
    (h.0, h.1, h.2, h.3, h.4, h.5, omega (arith, h.6))

-- The walk ends, reads only inside the buffer, and finds the first attribute of the type.
find_loop_total :
    (n : ℕ) (buf : List ℕ) (wanted end offset : ℕ)
    → end ≤ length buf
    → end < offset + n
    → 0 < n
    → (r : Option (ℕ × ℕ)) × (find_loop n buf wanted end offset ≡ some r)
      × Found buf wanted end offset r
unfolding find_loop Found
find_loop_total zero buf wanted end offset fits f pos = absurd (omega arith)
find_loop_total (suc n) buf wanted end offset fits f pos =
    let type = get_or buf offset 0 * 256 + get_or buf (offset + 1) 0 in
    let len = get_or buf (offset + 2) 0 * 256 + get_or buf (offset + 2 + 1) 0 in
    elim (Bool-cases (leb (offset + 4) end)) [
      | inr e ↦ rw (find_loop, e) (none, refl, tt)
      | inl e ↦
          let read_type = read_be16_inside buf offset (ground arith) in
          let read_len = read_be16_inside buf (offset + 2) (ground arith) in
          rw (find_loop, e, read_type, read_len)
            (elim (Bool-cases (ltb end (offset + 4 + len))) [
              | inl long ↦ rw (◌>>=◌, long) (none, refl, tt)
              | inr short ↦
                  rw (◌>>=◌, short)
                    (elim (Bool-cases (type == wanted)) [
                      | inl same ↦
                          let is_wanted : type ≡ wanted = ground arith in
                          rw same (
                            some (offset + 4, len),
                            refl,
                            (
                              offset,
                              refl,
                              here,
                              read_type ∙ ap some is_wanted,
                              read_len,
                              omega arith,
                              ground arith,
                            ),
                          )
                      | inr differ ↦
                          let (r, ran, found) =
                            find_loop_total n buf wanted end (offset + (4 + padded len)) fits
                              (ground arith) (ground arith) in
                          rw differ (
                            r,
                            ran,
                            Found-past buf wanted end offset type len r read_type
                                (λ same. ground arith) read_len found,
                          )
                    ])
            ])
    ]

-- The walk over a message of any bytes ends and reads only inside the buffer. If it finds an
-- attribute, the value lies inside the message behind the header, and the attribute is the first
-- one of the type that is wanted.
pub stun_find_attribute_total :
    (buf : List ℕ) (wanted : ℕ)
    → (r : Option (ℕ × ℕ)) × (stun_find_attribute buf wanted ≡ some r)
      × Found buf wanted (length buf) stun_header_size r
unfolding stun_find_attribute Found
stun_find_attribute_total buf wanted = elim (Bool-cases (ltb (length buf) stun_header_size)) [
  | inl e ↦ rw (stun_find_attribute, e) (none, refl, tt)
  | inr e ↦
      let message_len = get_or buf 2 0 * 256 + get_or buf 3 0 in
      let read = read_be16_inside buf 2 (ground arith) in
      rw (stun_find_attribute, e, read)
        (elim (Bool-cases (ltb (length buf) (message_len + stun_header_size))) [
          | inl long ↦ rw (◌>>=◌, long) (none, refl, tt)
          | inr short ↦
              let (r, ran, found) =
                find_loop_total (message_len + 1) buf wanted (stun_header_size + message_len)
                  stun_header_size (ground arith) (omega arith) (omega arith) in
              rw (◌>>=◌, short)
                (
                  r,
                  ran,
                  Found-mono buf wanted (stun_header_size + message_len) (length buf)
                      stun_header_size r (ground arith) found,
                )
        ])
]
