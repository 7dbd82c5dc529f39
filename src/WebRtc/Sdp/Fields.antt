-- ===== src/WebRtc/Sdp/Fields.antt =====
-- The fields of an offer that src/webrtc/sdp.c accepts, which go into the answer.
use ideal_broccoli.Base.{
  ℕ, zero, suc, ◌+◌, ◌-◌, ◌%◌, ◌^◌, ◌<◌, ◌≡◌, ◌≢◌, refl, subst, Bool, true, false, not, ◌&&◌, ◌||◌,
  Bool-cases, inl, inr, none, some, List, [], ◌∷◌, All, arith, ltb, ◌==◌, if◌then◌else◌, length,
  drop, text,
}
use ideal_broccoli.Base.Strtol.{Int32, strtol, atoi}
use ideal_broccoli.WebRtc.Sdp.{
  SdpOffer, ParseContext, Media, starts, contains, copy_on, copy_value, lines, line_buffer,
  next_media, is_video, is_audio, same_int, on_rtpmap, on_fmtp, parse_visit, for_each_line,
  no_offer, accept, parse_offer,
}

-- A text that fits a buffer of `n` bytes with the 0 behind it, and that ends no line.
abbrev pub Field : ℕ → List ℕ → Type 0
Field n xs = (length xs < n) × All (λ c. (c ≢ 13) × (c ≢ 10)) xs

-- A payload type is what an `int` holds.
abbrev pub Clean : SdpOffer → Type 0
Clean o =
    Field 80 o.ice_ufrag
    × Field 128 o.ice_pwd
    × Field 128 o.fingerprint
    × Field 24 o.setup
    × Field 24 o.video_mid
    × Field 24 o.audio_mid
    × ((o.h264_payload_type.0 ≡ false) → o.h264_payload_type.1 < 2 ^ 31)

copy_on-Field : (room : ℕ) (cs : List ℕ) → Field (room + 1) (copy_on room cs)
unfolding copy_on
copy_on-Field zero cs = (omega arith, tt)
copy_on-Field (suc room) [] = (omega arith, tt)
copy_on-Field (suc room) (c ∷ cs) = elim (Bool-cases (c == 0 || c == 13 || c == 10)) [
  | inl e ↦ rw (copy_on, e) (omega arith, tt)
  | inr e ↦
      let (short, clean) = copy_on-Field room cs in
      rw (copy_on, e) (omega (arith, short), ((ground (arith, e), ground (arith, e)), clean))
]

copy_value-Field :
    (line prefix out : List ℕ) (n : ℕ)
    → Field (n + 1) out
    → Field (n + 1) (copy_value line prefix out (n + 1))
unfolding copy_value
copy_value-Field line prefix out n h = elim (Bool-cases (starts prefix line)) [
  | inl e ↦
      let room : n + 1 - 1 ≡ n = omega arith in
      rw (copy_value, e, room) (copy_on-Field n (drop (length prefix) line))
  | inr e ↦ rw (copy_value, e) h
]

abbrev from_bits : Bool → ℕ → Int32
from_bits below bits = if below then (false, bits) else (true, 2 ^ 32 - bits)

from_bits-Int32 :
    (below : Bool) (bits : ℕ)
    → ltb bits (2 ^ 31) ≡ below
    → (from_bits below bits).0 ≡ false
    → (from_bits below bits).1 < 2 ^ 31
from_bits-Int32 true bits e h = ground (arith, e)
from_bits-Int32 false bits e h = cc h

atoi-Int32 : (cs : List ℕ) → (atoi cs).0 ≡ false → (atoi cs).1 < 2 ^ 31
unfolding atoi
atoi-Int32 cs =
    let (minus, n, rest) = strtol cs in
    let bits = (if minus then 2 ^ 32 - n % 2 ^ 32 else n) % 2 ^ 32 in
    from_bits-Int32 (ltb bits (2 ^ 31)) bits refl

on_rtpmap-Clean : (line : List ℕ) (o : SdpOffer) → Clean o → Clean (on_rtpmap line o)
unfolding on_rtpmap
on_rtpmap-Clean line o v =
    elim (Bool-cases (contains (text "H264/90000") line && o.h264_payload_type.0)) [
      | inl e ↦ simp (on_rtpmap, e) (v.0, v.1, v.2, v.3, v.4, v.5, atoi-Int32 (drop 9 line))
      | inr e ↦ simp (on_rtpmap, e) v
    ]

on_fmtp-Clean : (line : List ℕ) (o : SdpOffer) → Clean o → Clean (on_fmtp line o)
unfolding on_fmtp
on_fmtp-Clean line o v =
    elim (Bool-cases (
      same_int (atoi (drop 7 line)) o.h264_payload_type
      && contains (text "packetization-mode=0") line)) [
        | inl e ↦ simp (on_fmtp, e) v
        | inr e ↦ simp (on_fmtp, e) v
      ]

Clean-if :
    (b : Bool) (x y : ParseContext)
    → Clean x.offer
    → Clean y.offer
    → Clean (if b then x else y).offer
Clean-if true x y p q = p
Clean-if false x y p q = q

parse_visit-Clean :
    (line : List ℕ) (media : Media) (ctx : ParseContext)
    → Clean ctx.offer
    → Clean (parse_visit line media ctx).offer
unfolding parse_visit
parse_visit-Clean line media ctx v =
    let o = ctx.offer in
    Clean-if (starts (text "a=ice-ufrag:") line) _ _
      (copy_value-Field line (text "a=ice-ufrag:") o.ice_ufrag 79 v.0, v.1, v.2, v.3, v.4, v.5, v.6)
      (Clean-if (starts (text "a=ice-pwd:") line) _ _
        (v.0, copy_value-Field line (text "a=ice-pwd:") o.ice_pwd 127 v.1, v.2, v.3, v.4, v.5, v.6)
        (Clean-if (starts (text "a=fingerprint:") line) _ _
          (
            v.0,
            v.1,
            copy_value-Field line (text "a=fingerprint:") o.fingerprint 127 v.2,
            v.3,
            v.4,
            v.5,
            v.6,
          )
          (Clean-if (starts (text "a=setup:") line) _ _
            (v.0, v.1, v.2, copy_value-Field line (text "a=setup:") o.setup 23 v.3, v.4, v.5, v.6)
            (Clean-if (is_video media && starts (text "a=mid:") line) _ _
              (
                v.0,
                v.1,
                v.2,
                v.3,
                copy_value-Field line (text "a=mid:") o.video_mid 23 v.4,
                v.5,
                v.6,
              )
              (Clean-if (is_audio media && starts (text "a=mid:") line) _ _
                (
                  v.0,
                  v.1,
                  v.2,
                  v.3,
                  v.4,
                  copy_value-Field line (text "a=mid:") o.audio_mid 23 v.5,
                  v.6,
                )
                (Clean-if (is_video media && starts (text "a=rtpmap:") line) _ _
                  (on_rtpmap-Clean line o v)
                  (Clean-if (is_video media && starts (text "a=fmtp:") line) _ _
                    (on_fmtp-Clean line o v) v)))))))

for_each_line-Clean :
    (cuts : List (List ℕ)) (media : Media) (ctx : ParseContext)
    → Clean ctx.offer
    → Clean (for_each_line cuts media ctx).offer
unfolding for_each_line
for_each_line-Clean [] media ctx v = v
for_each_line-Clean (cut ∷ cuts) media ctx v =
    let line = line_buffer cut in
    let media' = next_media line media in
    for_each_line-Clean cuts media' (parse_visit line media' ctx)
      (parse_visit-Clean line media' ctx v)

no_offer-Clean : Clean no_offer.offer
unfolding no_offer
no_offer-Clean = (
  (omega arith, tt),
  (omega arith, tt),
  (omega arith, tt),
  (omega arith, tt),
  (omega arith, tt),
  (omega arith, tt),
  λ h. cc h,
)

actpass : Field 24 (text "actpass")
actpass = (
  omega arith,
  (
    (omega arith, omega arith),
    (
      (omega arith, omega arith),
      (
        (omega arith, omega arith),
        (
          (omega arith, omega arith),
          (
            (omega arith, omega arith),
            ((omega arith, omega arith), ((omega arith, omega arith), tt)),
          ),
        ),
      ),
    ),
  ),
)

accept-Clean :
    (ctx : ParseContext) (offer : SdpOffer)
    → Clean ctx.offer
    → accept ctx ≡ some offer
    → Clean offer × (offer.h264_payload_type.0 ≡ false) × (0 < length offer.setup)
unfolding accept
accept-Clean ctx offer v h =
    elim (Bool-cases (not ctx.have_ufrag || not ctx.have_pwd || not ctx.have_fingerprint)) [
      | inl e ↦ let refused : accept ctx ≡ none = simp (accept, e) refl in cc (refused, h)
      | inr e ↦ elim (Bool-cases ctx.offer.h264_payload_type.0) [
        | inl f ↦ let refused : accept ctx ≡ none = simp (accept, e, f) refl in cc (refused, h)
        | inr f ↦ elim (Bool-cases (length ctx.offer.setup == 0)) [
          | inl g ↦
              let accepted : accept ctx ≡ some (record ctx.offer { setup = text "actpass" }) =
                simp (accept, e, f, g) refl in
              let same : record ctx.offer { setup = text "actpass" } ≡ offer = cc (accepted, h) in
              subst
                (λ (o : SdpOffer). Clean o × (o.h264_payload_type.0 ≡ false) × (0 < length o.setup))
                same ((v.0, v.1, v.2, actpass, v.4, v.5, v.6), f, omega arith)
          | inr g ↦
              let accepted : accept ctx ≡ some ctx.offer = simp (accept, e, f, g) refl in
              let same : ctx.offer ≡ offer = cc (accepted, h) in
              subst
                (λ (o : SdpOffer). Clean o × (o.h264_payload_type.0 ≡ false) × (0 < length o.setup))
                same (v, f, ground (arith, g))
        ]
      ]
    ]

-- Whatever text is offered, if it is accepted, then its fields fit their buffers and have no byte that
-- ends a line of the answer, its payload type is an `int` from 0 on, and it has a setup role.
pub parse_offer-Clean :
    (sdp : List ℕ) (offer : SdpOffer)
    → parse_offer sdp ≡ some offer
    → Clean offer × (offer.h264_payload_type.0 ≡ false) × (0 < length offer.setup)
unfolding parse_offer
parse_offer-Clean sdp offer h =
    accept-Clean (for_each_line (lines sdp) Media.session no_offer) offer
      (for_each_line-Clean (lines sdp) Media.session no_offer no_offer-Clean) h
