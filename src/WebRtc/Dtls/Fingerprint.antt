-- ===== src/WebRtc/Dtls/Fingerprint.antt =====
-- The fingerprint of a certificate in src/webrtc/dtls_srtp.c: what is written is what is accepted.
use ideal_broccoli.Base.{
  ℕ, zero, suc, ◌+◌, ◌-◌, ◌*◌, ◌/◌, ◌%◌, ◌≤◌, ◌<◌, ◌≡◌, ◌↔◌, refl, sym, ap, ap₂, ◌∙◌, true, false,
  Bool, false, some, List, [], ◌∷◌, drop, take, take_all, length-drop, list_eq, All, arith, ltb,
  ◌==◌, if◌then◌else◌, length, list_eq_refl, list_eq-eq,
}
use ideal_broccoli.WebRtc.Dtls.{
  hex, hex_digit, colon_hex, fingerprint_text, after_space, normalize, fold_case,
  fingerprint_hex_equal,
}

-- A byte.
abbrev pub IsByte : ℕ → Type 0
IsByte x = x < 256

digit_ranges :
    (d : ℕ) → d < 16 → ((hex_digit d == b':') ≡ false) × (fold_case (hex_digit d) ≡ hex_digit d)
digit_ranges d h = (ground arith, ground arith)

-- Two digits are kept, a colon is not.
normalize-colon_hex :
    (md : List ℕ) (room : ℕ)
    → All IsByte md
    → 2 * length md ≤ room
    → normalize room (colon_hex md) ≡ hex md
unfolding normalize colon_hex hex
normalize-colon_hex [] zero h f = refl
normalize-colon_hex [] (suc room) h f = refl
normalize-colon_hex (x ∷ md) zero h f = absurd (omega arith)
normalize-colon_hex (x ∷ md) (suc zero) h f = absurd (omega arith)
normalize-colon_hex (x ∷ md) (suc (suc room)) h f =
    let hi = digit_ranges (x / 16) (omega (arith, h.0)) in
    let lo = digit_ranges (x % 16) (omega arith) in
    rw (hi.0, hi.1, lo.0, lo.1, normalize-colon_hex md room h.1 (omega arith)) refl

abbrev digit_value : ℕ → ℕ
digit_value c = if ltb c b'A' then c - b'0' else c + 10 - b'A'

digit_value-hex_digit : (d : ℕ) → d < 16 → digit_value (hex_digit d) ≡ d
digit_value-hex_digit d h = ground arith

digit_injective : (a b : ℕ) → a < 16 → b < 16 → hex_digit a ≡ hex_digit b → a ≡ b
digit_injective a b ha hb e =
    sym (digit_value-hex_digit a ha) ∙ ap digit_value e ∙ digit_value-hex_digit b hb

hex_injective : (a b : List ℕ) → All IsByte a → All IsByte b → hex a ≡ hex b → a ≡ b
unfolding hex
hex_injective [] [] ha hb e = refl
hex_injective [] (y ∷ b) ha hb e = cc
hex_injective (x ∷ a) [] ha hb e = cc
hex_injective (x ∷ a) (y ∷ b) ha hb e =
    let high : hex_digit (x / 16) ≡ hex_digit (y / 16) = cc in
    let low : hex_digit (x % 16) ≡ hex_digit (y % 16) = cc in
    let rest : hex a ≡ hex b = cc in
    let hi = digit_injective (x / 16) (y / 16) (omega (arith, ha.0)) (omega (arith, hb.0)) high in
    let lo = digit_injective (x % 16) (y % 16) (omega arith) (omega arith) low in
    ap₂ ◌∷◌ (omega (arith, hi, lo)) (hex_injective a b ha.1 hb.1 rest)

-- The text without the first colon.
normalize_text :
    (md : List ℕ) → All IsByte md → length md ≤ 63 → normalize 127 (drop 1 (colon_hex md)) ≡ hex md
unfolding normalize colon_hex hex
normalize_text [] h f = refl
normalize_text (x ∷ md) h f =
    let hi = digit_ranges (x / 16) (omega (arith, h.0)) in
    let lo = digit_ranges (x % 16) (omega arith) in
    rw (hi.0, hi.1, lo.0, lo.1, normalize-colon_hex md 125 h.1 (omega arith)) refl

-- A text that is short enough is not cut.
length-colon_hex : (md : List ℕ) → length (colon_hex md) ≡ 3 * length md
unfolding colon_hex
length-colon_hex [] = refl
length-colon_hex (x ∷ md) = omega (arith, length-colon_hex md)

uncut : (md : List ℕ) → length md ≤ 40 → take 119 (drop 1 (colon_hex md)) ≡ drop 1 (colon_hex md)
uncut md f =
    take_all 119 (drop 1 (colon_hex md))
      (omega (arith, length-drop 1 (colon_hex md), length-colon_hex md))

-- A digest is written as a fingerprint into 128 bytes if it has at most 40 bytes, and is held
-- against a fingerprint within 104 bytes if it has at most 51. The fingerprint that is written for a
-- certificate with such a digest is accepted for a certificate exactly if that has the same digest.
pub fingerprint_hex_equal_iff :
    (md md' : List ℕ)
    → All IsByte md
    → All IsByte md'
    → length md ≤ 40
    → length md' ≤ 51
    → (text : List ℕ) × (accepted : Bool) × (fingerprint_text md ≡ some text)
      × (fingerprint_hex_equal text md' ≡ some accepted)
      × ((accepted ≡ true) ↔ (md ≡ md'))
unfolding fingerprint_hex_equal fingerprint_text after_space
fingerprint_hex_equal_iff md md' h h' f f' = (
  b's' ∷ b'h' ∷ b'a' ∷ b'-' ∷ b'2' ∷ b'5' ∷ b'6' ∷ b' ' ∷ text,
  list_eq (normalize 127 text) (hex md'),
  rw (within, uncut md f) refl,
  rw within' refl,
  (
    (λ e. hex_injective md md' h h' (sym written ∙ list_eq-eq (normalize 127 text) (hex md') e)),
    (λ e. rw (written, ← e) (list_eq_refl (hex md))),
  ),
)
  where
    text : List ℕ
    text = drop 1 (colon_hex md)

    within : ltb 41 (length md) ≡ false
    within = ground (arith, f)

    within' : ltb 51 (length md') ≡ false
    within' = ground (arith, f')

    written : normalize 127 text ≡ hex md
    written = normalize_text md h (omega (arith, f))
