-- ===== src/WebRtc/RtpH264/Receiver.antt =====
-- What a receiver rebuilds (RFC 6184, 5.6 and 5.8) from the packets of an access unit.
use ideal_broccoli.Base.{
  ℕ, zero, suc, ◌+◌, ◌*◌, ◌/◌, ◌%◌, ◌≤◌, ◌<◌, ◌≡◌, ◌≢◌, refl, sym, ap, ap₂, ◌∙◌, Bool, true, false,
  not, ◌&&◌, List, [], ◌∷◌, ◌++◌, arith, ltb, leb, ◌==◌, if◌then◌else◌, Bool-cases, inl, inr,
  length, take, drop, get_or, slice, some, none, take-nil, take-length,
}
use mathlib.Core.List.{map, map-append}
use ideal_broccoli.WebRtc.RtpH264.Scan.{next_nal_inside}
use ideal_broccoli.WebRtc.RtpH264.{
  RtpH264, RtpPacket, payload_budget, next_nal, has_nal, send, fragment_size, is_last, fragment,
  send_fragments, send_nal, send_nals, packetize, with_base, timestamp,
}

-- The receiver's state is the NAL unit that it puts together from fragments; a payload extends it,
-- and ends it or is a NAL unit by itself.
abbrev pub begins : List ℕ → Bool
begins payload = leb 128 (get_or payload 1 0)

abbrev pub ends : List ℕ → Bool
ends payload = get_or payload 1 0 / 64 % 2 == 1

abbrev pub is_fragment : List ℕ → Bool
is_fragment payload = get_or payload 0 0 % 32 == 28

-- The NAL unit with a fragment at its end.
abbrev pub extend : List ℕ → List ℕ → List ℕ
extend open' payload =
    if begins payload
    then (get_or payload 0 0 / 32 * 32 + get_or payload 1 0 % 32) ∷ drop 2 payload
    else open' ++ drop 2 payload

pub receive : List ℕ → List (List ℕ) → List (List ℕ)
receive open' [] = []
receive open' (payload ∷ rest) =
    if is_fragment payload
    then if ends payload
      then extend open' payload ∷ receive [] rest
      else receive (extend open' payload) rest
    else payload ∷ receive open' rest

abbrev pub payloads : List RtpPacket → List (List ℕ)
payloads = map λ p. drop 12 p.bytes

-- A NAL unit of H.264 proper: not empty, the forbidden bit clear, and not of the type of FU-A.
pub record IsUnit (nal : List ℕ) : Type 0 where
  pub nonempty : 0 < length nal
  pub clear : get_or nal 0 0 < 128
  pub not_fragment : get_or nal 0 0 % 32 ≢ 28

take-slice : (xs : List ℕ) (o n : ℕ) → take o xs ++ slice xs o n ≡ take (o + n) xs
take-slice xs zero n = ap (λ k. take k xs) (omega arith)
take-slice [] (suc o) n = take-nil ℕ n ∙ sym (take-nil ℕ (suc o + n))
take-slice (x ∷ xs) (suc o) n = ap (◌∷◌ x) (take-slice xs o n) ∙ ap (λ k. take k (x ∷ xs)) (shift o)
  where
    shift : (a : ℕ) → suc (a + n) ≡ suc a + n
    shift a = omega arith

head-take : (xs : List ℕ) (n : ℕ) → 0 < length xs → take (1 + n) xs ≡ get_or xs 0 0 ∷ slice xs 1 n
head-take [] n h = absurd (omega arith)
head-take (x ∷ xs) n h = ap (λ k. take k (x ∷ xs)) (shift n)
  where
    shift : (a : ℕ) → 1 + a ≡ suc a
    shift a = omega arith

module _ (nal : List ℕ) (offset : ℕ) where
  is_fragment-fragment : is_fragment (fragment nal offset) ≡ true
  unfolding fragment
  is_fragment-fragment = ground arith

  ends-fragment : ends (fragment nal offset) ≡ is_last (length nal) offset
  unfolding fragment
  ends-fragment = elim (Bool-cases (is_last (length nal) offset)) [
    | inl e ↦ rw e (ground arith)
    | inr e ↦ rw e (ground arith)
  ]

  begins-fragment : begins (fragment nal offset) ≡ (offset == 1)
  unfolding fragment
  begins-fragment = elim (Bool-cases (is_last (length nal) offset)) [
    | inl e ↦ rw e (ground arith)
    | inr e ↦ rw e (ground arith)
  ]

  first-fragment :
      get_or nal 0 0 < 128
      → get_or (fragment nal offset) 0 0 / 32 * 32 + get_or (fragment nal offset) 1 0 % 32
        ≡ get_or nal 0 0
  unfolding fragment
  first-fragment clear = elim (Bool-cases (is_last (length nal) offset)) [
    | inl e ↦ rw e (ground arith)
    | inr e ↦ rw e (ground arith)
  ]

  drop-fragment :
      drop 2 (fragment nal offset) ≡ slice nal offset (fragment_size (length nal) offset)
  unfolding fragment
  drop-fragment = refl

  -- The NAL up to the end of the fragment.
  extend-fragment :
      (open' : List ℕ)
      → IsUnit nal
      → 0 < offset
      → (offset ≢ 1 → open' ≡ take offset nal)
      → extend open' (fragment nal offset) ≡ take (offset + fragment_size (length nal) offset) nal
  extend-fragment open' u pos ready = elim (Bool-cases (offset == 1)) [
    | inl e ↦
        rw (begins-fragment, e)
          (ap₂ ◌∷◌ (first-fragment u.clear) drop-fragment ∙ sym (head_at offset (ground arith)))
    | inr e ↦
        rw (begins-fragment, e)
          (ap₂ ◌++◌ (ready (λ one. ground arith)) drop-fragment ∙ take-slice nal offset size)
  ]
    where
      size : ℕ
      size = fragment_size (length nal) offset

      head_at : (o : ℕ) → o ≡ 1 → take (o + size) nal ≡ get_or nal 0 0 ∷ slice nal o size
      head_at o one = rw one (head-take nal size u.nonempty)

  -- One fragment, received in order, makes the open unit the NAL up to the end of the fragment.
  receive-fragment :
      (open' : List ℕ) (rest : List (List ℕ))
      → IsUnit nal
      → 0 < offset
      → (offset ≢ 1 → open' ≡ take offset nal)
      → let whole = take (offset + fragment_size (length nal) offset) nal in
        receive open' (fragment nal offset ∷ rest)
        ≡ (if is_last (length nal) offset then whole ∷ receive [] rest else receive whole rest)
  unfolding receive
  receive-fragment open' rest u pos ready =
      rw (is_fragment-fragment, ends-fragment, extend-fragment open' u pos ready) refl

payload-send :
    (p : RtpH264) (ts : ℕ) (marker : Bool) (payload : List ℕ)
    → drop 12 (send p ts marker payload).0.bytes ≡ payload
unfolding send
payload-send p ts marker payload = refl

-- Nothing is sent at the end of the NAL.
send_fragments-end :
    (n : ℕ) (p : RtpH264) (ts : ℕ) (more : Bool) (nal : List ℕ) (offset : ℕ)
    → length nal ≤ offset
    → (send_fragments n p ts more nal offset).0 ≡ []
unfolding send_fragments
send_fragments-end zero p ts more nal offset h = refl
send_fragments-end (suc n) p ts more nal offset h = elim (Bool-cases (ltb offset (length nal))) [
  | inl e ↦ absurd (ground arith)
  | inr e ↦ rw e refl
]

-- The fragments from `offset` on complete the NAL.
receive-send_fragments :
    (n : ℕ) (p : RtpH264) (ts : ℕ) (more : Bool) (nal open' : List ℕ) (offset : ℕ)
    (rest : List (List ℕ))
    → IsUnit nal
    → 0 < offset
    → (offset ≢ 1 → open' ≡ take offset nal)
    → offset < length nal
    → length nal < offset + n
    → receive open' (payloads (send_fragments n p ts more nal offset).0 ++ rest)
      ≡ nal ∷ receive [] rest
unfolding send_fragments
receive-send_fragments zero p ts more nal open' offset rest u pos ready inside f =
    absurd (omega arith)
receive-send_fragments (suc n) p ts more nal open' offset rest u pos ready inside f =
    let test : ltb offset (length nal) ≡ true = ground arith in
    let again = λ (e : last ≡ false).
      receive-send_fragments n p' ts more nal (take next nal) next rest u (ground arith)
        (λ one. refl) (ground arith) (ground arith) in
    rw test (
      rw (payload-send p ts (last && not more) (fragment nal offset))
        (receive-fragment nal offset open' (later ++ rest) u pos ready ∙ finish again last refl))
  where
    last : Bool
    last = is_last (length nal) offset

    p' : RtpH264
    p' = (send p ts (last && not more) (fragment nal offset)).1

    next : ℕ
    next = offset + fragment_size (length nal) offset

    later : List (List ℕ)
    later = payloads (send_fragments n p' ts more nal next).0

    over : last ≡ true → next ≡ length nal
    over e = ground arith

    nothing : last ≡ true → later ≡ []
    nothing e = ap payloads (send_fragments-end n p' ts more nal next (omega (arith, over e)))

    all : last ≡ true → take next nal ≡ nal
    all e = ap (λ k. take k nal) (over e) ∙ take-length nal

    finish :
        (last ≡ false → receive (take next nal) (later ++ rest) ≡ nal ∷ receive [] rest)
        → (b : Bool) → last ≡ b
        → (if b
            then take next nal ∷ receive [] (later ++ rest)
            else receive (take next nal) (later ++ rest))
          ≡ nal ∷ receive [] rest
    finish again true e = ap₂ ◌∷◌ (all e) (ap (λ l. receive [] (l ++ rest)) (nothing e))
    finish again false e = again e

-- The packets of one NAL unit, whole or in fragments, give it back.
receive-send_nal :
    (p : RtpH264) (ts : ℕ) (more : Bool) (nal : List ℕ) (rest : List (List ℕ))
    → IsUnit nal
    → receive [] (payloads (send_nal p ts more nal).0 ++ rest) ≡ nal ∷ receive [] rest
unfolding send_nal receive
receive-send_nal p ts more nal rest u = elim (Bool-cases (leb (length nal) payload_budget)) [
  | inl e ↦ rw (e, payload-send p ts (not more) nal, whole) refl
  | inr e ↦ rw e (
      receive-send_fragments (length nal) p ts more nal [] 1 rest u (omega arith)
        (λ one. absurd (one refl)) (ground arith) (omega arith))
]
  where
    whole : is_fragment nal ≡ false
    whole = ground (arith, u.not_fragment)

-- The NAL units that a buffer holds from a cursor on, in order, the empty ones left out.
pub data Units (bytes : List ℕ) : ℕ → List (List ℕ) → Type 0 where
  done : {c : ℕ} → next_nal bytes c ≡ none → Units bytes c []
  empty :
      {c o : ℕ} {nals : List (List ℕ)}
      → next_nal bytes c ≡ some (o, 0)
      → Units bytes o nals
      → Units bytes c nals
  unit :
      {c o s : ℕ} {nals : List (List ℕ)}
      → next_nal bytes c ≡ some (o, s)
      → 0 < s
      → IsUnit (slice bytes o s)
      → Units bytes (o + s) nals
      → Units bytes c (slice bytes o s ∷ nals)

receive-send_nals :
    (n : ℕ) (p : RtpH264) (ts : ℕ) (bytes : List ℕ) (c : ℕ) (nals : List (List ℕ))
    → Units bytes c nals
    → c ≤ length bytes
    → length bytes < c + n
    → receive [] (payloads (send_nals n p ts bytes c).0) ≡ nals
unfolding send_nals receive
receive-send_nals zero p ts bytes c nals u i f = absurd (omega arith)
receive-send_nals (suc n) p ts bytes c nals (done e) i f = rw (send_nals, e) refl
receive-send_nals (suc n) p ts bytes c nals (empty {o = o} e u) i f =
    let inside = next_nal_inside bytes c o 0 e in
    rw (send_nals, e) (receive-send_nals n p ts bytes o nals u (omega arith) (omega arith))
receive-send_nals (suc n) p ts bytes c nals (unit {o = o} {s = s} {nals = rest} e pos ok u) i f =
    let inside = next_nal_inside bytes c o s e in
    let test : (s == 0) ≡ false = ground arith in
    let (sent, p') = send_nal p ts (has_nal bytes (o + s)) (slice bytes o s) in
    let later = (send_nals n p' ts bytes (o + s)).0 in
    rw (send_nals, e, test)
      (ap (receive []) (map-append (λ k. drop 12 k.bytes) sent later)
        ∙ receive-send_nal p ts (has_nal bytes (o + s)) (slice bytes o s) (payloads later) ok
        ∙ ap (◌∷◌ (slice bytes o s))
            (receive-send_nals n p' ts bytes (o + s) rest u (omega arith) (omega arith)))

-- A buffer with bytes is packetized, and a receiver that gets the packets in order rebuilds the
-- nonempty NAL units that `next_nal` finds in the buffer, if all of them are H.264 NAL units.
pub receive-packetize :
    (p : RtpH264) (access_unit : List ℕ) (pts_us : ℕ) (nals : List (List ℕ))
    → 0 < length access_unit
    → Units access_unit 0 nals
    → (out : List RtpPacket × RtpH264) × (packetize p access_unit pts_us ≡ some out)
      × (receive [] (payloads out.0) ≡ nals)
unfolding packetize
receive-packetize p access_unit pts_us nals pos u =
    let p' = with_base p pts_us in
    let ts = timestamp p' pts_us in
    let test : (length access_unit == 0) ≡ false = ground arith in
    rw test (
      _,
      refl,
      receive-send_nals (length access_unit + 1) (record p' { last_timestamp = ts }) ts access_unit
          0 nals u (omega arith) (omega arith),
    )
