-- ===== src/WebRtc/RtpH264/Scan.antt =====
-- Where `next_nal` of src/webrtc/rtp_h264.c finds NAL units.
use ideal_broccoli.Base.{
  ℕ, zero, suc, ◌+◌, ◌-◌, ◌≤◌, ◌<◌, ◌≡◌, ◌⊎◌, inl, inr, some, Option-cases, List, arith, length,
}
use ideal_broccoli.WebRtc.RtpH264.{next_nal, find_start, find_end, start_code}

-- A start code that is found lies in the buffer, and is not empty.
start_code_inside :
    (bytes : List ℕ) (i : ℕ) → start_code bytes i ≡ 0 ⊎ (i + start_code bytes i ≤ length bytes)
unfolding start_code
start_code_inside bytes i = ground arith

find_start_inside :
    (n : ℕ) (bytes : List ℕ) (i st len : ℕ)
    → find_start n bytes i ≡ some (st, len)
    → (i ≤ st) × (0 < len) × (st + len ≤ length bytes)
unfolding find_start
find_start_inside zero bytes i st len h = absurd (ground arith)
find_start_inside (suc n) bytes i st len h =
    ground (arith, start_code_inside bytes i, find_start_inside n bytes (i + 1) st len)

find_end_inside :
    (n : ℕ) (bytes : List ℕ) (e : ℕ)
    → e ≤ length bytes
    → (e ≤ find_end n bytes e) × (find_end n bytes e ≤ length bytes)
unfolding find_end
find_end_inside zero bytes e h = (h, omega arith)
find_end_inside (suc n) bytes e h = ground (arith, find_end_inside n bytes (e + 1))

pub next_nal_inside :
    (bytes : List ℕ) (cursor o s : ℕ)
    → next_nal bytes cursor ≡ some (o, s)
    → (cursor < o) × (o + s ≤ length bytes)
unfolding next_nal
next_nal_inside bytes cursor o s h =
    elim (Option-cases (find_start (length bytes - cursor) bytes cursor)) [
      | inl e ↦ absurd (ground (arith, e))
      | inr ((st, len), e) ↦
          let found = find_start_inside (length bytes - cursor) bytes cursor st len e in
          let body = st + len in
          let end = find_end_inside (length bytes - body) bytes body found.2 in
          ground (arith, e, found.0, found.1, found.2, end.0, end.1)
    ]
