-- ===== src/WebRtc/IceLite/Errors.antt =====
-- What `stun_build_error_response` (src/webrtc/ice_lite.c) leaves in its buffer.
use ideal_broccoli.Base.{
  ℕ, ◌≤◌, ◌≡◌, refl, false, some, List, arith, ltb, length, slice, length-take, length-append,
  slice-blit_after, take,
}
use ideal_broccoli.WebRtc.IceLite.{stun_build_error_response, error_bytes, error_attributes}

module _ (tid : List ℕ) (error_code : ℕ) (out : List ℕ) where
  -- If the buffer has 48 bytes at least and the transaction id 12, a message of 48 bytes is built,
  -- and the last four bytes of it are those that the buffer held before.
  pub error_response-leaks :
      length tid ≡ 12
      → 48 ≤ length out
      → (buffer : List ℕ) × (stun_build_error_response tid error_code out ≡ some (buffer, 48))
        × (slice buffer 44 4 ≡ slice out 44 4)
  unfolding stun_build_error_response
  error_response-leaks full room =
      let test : ltb (length out) 44 ≡ false = ground arith in
      rw test (
        _,
        refl,
        slice-blit_after out 0 (error_bytes tid error_code) 44 4 (
            omega (
              arith,
              length-take 12 tid,
              length-append (take 12 tid) (error_attributes error_code),
            )),
      )
