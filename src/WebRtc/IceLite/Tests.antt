-- ===== src/WebRtc/IceLite/Tests.antt =====
-- A binding request with a USERNAME, its answer, and an error response.
use ideal_broccoli.Base.{
  ℕ, ◌+◌, ◌%◌, ◌≡◌, ◌↔◌, refl, Bool, true, Option, some, List, [], ◌∷◌, ◌++◌, arith, replicate,
  tabulate, length, slice,
}
use ideal_broccoli.WebRtc.IceLite.{
  Peer, stun_find_attribute, stun_header_size, stun_username_matches, stun_build_binding_response,
  stun_verify_mi, stun_build_error_response, crc32_stun, crc_bytes, crc_bits,
}
use ideal_broccoli.WebRtc.IceLite.Walk.{Found, stun_find_attribute_total}
use ideal_broccoli.WebRtc.IceLite.Username.{Named, username_matches-Named}
use ideal_broccoli.WebRtc.IceLite.Integrity.{IsAddress, verify-build}
use ideal_broccoli.WebRtc.IceLite.Errors.{error_response-leaks}

-- USERNAME "ab:cd" behind another attribute.
abbrev request : List ℕ
request =
    0
    ∷ 1
    ∷ 0
    ∷ 20
    ∷ 0x21
    ∷ 0x12
    ∷ 0xA4
    ∷ 0x42
    ∷ (replicate 12 7
        ++ (0 ∷ 0x24 ∷ 0 ∷ 4 ∷ 1 ∷ 2 ∷ 3 ∷ 4 ∷ 0 ∷ 6 ∷ 0 ∷ 5 ∷ 97 ∷ 98 ∷ 58 ∷ 99 ∷ 100 ∷ 0 ∷ 0 ∷ 0
            ∷ []))

-- A stand-in for the HMAC: 20 bytes that depend on the lengths of the key and the message.
abbrev mix : List ℕ → List ℕ → List ℕ
mix key message = tabulate 20 λ k. (length key + length message + k) % 256

stun_find_attribute_total_example :
    (r : Option (ℕ × ℕ)) × (stun_find_attribute request 0x0006 ≡ some r)
    × Found request 0x0006 (length request) stun_header_size r
stun_find_attribute_total_example = stun_find_attribute_total request 0x0006

username_matches-Named_example :
    (b : Bool) × (stun_username_matches request (99 ∷ 100 ∷ []) ≡ some b)
    × ((b ≡ true) ↔ Named request (99 ∷ 100 ∷ []))
username_matches-Named_example = username_matches-Named request (99 ∷ 100 ∷ []) (omega arith)

verify-build_example :
    (r : List ℕ) × (stun_build_binding_response mix
        (115 ∷ 51 ∷ [])
        request
        (Peer.ipv4 0xC0A80102 40000)
        128
      ≡ some r)
    × (length r ≡ 64)
    × (stun_verify_mi mix r (115 ∷ 51 ∷ []) ≡ some true)
unfolding IsAddress
verify-build_example =
    verify-build mix (115 ∷ 51 ∷ []) request (Peer.ipv4 0xC0A80102 40000) 128 (λ key message. refl)
      (omega arith) (omega arith) (omega arith) tt

error_response-leaks_example :
    (buffer : List ℕ) × (stun_build_error_response (replicate 12 7) 401 (replicate 64 0xAA)
      ≡ some (buffer, 48))
    × (slice buffer 44 4 ≡ slice (replicate 64 0xAA) 44 4)
error_response-leaks_example =
    error_response-leaks (replicate 12 7) 401 (replicate 64 0xAA) refl (omega arith)

-- The check value of CRC-32, of "123456789".
crc32_check : crc32_stun (49 ∷ 50 ∷ 51 ∷ 52 ∷ 53 ∷ 54 ∷ 55 ∷ 56 ∷ 57 ∷ []) ≡ 0xCBF43926
unfolding crc32_stun crc_bytes crc_bits
crc32_check = refl
