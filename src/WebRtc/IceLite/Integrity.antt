-- ===== src/WebRtc/IceLite/Integrity.antt =====
-- MESSAGE-INTEGRITY in src/webrtc/ice_lite.c: what is built verifies.
use ideal_broccoli.Base.{
  ℕ, suc, ◌≤◌, ◌<◌, ◌≡◌, refl, sym, ap, subst, subst₂, ◌∙◌, true, false, ◌||◌, some, List, [], ◌∷◌,
  ◌++◌, arith, ltb, ◌==◌, length, get_or, take, slice, length-take, length-slice, drop, bit_xor,
  list_eq_refl, take-length, tabulate, tabulate-get_or,
}
use ideal_broccoli.WebRtc.Wire.{read_be16, write_be16, write_be32}
use ideal_broccoli.WebRtc.IceLite.{
  stun_find_attribute, find_loop, stun_build_binding_response, stun_verify_mi, Peer, mapped_address,
  xor_bytes, crc32_stun,
}

-- A response up to MESSAGE-INTEGRITY, and its 64 bytes with FINGERPRINT.
abbrev protected : List ℕ → List ℕ → List ℕ → List ℕ
protected id value mac =
    (0x01 ∷ 0x01 ∷ (write_be16 44 ++ id)) ++ ((0 ∷ 32 ∷ 0 ∷ 8 ∷ value) ++ (0 ∷ 8 ∷ 0 ∷ 20 ∷ mac))

abbrev response : List ℕ → List ℕ → List ℕ → ℕ → List ℕ
response id value mac crc =
    protected id value mac ++ (write_be16 0x8028 ++ (write_be16 4 ++ write_be32 crc))

find_integrity :
    (t m a : ℕ → ℕ) (crc : ℕ)
    → stun_find_attribute (response (tabulate 16 t) (tabulate 8 m) (tabulate 20 a) crc) 0x0008
      ≡ some (some (36, 20))
unfolding stun_find_attribute find_loop read_be16
find_integrity t m a crc = refl

-- A peer whose address has the bytes of its family.
unfoldable pub IsAddress : Peer → Type 0
IsAddress (Peer.ipv4 addr port) = Unit
IsAddress (Peer.ipv6 addr port) = length addr ≡ 16

length-xor_bytes : (xs mask : List ℕ) → length (xor_bytes xs mask) ≡ length xs
unfolding xor_bytes
length-xor_bytes [] mask = refl
length-xor_bytes (x ∷ xs) [] = refl
length-xor_bytes (x ∷ xs) (m ∷ mask) = ap suc (length-xor_bytes xs mask)

abbrev mapped_value : List ℕ → Peer → List ℕ
mapped_value request peer = take 8 (drop 4 (mapped_address request peer))

mapped_parts :
    (request : List ℕ) (peer : Peer)
    → take 12 (mapped_address request peer) ≡ 0 ∷ 32 ∷ 0 ∷ 8 ∷ mapped_value request peer
unfolding mapped_address
mapped_parts request (Peer.ipv4 addr port) = refl
mapped_parts request (Peer.ipv6 addr port) = refl

length-mapped_value :
    (request : List ℕ) (peer : Peer) → IsAddress peer → length (mapped_value request peer) ≡ 8
unfolding mapped_address IsAddress
length-mapped_value request (Peer.ipv4 addr port) h = refl
length-mapped_value request (Peer.ipv6 addr port) h =
    let mask = 0x21 ∷ 0x12 ∷ 0xA4 ∷ 0x42 ∷ slice request 8 12 in
    omega (arith, length-take 4 (xor_bytes addr mask), length-xor_bytes addr mask)

-- The message that the hash is over has the length that ends with MESSAGE-INTEGRITY.
abbrev hashed : List ℕ → List ℕ → List ℕ
hashed id value = (0x01 ∷ 0x01 ∷ (write_be16 36 ++ id)) ++ (0 ∷ 32 ∷ 0 ∷ 8 ∷ value)

module _ (hmac : List ℕ → List ℕ → List ℕ) (password : List ℕ)
    (some_password : 0 < length password) where
  abbrev Verifies : ℕ → List ℕ → List ℕ → List ℕ → Type 0
  Verifies crc mac id value =
      hmac password (hashed id value) ≡ mac
      → (length (response id value mac crc) ≡ 64)
        × (stun_verify_mi hmac (response id value mac crc) password ≡ some true)

  verify-bytes :
      (t m a : ℕ → ℕ) (crc : ℕ) → Verifies crc (tabulate 20 a) (tabulate 16 t) (tabulate 8 m)
  unfolding stun_verify_mi
  verify-bytes t m a crc mac =
      let test : (length password == 0) ≡ false = ground arith in
      (
        refl,
        rw (stun_verify_mi, test, find_integrity t m a crc, mac)
            (ap some (list_eq_refl (tabulate 20 a))),
      )

  verify-response :
      (id value mac : List ℕ) (crc : ℕ)
      → length id ≡ 16
      → length value ≡ 8
      → length mac ≡ 20
      → Verifies crc mac id value
  verify-response id value mac crc hi hv hm =
      subst (λ x. Verifies crc x id value) (tabulate-get_or 20 mac hm)
        (subst₂ (Verifies crc (tabulate 20 λ k. get_or mac k 0)) (tabulate-get_or 16 id hi)
          (tabulate-get_or 8 value hv)
          (verify-bytes (λ k. get_or id k 0) (λ k. get_or value k 0) (λ k. get_or mac k 0) crc))

-- For a password, a request of 20 bytes at least, a capacity of 128 bytes at least and a peer whose
-- address has the bytes of its family, a response of 64 bytes is built, and `stun_verify_mi`
-- accepts it with that password, if the HMAC has 20 bytes.
pub verify-build :
    (hmac : List ℕ → List ℕ → List ℕ) (password request : List ℕ) (peer : Peer) (out_capacity : ℕ)
    → ((key message : List ℕ) → length (hmac key message) ≡ 20)
    → 0 < length password
    → 20 ≤ length request
    → 128 ≤ out_capacity
    → IsAddress peer
    → (r : List ℕ) × (stun_build_binding_response hmac password request peer out_capacity ≡ some r)
      × (length r ≡ 64)
      × (stun_verify_mi hmac r password ≡ some true)
unfolding stun_build_binding_response
verify-build hmac password request peer out_capacity sized pos long room address =
    let test : (ltb (length request) 20 || ltb out_capacity 128) ≡ false = ground arith in
    let id = slice request 4 16 in
    let value = mapped_value request peer in
    let mac = hmac password (hashed id value) in
    let whole : take 20 mac ≡ mac =
      ap (λ n. take n mac) (sym (sized password (hashed id value))) ∙ take-length mac in
    let message = protected id value mac in
    let crc = bit_xor (crc32_stun message) 0x5354554E in
    let verified =
      verify-response hmac password pos id value mac crc (length-slice request 4 16 (omega arith))
        (length-mapped_value request peer address) (sized password (hashed id value)) refl in
    rw (test, mapped_parts request peer, whole)
      (response id value mac crc, refl, verified.0, verified.1)
