-- ===== src/WebRtc/IceLite.antt =====
-- src/webrtc/ice_lite.c: the class of a datagram, the walk over the attributes of a STUN message,
-- the checks of a binding request and the two responses. A buffer and its length are one list, a C
-- string is the list of its bytes, and `none` at the outside is a read outside the buffer, or a
-- walk that runs out of rounds. The HMAC of the crypto library is the parameter `hmac`, of the key
-- and the message; a failure of it is a result that is not 20 bytes long.
pub mod Walk
pub mod Integrity
pub mod Username
pub mod Errors
mod Tests
use ideal_broccoli.Base.{
  ℕ, zero, suc, ◌+◌, ◌-◌, ◌*◌, ◌/◌, ◌%◌, ◌^◌, Bool, true, false, not, ◌&&◌, ◌||◌, Option, none,
  some, ◌>>=◌, List, [], ◌∷◌, ◌++◌, ltb, leb, ◌==◌, if◌then◌else◌, length, get_or, take, drop,
  slice, blit, replicate, list_eq, bit_and, bit_xor,
}
use ideal_broccoli.WebRtc.Wire.{read_be16, read_be32, write_be16, write_be32}

pub data RtcPacketClass : Type 0 where
  stun : RtcPacketClass
  dtls : RtcPacketClass
  rtp : RtcPacketClass
  other : RtcPacketClass

pub rtc_classify_packet : List ℕ → RtcPacketClass
rtc_classify_packet buf =
    let first = get_or buf 0 0 in
    if ltb (length buf) 1
    then RtcPacketClass.other
    else if leb first 3
    then RtcPacketClass.stun
    else if leb 20 first && leb first 63
    then RtcPacketClass.dtls
    else if leb 128 first
    then RtcPacketClass.rtp
    else RtcPacketClass.other

abbrev pub stun_magic_cookie : ℕ
stun_magic_cookie = 0x2112A442

abbrev pub stun_header_size : ℕ
stun_header_size = 20

-- An entry of the table of `init_crc32_table`: the rounds over the bits.
crc_bits : ℕ → ℕ → ℕ
crc_bits zero crc = crc
crc_bits (suc n) crc =
    crc_bits n (if bit_and crc 1 == 1 then bit_xor (crc / 2) 0xEDB88320 else crc / 2)

abbrev crc32_table : ℕ → ℕ
crc32_table i = crc_bits 8 i

crc_bytes : List ℕ → ℕ → ℕ
crc_bytes [] crc = crc
crc_bytes (byte ∷ data') crc =
    crc_bytes data' (bit_xor (crc32_table (bit_and (bit_xor crc byte) 0xFF)) (crc / 256))

pub crc32_stun : List ℕ → ℕ
crc32_stun data' = bit_xor (crc_bytes data' 0xFFFFFFFF) 0xFFFFFFFF

-- The bytes that an attribute with `n` bytes of value takes behind its header.
abbrev pub padded : ℕ → ℕ
padded n = (n + 3) / 4 * 4

-- The loop of `stun_find_attribute`. The result is where the value lies, and its length.
pub find_loop : ℕ → List ℕ → ℕ → ℕ → ℕ → Option (Option (ℕ × ℕ))
find_loop zero buf wanted end offset = none
find_loop (suc n) buf wanted end offset = elim (leb (offset + 4) end) [
  | false ↦ some none
  | true ↦ do
    type ← read_be16 buf offset
    attr_len ← read_be16 buf (offset + 2)
    elim (ltb end (offset + 4 + attr_len)) [
      | true ↦ some none
      | false ↦ elim (type == wanted) [
        | true ↦ some (some (offset + 4, attr_len))
        | false ↦ find_loop n buf wanted end (offset + (4 + padded attr_len))
      ]
    ]
]

-- A round moves on by four bytes at least.
pub stun_find_attribute : List ℕ → ℕ → Option (Option (ℕ × ℕ))
stun_find_attribute buf wanted = elim (ltb (length buf) stun_header_size) [
  | true ↦ some none
  | false ↦ do
    message_len ← read_be16 buf 2
    elim (ltb (length buf) (message_len + stun_header_size)) [
      | true ↦ some none
      | false ↦
          find_loop (message_len + 1) buf wanted (stun_header_size + message_len) stun_header_size
    ]
]

-- The transaction id, if the datagram is a binding request.
pub stun_is_binding_request : List ℕ → Option (Option (List ℕ))
stun_is_binding_request buf = elim (ltb (length buf) stun_header_size) [
  | true ↦ some none
  | false ↦ do
    type ← read_be16 buf 0
    message_len ← read_be16 buf 2
    cookie ← read_be32 buf 4
    some (
        if not (type == 0x0001)
        then none
        else if not (cookie == stun_magic_cookie)
        then none
        else if ltb (length buf) (message_len + stun_header_size)
        then none
        else some (slice buf 8 12))
]

-- The string that is copied to `out`; the inner `none` is -1.
pub stun_copy_username : List ℕ → ℕ → Option (Option (List ℕ))
stun_copy_username buf out_size = elim (out_size == 0) [
  | true ↦ some none
  | false ↦ do
    found ← stun_find_attribute buf 0x0006
    some (elim found [
      | none ↦ none
      | some (offset, username_len) ↦
          some (slice buf offset (if leb out_size username_len then out_size - 1 else username_len))
    ])
]

-- `memchr`.
pub find_byte : ℕ → List ℕ → Option ℕ
find_byte c [] = none
find_byte c (x ∷ xs) = if x == c then some 0 else do i ← find_byte c xs; some (i + 1)

-- The two tests on the value of USERNAME; 58 is the colon.
pub username_has : List ℕ → List ℕ → Bool
username_has username local_ufrag =
    let ufrag_len = length local_ufrag in
    if ltb ufrag_len (length username)
      && (get_or username ufrag_len 0 == 58 && list_eq (take ufrag_len username) local_ufrag)
    then true
    else elim (find_byte 58 username) [
      | none ↦ false
      | some colon ↦
          let second_len = length username - (colon + 1) in
          second_len == ufrag_len && list_eq (slice username (colon + 1) second_len) local_ufrag
    ]

pub stun_username_matches : List ℕ → List ℕ → Option Bool
stun_username_matches buf local_ufrag = elim (length local_ufrag == 0) [
  | true ↦ some false
  | false ↦ do
    found ← stun_find_attribute buf 0x0006
    some (elim found [
      | none ↦ false
      | some (offset, username_len) ↦ username_has (slice buf offset username_len) local_ufrag
    ])
]

-- The peer's address as the socket layer reports it.
pub data Peer : Type 0 where
  ipv4 : ℕ → ℕ → Peer
  ipv6 : List ℕ → ℕ → Peer

-- `xs` with the bytes of `mask` in it.
xor_bytes : List ℕ → List ℕ → List ℕ
xor_bytes [] mask = []
xor_bytes (x ∷ xs) [] = x ∷ xs
xor_bytes (x ∷ xs) (m ∷ mask) = bit_xor x m ∷ xor_bytes xs mask

-- XOR-MAPPED-ADDRESS, with all bytes that are written.
pub mapped_address : List ℕ → Peer → List ℕ
mapped_address request (Peer.ipv4 addr port) =
    write_be16 0x0020
    ++ (write_be16 8
        ++ (0
            ∷ 0x01
            ∷ (write_be16 (bit_xor port 0x2112) ++ write_be32 (bit_xor addr stun_magic_cookie))))
mapped_address request (Peer.ipv6 addr port) =
    write_be16 0x0020
    ++ (write_be16 8
        ++ (0
            ∷ 0x02
            ∷ (write_be16 (bit_xor port 0x2112)
                ++ xor_bytes addr (0x21 ∷ 0x12 ∷ 0xA4 ∷ 0x42 ∷ slice request 8 12))))

-- The header of a success response whose attributes take `payload` bytes.
abbrev response_header : List ℕ → ℕ → List ℕ
response_header request payload = 0x01 ∷ 0x01 ∷ (write_be16 payload ++ slice request 4 16)

module _ (hmac : List ℕ → List ℕ → List ℕ) where
  -- The `*out_len` bytes of `out`. Of XOR-MAPPED-ADDRESS only the first 12 bytes stay: the next
  -- attribute is written over the rest.
  pub stun_build_binding_response : List ℕ → List ℕ → Peer → ℕ → Option (List ℕ)
  stun_build_binding_response local_pwd request peer out_capacity =
      let mapped = take 12 (mapped_address request peer) in
      let mac = hmac local_pwd (response_header request (12 + 24) ++ mapped) in
      let integrity = write_be16 0x0008 ++ (write_be16 20 ++ take 20 mac) in
      let message = response_header request (36 + 8) ++ (mapped ++ integrity) in
      let crc = bit_xor (crc32_stun message) 0x5354554E in
      if ltb (length request) stun_header_size || ltb out_capacity 128
      then none
      else some (message ++ (write_be16 0x8028 ++ (write_be16 4 ++ write_be32 crc)))

  pub stun_verify_mi : List ℕ → List ℕ → Option Bool
  stun_verify_mi buf password =
      elim (length password == 0 || ltb (length buf) (stun_header_size + 24)) [
        | true ↦ some false
        | false ↦ do
          found ← stun_find_attribute buf 0x0008
          some (elim found [
            | none ↦ false
            | some (mi, mi_len) ↦
                let mi_header = mi - 4 in
                let scratch =
                  blit (take mi_header buf) 2 (write_be16 (mi_header + 24 - stun_header_size)) in
                let mac = hmac password scratch in
                if not (mi_len == 20)
                then false
                else if ltb mi_header stun_header_size || ltb (length buf) (mi_header + 24)
                then false
                else length mac == 20 && list_eq mac (slice buf mi 20)
          ])
      ]

-- The bytes of "camstream".
abbrev software : List ℕ
software = 99 ∷ 97 ∷ 109 ∷ 115 ∷ 116 ∷ 114 ∷ 101 ∷ 97 ∷ 109 ∷ []

-- SOFTWARE and ERROR-CODE, as far as they are written.
abbrev error_attributes : ℕ → List ℕ
error_attributes error_code =
    write_be16 0x8022
    ++ (write_be16 9
        ++ (software
            ++ (replicate 3 0
                ++ (write_be16 0x0009
                    ++ (write_be16 8
                        ++ (0 ∷ error_code / 100 % 256 ∷ write_be16 (error_code % 100)))))))

-- The 44 bytes that are written, of a message of 48.
abbrev error_bytes : List ℕ → ℕ → List ℕ
error_bytes tid error_code =
    (0x01 ∷ 0x11 ∷ (write_be16 28 ++ write_be32 stun_magic_cookie))
    ++ (take 12 tid ++ error_attributes error_code)

-- The buffer `out`, whose capacity is its length, and `*out_len`.
pub stun_build_error_response : List ℕ → ℕ → List ℕ → Option (List ℕ × ℕ)
stun_build_error_response tid error_code out =
    if ltb (length out) 44
    then none
    else some (blit out 0 (error_bytes tid error_code), stun_header_size + 28)
