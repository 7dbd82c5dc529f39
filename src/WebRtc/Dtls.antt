-- ===== src/WebRtc/Dtls.antt =====
-- The engine of src/webrtc/dtls_srtp.c as far as it has no callback: the queue of received
-- records, the fingerprint of a certificate and the layout of the exported keys. The functions that
-- call back into the session stand in WebRtc/Session. What OpenSSL and libsrtp answer is an argument.
pub mod Queue
pub mod Fingerprint
mod Tests
use ideal_broccoli.Base.{
  ℕ, zero, suc, ◌+◌, ◌-◌, ◌*◌, ◌/◌, ◌%◌, Bool, true, false, not, ◌&&◌, ◌||◌, Option, none, some,
  List, [], ◌∷◌, ◌++◌, ltb, leb, ◌==◌, if◌then◌else◌, length, get_or, set, replicate, drop, take,
  slice, list_eq,
}

pub data DtlsState : Type 0 where
  init : DtlsState
  handshaking : DtlsState
  connected : DtlsState
  failed : DtlsState
  closed : DtlsState

-- The values of the C enumeration.
abbrev pub state_code : DtlsState → ℕ
state_code DtlsState.init = 0
state_code DtlsState.handshaking = 1
state_code DtlsState.connected = 2
state_code DtlsState.failed = 3
state_code DtlsState.closed = 4

abbrev pub same_state : DtlsState → DtlsState → Bool
same_state a b = state_code a == state_code b

-- A key is what `srtp_create` was given; `none` is a session that libsrtp does not have yet. A
-- record that is freed is the empty list.
pub record DtlsSrtp : Type 0 where
  pub state : DtlsState
  pub rxq : List (List ℕ)
  pub rx_head : ℕ
  pub rx_tail : ℕ
  pub rx_count : ℕ
  pub srtp_out : Option (List ℕ)
  pub srtp_in : Option (List ℕ)
  pub srtp_ready : Bool
  pub expected_fingerprint : List ℕ
  pub handshake_started : Bool
  pub fingerprint_ok : Bool

abbrev pub dtls_rx_queue : ℕ
dtls_rx_queue = 64

-- What `dtls_srtp_session_create` returns, once it has the fingerprint of the offer. The copy is
-- cut to 127 bytes.
unfoldable pub create : List ℕ → DtlsSrtp
create fingerprint = record {
  state = DtlsState.init;
  rxq = replicate dtls_rx_queue [];
  rx_head = 0;
  rx_tail = 0;
  rx_count = 0;
  srtp_out = none;
  srtp_in = none;
  srtp_ready = false;
  expected_fingerprint = take 127 fingerprint;
  handshake_started = false;
  fingerprint_ok = false;
}

-- The oldest record leaves the queue.
pub drop_oldest : DtlsSrtp → DtlsSrtp
drop_oldest d = record d {
  rxq = set d.rxq d.rx_head [];
  rx_head = (d.rx_head + 1) % dtls_rx_queue;
  rx_count = d.rx_count - 1;
}

-- A read of at most `size` bytes; a longer record is lost.
unfoldable pub bio_rx_read : ℕ → DtlsSrtp → Option (List ℕ) × DtlsSrtp
unfolding drop_oldest
bio_rx_read size d =
    let packet = get_or d.rxq d.rx_head [] in
    if d.rx_count == 0
    then (none, d)
    else if ltb size (length packet)
    then (none, drop_oldest d)
    else (some packet, drop_oldest d)

abbrev pub make_room : DtlsSrtp → DtlsSrtp
make_room d = if leb dtls_rx_queue d.rx_count then drop_oldest d else d

-- The queue's part of `dtls_srtp_on_udp`; the first argument tells whether the copy is allocated.
unfoldable pub enqueue : Bool → List ℕ → DtlsSrtp → DtlsSrtp
unfolding drop_oldest
enqueue allocated packet d =
    let d' = make_room d in
    if allocated
    then record d' {
      rxq = set d'.rxq d'.rx_tail packet;
      rx_tail = (d'.rx_tail + 1) % dtls_rx_queue;
      rx_count = d'.rx_count + 1;
    }
    else d'

-- `%02X`.
abbrev pub hex_digit : ℕ → ℕ
hex_digit d = if ltb d 10 then b'0' + d else b'A' + d - 10

pub hex : List ℕ → List ℕ
hex [] = []
hex (byte ∷ bytes) = hex_digit (byte / 16) ∷ hex_digit (byte % 16) ∷ hex bytes

-- The loop that writes the local fingerprint, from its second byte on.
colon_hex : List ℕ → List ℕ
colon_hex [] = []
colon_hex (byte ∷ bytes) = b':' ∷ hex_digit (byte / 16) ∷ hex_digit (byte % 16) ∷ colon_hex bytes

-- What is written into the 128 bytes of `g_fingerprint`. A digest of 32 bytes takes 103 of them; the
-- text of 41 bytes is cut, and `none` is that of more, which is written past the end.
pub fingerprint_text : List ℕ → Option (List ℕ)
unfolding colon_hex
fingerprint_text md =
    let text : List ℕ =
      b's' ∷ b'h' ∷ b'a' ∷ b'-' ∷ b'2' ∷ b'5' ∷ b'6' ∷ b' ' ∷ drop 1 (colon_hex md) in
    if ltb 41 (length md) then none else some (take 127 text)

-- What stands behind the first space, if there is one.
after_space : List ℕ → Option (List ℕ)
after_space [] = none
after_space (c ∷ cs) = if c == b' ' then some cs else after_space cs

abbrev fold_case : ℕ → ℕ
fold_case c = if leb b'a' c && leb c b'f' then c - 32 else c

-- The loop into `normalized`, with the bytes that are left in it.
normalize : ℕ → List ℕ → List ℕ
normalize zero cs = []
normalize (suc room) [] = []
normalize (suc room) (c ∷ cs) =
    let kept = fold_case c ∷ normalize room cs in
    let skipped = normalize (suc room) cs in if c == b':' then skipped else kept

-- `actual` has room for the text of 51 bytes; `none` is a longer digest, whose text is written past
-- its end.
pub fingerprint_hex_equal : List ℕ → List ℕ → Option Bool
unfolding hex after_space normalize
fingerprint_hex_equal sdp_value md =
    let start : List ℕ = elim (after_space sdp_value) [ none ↦ sdp_value | some rest ↦ rest ] in
    if ltb 51 (length md) then none else some (list_eq (normalize 127 start) (hex md))

-- What OpenSSL and libsrtp answer to `derive_srtp_keys`: the exported material, whether the two
-- sessions are created, and the digest of the peer's certificate, if it has one.
pub record Derivation : Type 0 where
  pub material : Option (List ℕ)
  pub out_created : Bool
  pub in_created : Bool
  pub peer_digest : Option (List ℕ)

-- RFC 5764: the two write keys, then the two salts.
abbrev pub client_key : List ℕ → List ℕ
client_key material = slice material 0 16 ++ slice material 32 14

abbrev pub server_key : List ℕ → List ℕ
server_key material = slice material 16 16 ++ slice material 46 14

-- The test of the certificate against the fingerprint of the offer, if there is one. The digest is
-- that of SHA-256, of 32 bytes; what a longer one than the buffer does is not followed, and it
-- counts as another digest.
unfoldable pub is_expected : List ℕ → Option (List ℕ) → Bool
is_expected fingerprint none = length fingerprint == 0
is_expected fingerprint (some md) =
    let same : Bool = elim (fingerprint_hex_equal fingerprint md) [ none ↦ false | some b ↦ b ] in
    length fingerprint == 0 || same

-- The flag tells whether 0 is returned.
unfoldable pub derive_srtp_keys : Derivation → DtlsSrtp → DtlsSrtp × Bool
derive_srtp_keys answer d = elim answer.material [
  | none ↦ (d, false)
  | some material ↦
      let d' = record d { srtp_out = some (server_key material) } in
      let d'' = record d' { srtp_in = some (client_key material) } in
      if not answer.out_created
      then (d, false)
      else if not answer.in_created
      then (d', false)
      else if not (is_expected d.expected_fingerprint answer.peer_digest)
      then (d'', false)
      else (record d'' { fingerprint_ok = true; srtp_ready = true }, true)
]
