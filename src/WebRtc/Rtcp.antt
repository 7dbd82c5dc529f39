-- ===== src/WebRtc/Rtcp.antt =====
-- src/webrtc/rtcp.c: sender reports and the feedback of the viewer. `none` is a read outside the
-- buffer, or a loop that runs out of rounds; Rtcp/Safety shows that neither happens.
pub mod Safety
pub mod Nack
pub mod NackPacket
pub mod Report
mod Tests
use ideal_broccoli.Base.{
  ℕ, zero, suc, ◌+◌, ◌*◌, ◌/◌, ◌%◌, ◌^◌, Bool, true, false, ◌&&◌, ◌||◌, Option, none, some, ◌>>=◌,
  List, [], ◌∷◌, ◌++◌, ltb, leb, ◌==◌, if◌then◌else◌, length, get_elem?,
}
use ideal_broccoli.WebRtc.Wire.{read_be16, read_be32, write_be16, write_be32}

-- `nack_seq` is the part of the array that is filled; its length is `nack_seqs`.
pub record RtcpFeedback : Type 0 where
  pub pli : ℕ
  pub fir : ℕ
  pub bye : Bool
  pub nack_seq : List ℕ
  pub has_rr : Bool
  pub rr_fraction_lost : ℕ
  pub rr_jitter : ℕ
  pub rr_highest_seq : ℕ

abbrev pub max_nack : ℕ
max_nack = 128

abbrev pub no_feedback : RtcpFeedback
no_feedback = record {
  pli = 0;
  fir = 0;
  bye = false;
  nack_seq = [];
  has_rr = false;
  rr_fraction_lost = 0;
  rr_jitter = 0;
  rr_highest_seq = 0;
}

abbrev pub has_room : RtcpFeedback → Bool
has_room fb = ltb (length fb.nack_seq) max_nack

abbrev pub push_nack : RtcpFeedback → ℕ → RtcpFeedback
push_nack fb seq = record fb { nack_seq = fb.nack_seq ++ seq ∷ [] }

-- `mask & (1u << bit)`
abbrev pub is_set : ℕ → ℕ → Bool
is_set mask bit = mask / 2 ^ bit % 2 == 1

-- One round of the loop over the bits.
nack_bit : ℕ → ℕ → ℕ → RtcpFeedback → RtcpFeedback
nack_bit pid mask bit fb = if is_set mask bit then push_nack fb ((pid + bit + 1) % 2 ^ 16) else fb

-- The loop, with the rounds that are left.
nack_bits : ℕ → ℕ → ℕ → ℕ → RtcpFeedback → RtcpFeedback
nack_bits zero pid mask bit fb = fb
nack_bits (suc n) pid mask bit fb = elim (has_room fb) [
  | true ↦ nack_bits n pid mask (bit + 1) (nack_bit pid mask bit fb)
  | false ↦ fb
]

pub nack_entry : ℕ → ℕ → RtcpFeedback → RtcpFeedback
nack_entry pid mask fb = nack_bits 16 pid mask 0 (if has_room fb then push_nack fb pid else fb)

-- The entries of a generic NACK from `i` to `stop`.
nack_loop : ℕ → List ℕ → ℕ → ℕ → RtcpFeedback → Option RtcpFeedback
nack_loop zero buffer i stop fb = none
nack_loop (suc n) buffer i stop fb =
    let rest = do
      pid ← read_be16 buffer i
      mask ← read_be16 buffer (i + 2)
      nack_loop n buffer (i + 4) stop (nack_entry pid mask fb)
    in if leb (i + 4) stop && has_room fb then rest else some fb

-- The first block of a receiver report.
receiver_report : List ℕ → ℕ → RtcpFeedback → Option RtcpFeedback
receiver_report buffer offset fb = do
  fraction ← get_elem? buffer (offset + 12)
  highest ← read_be32 buffer (offset + 16)
  jitter ← read_be32 buffer (offset + 20)
  some (record fb {
    has_rr = true;
    rr_fraction_lost = fraction;
    rr_highest_seq = highest;
    rr_jitter = jitter;
  })

-- The `switch` over the packet type.
parse_packet : List ℕ → ℕ → ℕ → ℕ → ℕ → RtcpFeedback → Option RtcpFeedback
parse_packet buffer offset count_or_fmt packet_type packet_len fb =
    if packet_type == 205
    then if count_or_fmt == 1
      then nack_loop (packet_len + 1) buffer (offset + 12) (offset + packet_len) fb
      else some fb
    else if packet_type == 201
    then if leb 1 count_or_fmt && leb 32 packet_len
      then receiver_report buffer offset fb
      else some fb
    else if packet_type == 203
    then some (record fb { bye = true })
    else if packet_type == 206
    then some (
        if count_or_fmt == 1
        then record fb { pli = fb.pli + 1 }
        else if count_or_fmt == 4
        then record fb { fir = fb.fir + 1 }
        else fb)
    else some fb

-- The packets of a compound from `offset` on.
parse_loop : ℕ → List ℕ → ℕ → RtcpFeedback → Option RtcpFeedback
parse_loop zero buffer offset fb = none
parse_loop (suc n) buffer offset fb =
    let rest = do
      b ← get_elem? buffer offset
      packet_type ← get_elem? buffer (offset + 1)
      words ← read_be16 buffer (offset + 2)
      let packet_len = (words + 1) * 4
      let next = λ (fb' : RtcpFeedback). parse_loop n buffer (offset + packet_len) fb'
      if b / 64 == 2
          then if ltb (length buffer) (offset + packet_len) || packet_len == 0
            then some fb
            else parse_packet buffer offset (b % 32) packet_type packet_len fb >>= next
          else some fb
    in if leb (offset + 4) (length buffer) then rest else some fb

-- `rtcp_parse` over a buffer of `length buffer` bytes.
pub parse : List ℕ → Option RtcpFeedback
unfolding parse_loop
parse buffer = parse_loop (length buffer + 1) buffer 0 no_feedback

-- The bytes that `rtcp_build_sender_report` writes.
unfoldable pub build_sender_report : ℕ → ℕ → ℕ → ℕ → ℕ → List ℕ
build_sender_report ssrc ntp_wall_us rtp_ts packet_count octet_count =
    let ntp_secs = ntp_wall_us / 1000000 + 2208988800 in
    let ntp_frac = ntp_wall_us % 1000000 * 2 ^ 32 / 1000000 % 2 ^ 32 in
    128
    ∷ 200
    ∷ (write_be16 6
        ++ (write_be32 ssrc
            ++ (write_be32 (ntp_secs % 2 ^ 32)
                ++ (write_be32 ntp_frac
                    ++ (write_be32 rtp_ts
                        ++ (write_be32 packet_count ++ write_be32 octet_count))))))
