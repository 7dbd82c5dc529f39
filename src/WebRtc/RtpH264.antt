-- ===== src/WebRtc/RtpH264.antt =====
-- src/webrtc/rtp_h264.c: H.264 access units into RTP packets. The calls of the sink are the list
-- of packets that the functions return; the buffer of the C code is rewritten for each packet, so
-- a packet is its bytes. A buffer and its length are one list. Masked and shifted bytes that C
-- joins by `|` have no bit in common, so they are added.
pub mod Receiver
pub mod Scan
pub mod Stream
mod Tests
use ideal_broccoli.Base.{
  ℕ, zero, suc, ◌+◌, ◌-◌, ◌*◌, ◌/◌, ◌%◌, ◌^◌, Bool, true, false, not, ◌&&◌, Option, none, some,
  List, [], ◌∷◌, ◌++◌, ltb, leb, ◌==◌, if◌then◌else◌, length, get_or, slice,
}
use ideal_broccoli.WebRtc.Wire.{write_be16, write_be32}

pub record RtpH264 : Type 0 where
  pub ssrc : ℕ
  pub payload_type : ℕ
  pub sequence : ℕ
  pub base_pts_us : ℕ
  pub have_base : Bool
  pub last_timestamp : ℕ
  pub packets : ℕ
  pub octets : ℕ

-- What `rtp_h264_create` returns when the allocation succeeds.
unfoldable pub create : RtpH264
create = record {
  ssrc = 0;
  payload_type = 0;
  sequence = 0;
  base_pts_us = 0;
  have_base = false;
  last_timestamp = 0;
  packets = 0;
  octets = 0;
}

unfoldable pub reset : RtpH264 → ℕ → ℕ → RtpH264
reset p ssrc payload_type = record p {
  ssrc = ssrc;
  payload_type = payload_type;
  have_base = false;
  packets = 0;
  octets = 0;
}

-- One call of the sink.
pub record RtpPacket : Type 0 where
  pub bytes : List ℕ
  pub marker : Bool
  pub sequence : ℕ

abbrev pub rtp_header_size : ℕ
rtp_header_size = 12

abbrev pub rtp_max_packet : ℕ
rtp_max_packet = 1200

abbrev pub payload_budget : ℕ
payload_budget = rtp_max_packet - rtp_header_size

-- The length of the start code at `i`, or 0.
unfoldable pub start_code : List ℕ → ℕ → ℕ
start_code bytes i =
    let b = λ (k : ℕ). get_or bytes (i + k) 0 in
    if leb (i + 3) (length bytes) && (b 0 == 0 && (b 1 == 0 && b 2 == 1))
    then 3
    else if leb (i + 4) (length bytes) && (b 0 == 0 && (b 1 == 0 && (b 2 == 0 && b 3 == 1)))
    then 4
    else 0

-- The first loop of `next_nal`: the first start code at or behind `start`, with its length. There
-- are `length - start` rounds at most.
unfoldable pub find_start : ℕ → List ℕ → ℕ → Option (ℕ × ℕ)
find_start zero bytes start = none
find_start (suc n) bytes start =
    let rest = find_start n bytes (start + 1) in
    if leb (start + 3) (length bytes)
    then if start_code bytes start == 0 then rest else some (start, start_code bytes start)
    else none

-- The second loop, and the line behind it: where the next start code or the buffer ends the NAL.
unfoldable pub find_end : ℕ → List ℕ → ℕ → ℕ
find_end zero bytes end = length bytes
find_end (suc n) bytes end =
    let rest = find_end n bytes (end + 1) in
    if leb (end + 3) (length bytes)
    then if start_code bytes end == 0 then rest else end
    else length bytes

-- The offset and the length of the next NAL unit.
unfoldable pub next_nal : List ℕ → ℕ → Option (ℕ × ℕ)
next_nal bytes cursor = elim (find_start (length bytes - cursor) bytes cursor) [
  | none ↦ none
  | some (start, code_len) ↦
      let body = start + code_len in some (body, find_end (length bytes - body) bytes body - body)
]

-- The 12 bytes of the fixed header.
abbrev pub header : RtpH264 → ℕ → Bool → ℕ → List ℕ
header p rtp_ts marker sequence =
    0x80
    ∷ ((if marker then 0x80 else 0) + p.payload_type % 128)
    ∷ (write_be16 sequence ++ (write_be32 rtp_ts ++ write_be32 p.ssrc))

-- A packet with the next sequence number goes to the sink, and the counters rise.
unfoldable pub send : RtpH264 → ℕ → Bool → List ℕ → RtpPacket × RtpH264
send p rtp_ts marker payload =
    let sequence = (p.sequence + 1) % 2 ^ 16 in
    (
      record {
        bytes = header p rtp_ts marker sequence ++ payload;
        marker = marker;
        sequence = sequence;
      },
      record p {
        sequence = sequence;
        packets = (p.packets + 1) % 2 ^ 32;
        octets = (p.octets + length payload) % 2 ^ 32;
      },
    )

abbrev pub chunk : ℕ
chunk = payload_budget - 2

-- How many bytes of a NAL of `size` bytes the fragment at `offset` takes, and whether it is the
-- last one.
abbrev pub fragment_size : ℕ → ℕ → ℕ
fragment_size size offset = if ltb chunk (size - offset) then chunk else size - offset

abbrev pub is_last : ℕ → ℕ → Bool
is_last size offset = not (ltb chunk (size - offset))

-- The payload of a fragment: the two bytes of FU-A and the bytes of the NAL.
pub fragment : List ℕ → ℕ → List ℕ
fragment nal offset =
    (get_or nal 0 0 / 32 % 4 * 32 + 28)
    ∷ ((if offset == 1 then 0x80 else 0)
        + (if is_last (length nal) offset then 0x40 else 0)
        + get_or nal 0 0 % 32)
    ∷ slice nal offset (fragment_size (length nal) offset)

-- The loop over the fragments from `offset` on.
pub send_fragments : ℕ → RtpH264 → ℕ → Bool → List ℕ → ℕ → List RtpPacket × RtpH264
send_fragments zero p rtp_ts has_more nal offset = ([], p)
send_fragments (suc n) p rtp_ts has_more nal offset =
    let (packet, p') =
      send p rtp_ts (is_last (length nal) offset && not has_more) (fragment nal offset) in
    let (rest, p'') =
      send_fragments n p' rtp_ts has_more nal (offset + fragment_size (length nal) offset) in
    if ltb offset (length nal) then (packet ∷ rest, p'') else ([], p)

-- The packets of one NAL unit.
unfoldable pub send_nal : RtpH264 → ℕ → Bool → List ℕ → List RtpPacket × RtpH264
send_nal p rtp_ts has_more nal =
    let (packet, p') = send p rtp_ts (not has_more) nal in
    if leb (length nal) payload_budget
    then (packet ∷ [], p')
    else send_fragments (length nal) p rtp_ts has_more nal 1

-- Is there one more NAL unit behind, and is it not empty?
unfoldable pub has_nal : List ℕ → ℕ → Bool
has_nal bytes after = elim (next_nal bytes after) [
  | none ↦ false
  | some (offset, size) ↦ not (size == 0)
]

-- The loop over the NAL units from `cursor` on.
unfoldable pub send_nals : ℕ → RtpH264 → ℕ → List ℕ → ℕ → List RtpPacket × RtpH264
send_nals zero p rtp_ts bytes cursor = ([], p)
send_nals (suc n) p rtp_ts bytes cursor = elim (next_nal bytes cursor) [
  | none ↦ ([], p)
  | some (offset, size) ↦
      let skipped = send_nals n p rtp_ts bytes offset in
      let after = offset + size in
      let (sent, p') = send_nal p rtp_ts (has_nal bytes after) (slice bytes offset size) in
      let (rest, p'') = send_nals n p' rtp_ts bytes after in
      if size == 0 then skipped else (sent ++ rest, p'')
]

unfoldable pub with_base : RtpH264 → ℕ → RtpH264
with_base p pts_us = if p.have_base then p else record p { base_pts_us = pts_us; have_base = true }

-- The RTP time of a picture: 90 kHz from the first one on.
unfoldable pub timestamp : RtpH264 → ℕ → ℕ
timestamp p pts_us = (pts_us - p.base_pts_us) * 90000 % 2 ^ 64 / 1000000 % 2 ^ 32

-- `none` stands for -1; otherwise the number of packets is the return value.
unfoldable pub packetize : RtpH264 → List ℕ → ℕ → Option (List RtpPacket × RtpH264)
packetize p access_unit pts_us =
    let p' = with_base p pts_us in
    let rtp_ts = timestamp p' pts_us in
    if length access_unit == 0
    then none
    else some (
        send_nals (length access_unit + 1) (record p' { last_timestamp = rtp_ts }) rtp_ts
          access_unit 0)
