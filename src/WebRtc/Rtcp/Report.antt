-- ===== src/WebRtc/Rtcp/Report.antt =====
-- What a receiver reads in the packet that `rtcp_build_sender_report` writes.
use ideal_broccoli.Base.{ℕ, ◌+◌, ◌-◌, ◌*◌, ◌/◌, ◌%◌, ◌^◌, ◌<◌, ◌≡◌, refl, ap, some, arith, length}
use ideal_broccoli.WebRtc.Wire.{read_be16, read_be32, be32_parts}
use ideal_broccoli.WebRtc.Rtcp.{build_sender_report}

-- The fraction of a second, in units of 2^-32, back in microseconds, rounded up.
abbrev pub micros : ℕ → ℕ
micros fraction = (fraction * 1000000 + 2 ^ 32 - 1) / 2 ^ 32

module _ (ssrc wall rtp_ts packets octets : ℕ) where
  abbrev seconds : ℕ
  seconds = wall / 1000000 + 2208988800

  abbrev fraction : ℕ
  fraction = wall % 1000000 * 2 ^ 32 / 1000000 % 2 ^ 32

  -- A sender report has 28 bytes; behind its header of 8 bytes with the source it holds the wall
  -- clock as an NTP time (its seconds from 1900 modulo 2^32, and a fraction from which the
  -- microseconds are recovered exactly), the RTP time and the two counters.
  pub build_sender_report_fields :
      ssrc < 2 ^ 32
      → rtp_ts < 2 ^ 32
      → packets < 2 ^ 32
      → octets < 2 ^ 32
      → (length (build_sender_report ssrc wall rtp_ts packets octets) ≡ 28)
        × (read_be16 (build_sender_report ssrc wall rtp_ts packets octets) 2 ≡ some 6)
        × (read_be32 (build_sender_report ssrc wall rtp_ts packets octets) 4 ≡ some ssrc)
        × (read_be32 (build_sender_report ssrc wall rtp_ts packets octets) 8
            ≡ some ((wall / 1000000 + 2208988800) % 2 ^ 32))
        × ((ntp : ℕ) × (read_be32 (build_sender_report ssrc wall rtp_ts packets octets) 12
              ≡ some ntp)
            × (micros ntp ≡ wall % 1000000))
        × (read_be32 (build_sender_report ssrc wall rtp_ts packets octets) 16 ≡ some rtp_ts)
        × (read_be32 (build_sender_report ssrc wall rtp_ts packets octets) 20 ≡ some packets)
        × (read_be32 (build_sender_report ssrc wall rtp_ts packets octets) 24 ≡ some octets)
  unfolding build_sender_report read_be16 read_be32
  build_sender_report_fields hs hr hp ho = (
    refl,
    refl,
    ap some (be32_parts ssrc hs),
    ap some (be32_parts (seconds % 2 ^ 32) (omega arith)),
    (fraction, ap some (be32_parts fraction (omega arith)), omega arith),
    ap some (be32_parts rtp_ts hr),
    ap some (be32_parts packets hp),
    ap some (be32_parts octets ho),
  )
