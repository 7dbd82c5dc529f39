-- ===== src/WebRtc/Rtcp/Tests.antt =====
-- Runs of the feedback parser, and the theorems at concrete packets.
use ideal_broccoli.Base.{ℕ, ◌≤◌, ◌≡◌, refl, true, some, List, [], ◌∷◌, arith, length}
use ideal_broccoli.WebRtc.Wire.{read_be16, read_be32}
use ideal_broccoli.WebRtc.Rtcp.{
  RtcpFeedback, max_nack, no_feedback, parse, parse_packet, build_sender_report,
}
use ideal_broccoli.WebRtc.Rtcp.Safety.{parse_total}
use ideal_broccoli.WebRtc.Rtcp.Nack.{nack_packet}
use ideal_broccoli.WebRtc.Rtcp.NackPacket.{parse-nack_packet}
use ideal_broccoli.WebRtc.Rtcp.Report.{build_sender_report_fields, micros}

-- A picture loss indication, then a BYE.
abbrev compound : List ℕ
compound =
    0x81 ∷ 206 ∷ 0 ∷ 2 ∷ 0 ∷ 0 ∷ 0 ∷ 1 ∷ 0 ∷ 0 ∷ 0 ∷ 2 ∷ 0x81 ∷ 203 ∷ 0 ∷ 1 ∷ 0 ∷ 0 ∷ 0 ∷ 1 ∷ []

compound_runs : parse compound ≡ some (record no_feedback { pli = 1; bye = true })
unfolding parse parse_packet read_be16
compound_runs = refl

parse_total_example :
    (fb : RtcpFeedback) × (parse compound ≡ some fb) × (length fb.nack_seq ≤ max_nack)
parse_total_example = parse_total compound

-- Packet 65535 and the second one behind it, round the end of the numbers.
parse-nack_packet_example :
    parse (nack_packet 1 2 ((65535, 2) ∷ []))
    ≡ some (record no_feedback { nack_seq = 65535 ∷ 1 ∷ [] })
parse-nack_packet_example = parse-nack_packet 1 2 ((65535, 2) ∷ []) (omega arith) (omega arith)

build_sender_report_fields_example :
    (length (build_sender_report 7 1500000 90 3 4000) ≡ 28)
    × (read_be16 (build_sender_report 7 1500000 90 3 4000) 2 ≡ some 6)
    × (read_be32 (build_sender_report 7 1500000 90 3 4000) 4 ≡ some 7)
    × (read_be32 (build_sender_report 7 1500000 90 3 4000) 8 ≡ some 2208988801)
    × ((ntp : ℕ) × (read_be32 (build_sender_report 7 1500000 90 3 4000) 12 ≡ some ntp)
        × (micros ntp ≡ 500000))
    × (read_be32 (build_sender_report 7 1500000 90 3 4000) 16 ≡ some 90)
    × (read_be32 (build_sender_report 7 1500000 90 3 4000) 20 ≡ some 3)
    × (read_be32 (build_sender_report 7 1500000 90 3 4000) 24 ≡ some 4000)
build_sender_report_fields_example =
    build_sender_report_fields 7 1500000 90 3 4000 (omega arith) (omega arith) (omega arith)
      (omega arith)
