-- ===== src/WebRtc/RtpH264/Tests.antt =====
-- A parameter set and a picture, packetized from an Annex B buffer.
use ideal_broccoli.Base.{ℕ, ◌≡◌, refl, List, [], ◌∷◌, some, arith, replicate, slice}
use ideal_broccoli.WebRtc.RtpH264.{
  RtpH264, RtpPacket, create, packetize, timestamp, with_base, next_nal, find_start, find_end,
  start_code,
}
use ideal_broccoli.WebRtc.RtpH264.Receiver.{Units, receive, payloads, receive-packetize}
use ideal_broccoli.WebRtc.RtpH264.Stream.{Sent, packetize-Sent}

abbrev access_unit : List ℕ
access_unit = 0 ∷ 0 ∷ 0 ∷ 1 ∷ 0x67 ∷ 66 ∷ 0 ∷ 0 ∷ 1 ∷ 0x65 ∷ replicate 1300 7

abbrev parameter_set : List ℕ
parameter_set = slice access_unit 4 2

abbrev picture : List ℕ
picture = slice access_unit 9 1301

units : Units access_unit 0 (parameter_set ∷ picture ∷ [])
unfolding next_nal find_start find_end start_code
units =
    Units.unit {o = 4} {s = 2} refl (omega arith)
      (record {
        nonempty = omega arith;
        clear = omega arith;
        not_fragment = λ e. absurd (omega arith);
      })
      (Units.unit {o = 9} {s = 1301} refl (omega arith)
        (record {
          nonempty = omega arith;
          clear = omega arith;
          not_fragment = λ e. absurd (omega arith);
        })
        (Units.done refl))

receive-packetize_example :
    (out : List RtpPacket × RtpH264) × (packetize create access_unit 40000 ≡ some out)
    × (receive [] (payloads out.0) ≡ parameter_set ∷ picture ∷ [])
receive-packetize_example =
    receive-packetize create access_unit 40000 (parameter_set ∷ picture ∷ []) (omega arith) units

packetize-Sent_example :
    (out : List RtpPacket × RtpH264) × (packetize create access_unit 40000 ≡ some out)
    × Sent create (timestamp (with_base create 40000) 40000) out.0 out.1
packetize-Sent_example = packetize-Sent create access_unit 40000 (omega arith)
