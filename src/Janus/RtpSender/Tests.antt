-- ===== src/Janus/RtpSender/Tests.antt =====
-- A ring with one picture, sent to a gateway that refuses the first packet.
use ideal_broccoli.Base.{
  ℕ, zero, suc, ◌≡◌, ◌≤◌, ◌<◌, refl, true, false, Bool, none, some, List, [], ◌∷◌, arith, length,
  get_or,
}
use ideal_broccoli.Media.AuRing.{AuRing, no_meta}
use ideal_broccoli.Media.AuRing.Invariant.{IsValid}
use ideal_broccoli.Media.AuRing.Refine.{contents, length-contents}
use ideal_broccoli.WebRtc.RtpH264
use ideal_broccoli.WebRtc.RtpH264.Stream.{Numbered}
use ideal_broccoli.Janus.RtpSender.{
  JanusRtpSender, Socket, Round, Polled, Thread, create, drain, sender_thread,
}
use ideal_broccoli.Janus.RtpSender.Drain.{fitting, send_units, drain_refines}
use ideal_broccoli.Janus.RtpSender.Units.{Streamed}
use ideal_broccoli.Janus.RtpSender.Stream.{sender_thread-Streamed}

-- Two slots of six bytes.
abbrev ring : AuRing
ring = record {
  backing = 0 ∷ 0 ∷ 1 ∷ 0x65 ∷ 1 ∷ 0 ∷ 0 ∷ 0 ∷ 0 ∷ 0 ∷ 0 ∷ 0 ∷ [];
  meta = record { pts_us = 10; sequence = 0; is_idr = true; size = 5 } ∷ no_meta ∷ [];
  slot_capacity = 6;
  slot_count = 2;
  head = 0;
  tail = 1;
  count = 1;
  dropped = 0;
  sequence = 1;
}

small : (i : ℕ) → (get_or ring.meta i no_meta).size ≤ 6
small zero = omega arith
small (suc zero) = omega arith
small (suc (suc i)) = omega arith

ring-IsValid : IsValid ring
ring-IsValid = record {
  head_in = omega arith;
  tail_at = omega arith;
  count_in = omega arith;
  metas = refl;
  bytes = refl;
  fits = small;
}

abbrev socket : Socket
socket zero = none
socket (suc k) = some 100

abbrev sender : JanusRtpSender
sender = record {
  ssrc = 7;
  payload_type = 96;
  au_capacity = 6;
  packetizer = RtpH264.reset RtpH264.create 7 96;
  running = true;
  send_error_logged = false;
  stats = record {
    access_units = 0;
    packets_sent = 0;
    octets_sent = 0;
    send_errors = 0;
    sr_sent = 0;
    rtcp_received = 0;
    pli_received = 0;
    fir_received = 0;
    last_rtp_send_ms = 0;
  };
  force_idr = false;
  attempted = [];
  reports = [];
}

created : create 5004 5005 5006 7 0 false 6 ≡ some sender
unfolding create
created = refl

enough : length (contents ring) < 2
enough = omega (arith, length-contents ring)

drain_refines_example :
    ((drain 2 socket ring sender).1
      ≡ send_units socket (fitting sender.au_capacity (contents ring)).0 sender)
    × (contents (drain 2 socket ring sender).0 ≡ (fitting sender.au_capacity (contents ring)).1)
    × IsValid (drain 2 socket ring sender).0
drain_refines_example = drain_refines 2 socket ring sender ring-IsValid enough

abbrev thread : Thread
thread = record { sender = sender; ring = ring; next_sr_ms = 0 }

-- A round with feedback, and one that is interrupted.
abbrev rounds : List (Round × (AuRing → AuRing) × Bool)
rounds =
    (
      record {
        polled = Polled.waiting ((0x81 ∷ 206 ∷ 0 ∷ 2 ∷ 0 ∷ 0 ∷ 0 ∷ 1 ∷ 0 ∷ 0 ∷ 0 ∷ 2 ∷ []) ∷ []);
        now = 50;
        wall_us = 0;
        accepted = true;
      },
      (λ r. r),
      false,
    )
    ∷ (
      record { polled = Polled.interrupted; now = 70; wall_us = 0; accepted = true },
      (λ r. r),
      true,
    )
    ∷ []

at_first : Streamed 0 sender
unfolding RtpH264.create RtpH264.reset
at_first = record { numbered = Numbered.stop; counted = refl }

sender_thread-Streamed_example : Streamed 0 (sender_thread socket rounds thread).sender
sender_thread-Streamed_example = sender_thread-Streamed 0 socket rounds thread at_first
