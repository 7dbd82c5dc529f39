-- ===== src/Media/EncoderWorker/Tests.antt =====
-- The encode loop at concrete frames.
use ideal_broccoli.Base.{true, false, [], ◌∷◌, List, arith}
use ideal_broccoli.Media.AuRing.{AuRing, no_meta}
use ideal_broccoli.Media.FrameHub.Ownership.{Consistent}
use ideal_broccoli.Media.FrameHub.Tests.{sent, sent-Consistent}
use ideal_broccoli.Media.EncoderWorker.{Encoding, Encoded, Event, Turn, no_locals, round, run}
use ideal_broccoli.Media.EncoderWorker.Accounting.{
  Balanced, left_open, round-Consistent, run-Balanced,
}

abbrev ring : AuRing
ring = record {
  backing = 0 ∷ 0 ∷ 0 ∷ [];
  meta = no_meta ∷ [];
  slot_capacity = 3;
  slot_count = 1;
  head = 0;
  tail = 0;
  count = 0;
  dropped = 0;
  sequence = 0;
}

abbrev start : Encoding
start = record {
  worker = record {
    width = 1;
    height = 1;
    i420 = 0 ∷ [];
    frames_in = 0;
    frames_encoded = 0;
    skipped_idle = 0;
    skipped_mismatch = 0;
    skipped_bad_size = 0;
    no_output = 0;
  };
  locals = no_locals;
  hub = sent;
  ring = ring;
  force_idr = true;
}

-- A viewer is there, and the encoder makes a keyframe of the picture.
abbrev watched : Event
watched = record {
  active = true;
  requested = false;
  encode = λ i420 pts_us force_idr. Encoded.unit i420 force_idr;
}

-- The encoder fails.
abbrev broken : Event
broken = record watched { encode = λ i420 pts_us force_idr. Encoded.failed }

abbrev turn : Event → Turn
turn event = record { event = event; hub = sent; ring = ring; force_idr = false }

abbrev turns : List Turn
turns = turn watched ∷ turn (record watched { active = false }) ∷ turn broken ∷ turn watched ∷ []

round-Consistent_example : Consistent (record { hub = (round 7 watched start).0.hub; taken = [] })
round-Consistent_example = round-Consistent 7 watched start [] sent-Consistent

run-Balanced_example : Balanced (left_open (run 7 turns start).1) (run 7 turns start).0.worker
run-Balanced_example = run-Balanced 7 turns start (omega arith)
