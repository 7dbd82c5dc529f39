-- ===== src/Media/EncoderWorker.antt =====
-- The loop of src/media/encoder_worker.c: a frame from the mailbox, converted, encoded and pushed
-- into the ring. What the code prints is left out, its guards against printing twice are not. The
-- encoder is the function behind `encoder->encode`.
pub mod Accounting
mod Tests
use ideal_broccoli.Base.{
  ℕ, ◌+◌, ◌-◌, ◌*◌, ◌/◌, ◌%◌, ◌^◌, Bool, true, false, not, ◌&&◌, ◌||◌, Option, none, some, List, [],
  ◌∷◌, leb, ◌==◌, if◌then◌else◌, length, drop,
}
use ideal_broccoli.Media.AuRing.{AuRing, push}
use ideal_broccoli.Media.FramePool
use ideal_broccoli.Media.FramePool.{Frame, frame_at}
use ideal_broccoli.Media.FrameHub.{FrameHub, take_frame}
use ideal_broccoli.Media.Yuv.{yuyv_to_i420, i420_copy}

pub record EncoderWorker : Type 0 where
  pub width : ℕ
  pub height : ℕ
  pub i420 : List ℕ
  pub frames_in : ℕ
  pub frames_encoded : ℕ
  pub skipped_idle : ℕ
  pub skipped_mismatch : ℕ
  pub skipped_bad_size : ℕ
  pub no_output : ℕ

-- The variables of the thread.
pub record Locals : Type 0 where
  pub was_active : Bool
  pub stall_warned : Bool
  pub mismatch_logged : Bool
  pub bad_size_logged : Bool
  pub last_encode_at_seen : ℕ

abbrev pub no_locals : Locals
no_locals = record {
  was_active = false;
  stall_warned = false;
  mismatch_logged = false;
  bad_size_logged = false;
  last_encode_at_seen = 0;
}

-- The thread's state, and the hub, the ring and the flag that it shares with others.
pub record Encoding : Type 0 where
  pub worker : EncoderWorker
  pub locals : Locals
  pub hub : FrameHub
  pub ring : AuRing
  pub force_idr : Bool

-- What the encoder returns: an error (a result below 0), nothing yet (0), or an access unit.
pub data Encoded : Type 0 where
  failed : Encoded
  nothing : Encoded
  unit : List ℕ → Bool → Encoded

abbrev pub stall_watchdog_frames : ℕ
stall_watchdog_frames = 90

abbrev pub v4l2_pix_fmt_yuyv : ℕ
v4l2_pix_fmt_yuyv = 0x56595559

abbrev pub bump : ℕ → ℕ
bump n = (n + 1) % 2 ^ 64

-- A stride of 0 stands for that of a packed row.
abbrev stride_or : ℕ → ℕ → ℕ
stride_or stride default = if stride == 0 then default else stride

-- The scratch buffer with the frame's picture.
pub convert : EncoderWorker → Frame → List ℕ → List ℕ
convert worker frame data' =
    let plane_u = worker.width * worker.height in
    let plane_v = plane_u + worker.width * worker.height / 4 in
    let y_stride = stride_or frame.stride frame.width in
    let src_u = y_stride * frame.height in
    let src_v = src_u + y_stride / 2 * (frame.height / 2) in
    if frame.format == v4l2_pix_fmt_yuyv
    then yuyv_to_i420 data' (stride_or frame.stride (frame.width * 2)) worker.i420 0 plane_u plane_v
        worker.width worker.height
    else i420_copy data' y_stride (drop src_u data') (drop src_v data') worker.i420 0 plane_u
        plane_v worker.width worker.height

-- `frame_unref(frame_hub_pool(worker->hub), frame)`.
pub release : ℕ → Encoding → Encoding
release f s = record s { hub = record s.hub { pool = FramePool.unref s.hub.pool f } }

-- The counter of the frames, and the watchdog that a new viewer arms again.
pub arrive : Bool → Encoding → Encoding
arrive active s =
    let frames_in = bump s.worker.frames_in in
    let rearmed =
      if active && not s.locals.was_active
      then record s.locals { stall_warned = false; last_encode_at_seen = frames_in }
      else s.locals in
    record s {
      worker = record s.worker { frames_in = frames_in };
      locals = record rearmed { was_active = active };
    }

-- The report of the watchdog; the difference of the 64-bit counters wraps.
pub watch : Encoding → Encoding
watch s =
    let since = (s.worker.frames_in + 2 ^ 64 - s.locals.last_encode_at_seen) % 2 ^ 64 in
    if not s.locals.stall_warned && leb stall_watchdog_frames since
    then record s { locals = record s.locals { stall_warned = true } }
    else s

-- The three ways to drop a frame.
pub skip_idle : Encoding → Encoding
skip_idle s = record s { worker = record s.worker { skipped_idle = bump s.worker.skipped_idle } }

pub skip_mismatch : Encoding → Encoding
skip_mismatch s = record s {
  worker = record s.worker { skipped_mismatch = bump s.worker.skipped_mismatch };
  locals = record s.locals { mismatch_logged = true };
}

pub skip_bad_size : Encoding → Encoding
skip_bad_size s = record s {
  worker = record s.worker { skipped_bad_size = bump s.worker.skipped_bad_size };
  locals = record s.locals { bad_size_logged = true };
}

pub skip_no_output : Encoding → Encoding
skip_no_output s = record s { worker = record s.worker { no_output = bump s.worker.no_output } }

-- An access unit is counted and pushed; a keyframe satisfies the requests that are pending.
pub publish_unit : ℕ → List ℕ → Bool → Encoding → Encoding
publish_unit pts_us bytes is_idr s = record s {
  worker = record s.worker { frames_encoded = bump s.worker.frames_encoded };
  locals = record s.locals { last_encode_at_seen = s.worker.frames_in; stall_warned = false };
  force_idr = s.force_idr && not is_idr;
  ring = elim (push s.ring (some bytes) (length bytes) pts_us is_idr) [
    | none ↦ s.ring
    | some ring ↦ ring
  ];
}

-- One round of the loop: whether a viewer is there, whether another thread asks for a keyframe
-- while the encoder runs, and the encoder.
pub record Event : Type 0 where
  pub active : Bool
  pub requested : Bool
  pub encode : List ℕ → ℕ → Bool → Encoded

-- What follows the call of the encoder; the flag tells whether the loop goes on.
pub finish : ℕ → Encoded → Encoding → Encoding × Bool
finish pts_us Encoded.failed s = (s, false)
finish pts_us Encoded.nothing s = (skip_no_output s, true)
finish pts_us (Encoded.unit bytes is_idr) s = (publish_unit pts_us bytes is_idr s, true)

pub encode_frame : Event → ℕ → Encoding → Encoding × Bool
encode_frame event f s =
    let frame = frame_at s.hub.pool f in
    let i420 = convert s.worker frame (drop frame.at s.hub.pool.backing) in
    let result = event.encode i420 frame.timestamp_us s.force_idr in
    finish frame.timestamp_us result (
      release f
        (record s { worker = record s.worker { i420 = i420 }; force_idr = event.requested }))

-- The body of the loop for the frame `f`.
pub handle : Event → ℕ → Encoding → Encoding × Bool
handle event f s =
    let frame = frame_at s.hub.pool f in
    let s' = arrive event.active s in
    let worker = s'.worker in
    if not event.active
    then (release f (skip_idle s'), true)
    else if not (frame.width == worker.width) || not (frame.height == worker.height)
    then (release f (skip_mismatch (watch s')), true)
    else if frame.size == 0
    then (release f (skip_bad_size (watch s')), true)
    else encode_frame event f (watch s')

-- The test of `frame_hub_take`: without a frame the loop sleeps and goes on.
pub serve : Event → Option ℕ → Encoding → Encoding × Bool
serve event none s = (s, true)
serve event (some f) s = handle event f s

-- One round for the consumer `id`.
pub round : ℕ → Event → Encoding → Encoding × Bool
round id event s =
    let (taken, hub) = take_frame s.hub id in serve event taken (record s { hub = hub })

-- A round, with what the other threads have made of the shared objects before it.
pub record Turn : Type 0 where
  pub event : Event
  pub hub : FrameHub
  pub ring : AuRing
  pub force_idr : Bool

-- The loop, as long as it is told to run and the encoder does not fail.
pub run : ℕ → List Turn → Encoding → Encoding × Bool
run id [] s = (s, true)
run id (turn ∷ turns) s =
    let (s', on) =
      round id turn.event
        (record s { hub = turn.hub; ring = turn.ring; force_idr = turn.force_idr }) in
    let after = run id turns s' in if on then after else (s', false)
