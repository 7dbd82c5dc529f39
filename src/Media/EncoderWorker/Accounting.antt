-- ===== src/Media/EncoderWorker/Accounting.antt =====
-- The loop of src/media/encoder_worker.c accounts for every frame and gives it back.
use ideal_broccoli.Base.{
  ℕ, ◌+◌, ◌-◌, ◌%◌, ◌^◌, ◌≡◌, refl, sym, ap, ◌∙◌, subst, Bool, true, false, not, ◌&&◌, ◌||◌,
  Bool-cases, inl, inr, Option, none, some, Option-cases, List, [], ◌∷◌, arith, leb, ◌==◌,
  if◌then◌else◌,
}
use ideal_broccoli.Media.FramePool
use ideal_broccoli.Media.FramePool.{frame_at}
use ideal_broccoli.Media.FrameHub.{FrameHub, take_frame}
use ideal_broccoli.Media.FrameHub.Ownership.{Step, Consistent, Step-Consistent, empty_mailbox}
use ideal_broccoli.Media.EncoderWorker.{
  EncoderWorker, Encoding, Encoded, Event, arrive, watch, release, skip_idle, skip_mismatch,
  skip_bad_size, skip_no_output, publish_unit, finish, encode_frame, handle, serve, round, run,
  Turn, stall_watchdog_frames,
}

-- The frames with a known end, and how many were taken and have none.
abbrev pub outcomes : EncoderWorker → ℕ
outcomes w =
    w.frames_encoded + w.skipped_idle + w.skipped_mismatch + w.skipped_bad_size + w.no_output

abbrev pub Balanced : ℕ → EncoderWorker → Type 0
Balanced open' w = w.frames_in % 2 ^ 64 ≡ (outcomes w + open') % 2 ^ 64

watch_worker : (s : Encoding) → (watch s).worker ≡ s.worker
unfolding watch
watch_worker s =
    let since = (s.worker.frames_in + 2 ^ 64 - s.locals.last_encode_at_seen) % 2 ^ 64 in
    elim (Bool-cases (not s.locals.stall_warned && leb stall_watchdog_frames since)) [
      | inl e ↦ rw e refl
      | inr e ↦ rw e refl
    ]

watch_hub : (s : Encoding) → (watch s).hub ≡ s.hub
unfolding watch
watch_hub s =
    let since = (s.worker.frames_in + 2 ^ 64 - s.locals.last_encode_at_seen) % 2 ^ 64 in
    elim (Bool-cases (not s.locals.stall_warned && leb stall_watchdog_frames since)) [
      | inl e ↦ rw e refl
      | inr e ↦ rw e refl
    ]

-- What is open after a round: the frame on which the encoder failed.
abbrev pub left_open : Bool → ℕ
left_open on = if on then 0 else 1

finish-Balanced :
    (pts : ℕ) (r : Encoded) (s : Encoding)
    → Balanced 1 s.worker
    → Balanced (left_open (finish pts r s).1) (finish pts r s).0.worker
unfolding finish skip_no_output publish_unit
finish-Balanced pts Encoded.failed s h = h
finish-Balanced pts Encoded.nothing s h = omega arith
finish-Balanced pts (Encoded.unit bytes is_idr) s h = omega arith

if-elim {ℓ κ} :
    {A : Type ℓ} (P : A → Type κ) (b : Bool) {x y : A} → P x → P y → P (if b then x else y)
if-elim P true hx hy = hx
if-elim P false hx hy = hy

-- The four ways of a frame.
handle-elim {κ} :
    (P : Encoding × Bool → Type κ) (event : Event) (f : ℕ) (s : Encoding)
    → let s' = arrive event.active s in
      P (release f (skip_idle s'), true)
      → P (release f (skip_mismatch (watch s')), true)
      → P (release f (skip_bad_size (watch s')), true)
      → P (encode_frame event f (watch s'))
      → P (handle event f s)
unfolding handle
handle-elim P event f s idle mismatch bad_size encoded =
    let frame = frame_at s.hub.pool f in
    let worker = (arrive event.active s).worker in
    if-elim P (not event.active) idle (
      if-elim P (not (frame.width == worker.width) || not (frame.height == worker.height)) mismatch
        (if-elim P (frame.size == 0) bad_size encoded))

arrive-Balanced :
    (active : Bool) (s : Encoding) → Balanced 0 s.worker → Balanced 1 (arrive active s).worker
unfolding arrive
arrive-Balanced active s h = omega arith

skips-Balanced :
    (s : Encoding)
    → Balanced 1 s.worker
    → Balanced 0 (skip_idle s).worker
      × Balanced 0 (skip_mismatch s).worker
      × Balanced 0 (skip_bad_size s).worker
unfolding skip_idle skip_mismatch skip_bad_size
skips-Balanced s h = (omega arith, omega arith, omega arith)

encode_frame-Balanced :
    (event : Event) (f : ℕ) (s : Encoding)
    → Balanced 1 s.worker
    → Balanced (left_open (encode_frame event f s).1) (encode_frame event f s).0.worker
unfolding encode_frame release
encode_frame-Balanced event f s h = finish-Balanced _ _ _ h

-- The frame is counted when it comes, and its outcome when it is done.
handle-Balanced :
    (event : Event) (f : ℕ) (s : Encoding)
    → Balanced 0 s.worker
    → Balanced (left_open (handle event f s).1) (handle event f s).0.worker
unfolding release
handle-Balanced event f s h =
    let arrived = arrive-Balanced event.active s h in
    let watched = subst (Balanced 1) (sym (watch_worker (arrive event.active s))) arrived in
    let skips = skips-Balanced (watch (arrive event.active s)) watched in
    handle-elim (λ r. Balanced (left_open r.1) r.0.worker) event f s
      (skips-Balanced (arrive event.active s) arrived).0 skips.1 skips.2
      (encode_frame-Balanced event f (watch (arrive event.active s)) watched)

-- The hub with the frame given back.
abbrev without : ℕ → FrameHub → FrameHub
without f hub = record hub { pool = FramePool.unref hub.pool f }

finish_hub : (pts : ℕ) (r : Encoded) (s : Encoding) → (finish pts r s).0.hub ≡ s.hub
unfolding finish skip_no_output publish_unit
finish_hub pts Encoded.failed s = refl
finish_hub pts Encoded.nothing s = refl
finish_hub pts (Encoded.unit bytes is_idr) s = refl

encode_frame_hub :
    (event : Event) (f : ℕ) (s : Encoding) → (encode_frame event f s).0.hub ≡ without f s.hub
unfolding encode_frame release
encode_frame_hub event f s = finish_hub _ _ _

skip_hub :
    (f : ℕ) (s : Encoding)
    → ((release f (skip_idle s)).hub ≡ without f s.hub)
      × ((release f (skip_mismatch s)).hub ≡ without f s.hub)
      × ((release f (skip_bad_size s)).hub ≡ without f s.hub)
      × ((active : Bool) → (arrive active s).hub ≡ s.hub)
unfolding skip_idle skip_mismatch skip_bad_size release arrive
skip_hub f s = (refl, refl, refl, (λ active. refl))

-- Whatever comes of the frame, it is given back once.
handle_hub : (event : Event) (f : ℕ) (s : Encoding) → (handle event f s).0.hub ≡ without f s.hub
handle_hub event f s =
    let s' = arrive event.active s in
    let arrived : s'.hub ≡ s.hub = (skip_hub f s).3 event.active in
    let back : without f s'.hub ≡ without f s.hub = ap (without f) arrived in
    let watched : without f (watch s').hub ≡ without f s.hub =
      ap (without f) (watch_hub s' ∙ arrived) in
    let skips = skip_hub f (watch s') in
    handle-elim (λ r. r.0.hub ≡ without f s.hub) event f s ((skip_hub f s').0 ∙ back)
      (skips.1 ∙ watched) (skips.2 ∙ watched) (encode_frame_hub event f (watch s') ∙ watched)

serve-Balanced :
    (event : Event) (taken : Option ℕ) (s : Encoding)
    → Balanced 0 s.worker
    → Balanced (left_open (serve event taken s).1) (serve event taken s).0.worker
unfolding serve
serve-Balanced event none s h = h
serve-Balanced event (some f) s h = handle-Balanced event f s h

module _ (id : ℕ) where
  round-Balanced :
      (event : Event) (s : Encoding)
      → Balanced 0 s.worker
      → Balanced (left_open (round id event s).1) (round id event s).0.worker
  unfolding round
  round-Balanced event s h =
      serve-Balanced event (take_frame s.hub id).0 (record s { hub = (take_frame s.hub id).1 }) h

  -- If the counters are balanced at first, then however the loop runs, and whatever other threads
  -- do to the hub, the ring and the keyframe flag between its rounds, the frames taken from the
  -- mailbox are, modulo 2 ^ 64, those encoded, those dropped for one of the three reasons, and those
  -- that gave no output, and one more exactly if the encoder failed on it and the loop ended.
  pub run-Balanced :
      (turns : List Turn) (s : Encoding)
      → Balanced 0 s.worker
      → Balanced (left_open (run id turns s).1) (run id turns s).0.worker
  unfolding run
  run-Balanced [] s h = h
  run-Balanced (turn ∷ turns) s h =
      let start = record s { hub = turn.hub; ring = turn.ring; force_idr = turn.force_idr } in
      let (s', on) = round id turn.event start in
      go s' on (round-Balanced turn.event start h) (run-Balanced turns s')
    where
      go :
          (s' : Encoding) (on : Bool)
          → Balanced (left_open on) s'.worker
          → (Balanced 0 s'.worker
              → Balanced (left_open (run id turns s').1) (run id turns s').0.worker)
          → Balanced
              (left_open (if on then run id turns s' else (s', false)).1)
              (if on then run id turns s' else (s', false)).0.worker
      go s' true b again = again b
      go s' false b again = b

  -- If the hub and the frames that consumers hold are consistent before a round, they are so after
  -- it with the same frames held: the round gives back the frame that it takes, on every path.
  pub round-Consistent :
      (event : Event) (s : Encoding) (taken : List ℕ)
      → Consistent (record { hub = s.hub; taken = taken })
      → Consistent (record { hub = (round id event s).0.hub; taken = taken })
  unfolding round serve
  round-Consistent event s taken k = elim (Option-cases (take_frame s.hub id).0) [
    | inl e ↦ rw (round, e, empty_mailbox id s.hub e) k
    | inr (f, e) ↦
        let held = Step-Consistent (Step.takes id f e) k in
        rw (round, e, handle_hub event f (record s { hub = (take_frame s.hub id).1 }))
          (Step-Consistent (Step.releases [] taken f refl) held)
  ]
