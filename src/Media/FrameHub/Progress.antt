-- ===== src/Media/FrameHub/Progress.antt =====
-- When a picture can be published: the pool has a free frame unless every one is held.
use ideal_broccoli.Base.{
  ℕ, zero, suc, ◌+◌, ◌<◌, ◌≡◌, ◌≢◌, ◌↔◌, none, some, List, [], ◌∷◌, arith, Option-cases, is_some,
  true, inl, inr, length, get_or,
}
use ideal_broccoli.Media.FramePool.{Frame, FramePool, cleared}
use ideal_broccoli.Media.FramePool
use ideal_broccoli.Media.FramePool.Counting.{used, used-le}
use ideal_broccoli.Media.FramePool.Acquire.{acquire-none}
use ideal_broccoli.Media.FrameHub.{Picture, publish, publish_frame}
use ideal_broccoli.Media.FrameHub.Delivery.{holders, publish_effect}
use ideal_broccoli.Media.FrameHub.Ownership.{World, Consistent, times}

-- A frame without a reference is not counted.
used-lt :
    (fs : List Frame) (g : ℕ)
    → g < length fs
    → (get_or fs g (cleared 0 none 0)).refcount ≡ 0
    → used fs < length fs
used-lt [] g h e = absurd (omega arith)
used-lt (f ∷ fs) zero h e = ground (arith, used-le fs)
used-lt (f ∷ fs) (suc g) h e = ground (arith, used-lt fs g (omega arith) e)

-- The pool has a frame when one is held by nobody.
acquires :
    (w : World) (g : ℕ)
    → Consistent w
    → g < w.hub.pool.count
    → holders g w.hub.consumers + times g w.taken ≡ 0
    → FramePool.acquire w.hub.pool ≢ none
acquires w g k inside unheld empty = omega (
  arith,
  (acquire-none w.hub.pool k.valid).0 empty,
  k.valid.frames_len,
  used-lt w.hub.pool.frames g (omega (arith, k.valid.frames_len)) (omega (arith, k.counted g)),
)

-- A picture that is not empty is published exactly if the pool has a frame that nobody holds, no
-- mailbox and no consumer. So consumers that lag stop the producer only once they hold, together,
-- every frame of the pool.
pub publish_succeeds :
    (w : World) (picture : Picture) (bytes : List ℕ)
    → Consistent w
    → picture.bytes ≡ some bytes
    → 0 < picture.size
    → (is_some (publish w.hub picture) ≡ true)
      ↔ ((g : ℕ) × (g < w.hub.pool.count) × (holders g w.hub.consumers + times g w.taken ≡ 0))
unfolding publish publish_frame
publish_succeeds w picture bytes k given pos = (
  (λ e. elim (Option-cases (publish w.hub picture)) [
    | inl failed ↦ ground (arith, e, failed)
    | inr (hub, sent) ↦
        let (f, bytes', given', p, on) =
          publish_effect w.hub hub picture (λ g. times g w.taken) k.valid k.linked k.counted sent in
        (f, p.inside, omega (arith, p.was_free, k.counted f))
  ]),
  (λ (g, inside, unheld). elim (Option-cases (FramePool.acquire w.hub.pool)) [
    | inl empty ↦ absurd (acquires w g k inside unheld empty)
    | inr ((f, pool), e) ↦ ground arith
  ]),
)
