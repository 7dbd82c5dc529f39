-- ===== src/Media/FramePool/Counting.antt =====
-- How many frames are in use.
use ideal_broccoli.Base.{
  ℕ, zero, suc, ◌+◌, ◌≤◌, ◌<◌, ◌≡◌, List, [], ◌∷◌, arith, ltb, if◌then◌else◌, length, get_or, set,
  none,
}
use ideal_broccoli.Media.FramePool.{Frame, cleared}

-- 1 for a frame with a reference.
abbrev pub in_use : Frame → ℕ
in_use f = if ltb 0 f.refcount then 1 else 0

abbrev pub used : List Frame → ℕ
used [] = 0
used (f ∷ fs) = in_use f + used fs

pub used-set :
    (fs : List Frame) (i : ℕ) (f d : Frame)
    → i < length fs
    → used (set fs i f) + in_use (get_or fs i d) ≡ used fs + in_use f
used-set [] i f d h = absurd (omega arith)
used-set (x ∷ fs) zero f d h = omega arith
used-set (x ∷ fs) (suc i) f d h = omega (arith, used-set fs i f d)

pub used-le : (fs : List Frame) → used fs ≤ length fs
used-le [] = omega arith
used-le (f ∷ fs) = ground (arith, used-le fs)

-- A frame in use is counted.
pub used-pos :
    (fs : List Frame) (i : ℕ) → 0 < (get_or fs i (cleared 0 none 0)).refcount → 0 < used fs
used-pos [] i h = absurd (omega arith)
used-pos (x ∷ fs) zero h = ground arith
used-pos (x ∷ fs) (suc i) h = omega (arith, used-pos fs i h)
