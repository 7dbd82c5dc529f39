-- ===== src/Media/FramePool/Acquire.antt =====
-- What `frame_pool_acquire` does to a valid pool.
use ideal_broccoli.Base.{
  ℕ, ◌-◌, ◌*◌, ◌<◌, ◌≡◌, ◌↔◌, refl, none, some, arith, ◌==◌, if◌then◌else◌, length, length-set,
  get_or, set,
}
use ideal_broccoli.Media.FramePool.{Frame, FramePool, cleared, frame_at, acquire}
use ideal_broccoli.Media.FramePool.Counting.{used, used-set}
use ideal_broccoli.Media.FramePool.Invariant.{IsValid, Changes, refs, free_at, put_frame, frame-set}

-- The entry on top of the free list.
abbrev top_free : FramePool → ℕ
top_free pool = free_at pool (pool.free_count - 1)

-- Taking it off keeps the pool valid.
take_effect :
    (pool : FramePool)
    → IsValid pool
    → 0 < pool.free_count
    → let index = top_free pool in
      let x = cleared (index * pool.capacity) (some index) 1 in
      Changes pool (record (put_frame pool index x) { free_count = pool.free_count - 1 }) index x
take_effect pool v some_free = record {
  valid = record {
    frames_len = omega (arith, v.frames_len, length-set pool.frames index x);
    free_len = v.free_len;
    bytes_len = v.bytes_len;
    all_counted = ground (
      arith,
      used-set pool.frames index x (cleared 0 none 0) inside,
      v.all_counted,
      v.free_unused top (omega arith),
    );
    free_in = λ i h. v.free_in i (omega arith);
    free_unused = λ i h.
        ground (arith, at (free_at pool i), v.free_unused i (omega arith), v.free_once i top h);
    free_once = λ i j h k. v.free_once i j h (omega arith);
    own_index = λ g h. ground (arith, at g, v.own_index g);
    own_bytes = λ g h. ground (arith, at g, v.own_bytes g);
  };
  same_backing = refl;
  same_capacity = refl;
  same_count = refl;
  frame = at;
}
  where
    top : ℕ
    top = pool.free_count - 1

    index : ℕ
    index = top_free pool

    x : Frame
    x = cleared (index * pool.capacity) (some index) 1

    inside : index < length pool.frames
    inside = omega (arith, v.frames_len, v.free_in top (omega arith))

    at :
        (g : ℕ)
        → get_or (set pool.frames index x) g (cleared 0 none 0)
          ≡ (if index == g then x else frame_at pool g)
    at g = frame-set pool.frames index g x (cleared 0 none 0) inside

-- `frame_pool_acquire` on a valid pool hands out a frame that nobody refers to, cleared and with
-- one reference, and leaves the other frames and all bytes as they are; it fails exactly if every
-- frame has a reference.
pub acquire_effect :
    (pool pool' : FramePool) (f : ℕ)
    → IsValid pool
    → acquire pool ≡ some (f, pool')
    → (f < pool.count)
      × (refs pool f ≡ 0)
      × Changes pool pool' f (cleared (f * pool.capacity) (some f) 1)
unfolding acquire
acquire_effect pool pool' f v e =
    rw (← taken.0, ← taken.1)
      (v.free_in top below, v.free_unused top below, take_effect pool v (omega (arith, below)))
  where
    top : ℕ
    top = pool.free_count - 1

    below : top < pool.free_count
    below = ground arith

    taken :
        (top_free pool ≡ f)
        × (record (put_frame pool
              (top_free pool)
              (cleared (top_free pool * pool.capacity) (some (top_free pool)) 1)) {
                free_count = pool.free_count - 1;
              }
            ≡ pool')
    taken = (ground arith, ground arith)

pub acquire-none :
    (pool : FramePool) → IsValid pool → (acquire pool ≡ none) ↔ (used pool.frames ≡ pool.count)
unfolding acquire
acquire-none pool v = (λ e. ground (arith, v.all_counted), λ e. ground (arith, v.all_counted))
