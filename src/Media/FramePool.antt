-- ===== src/Media/FramePool.antt =====
-- src/media/frame_pool.c: the pool of reference-counted frame buffers. A `Frame *` is the index of
-- the frame in `frames`; a counter below zero, which the code never makes, is not modelled.
pub mod Counting
pub mod Invariant
pub mod Acquire
pub mod Release
mod Tests
use ideal_broccoli.Base.{
  ℕ, zero, suc, ◌+◌, ◌-◌, ◌*◌, Bool, false, true, ◌||◌, Option, none, some, List, [], ◌∷◌, leb,
  ◌==◌, if◌then◌else◌, get_or, set, replicate,
}

-- `at` is where `data` points to in the backing store; `pool_index` is `none` for -1.
pub record Frame : Type 0 where
  pub width : ℕ
  pub height : ℕ
  pub format : ℕ
  pub stride : ℕ
  pub size : ℕ
  pub sequence : ℕ
  pub timestamp_us : ℕ
  pub at : ℕ
  pub pool_index : Option ℕ
  pub refcount : ℕ

pub record FramePool : Type 0 where
  pub frames : List Frame
  pub backing : List ℕ
  pub capacity : ℕ
  pub count : ℕ
  pub free_list : List ℕ
  pub free_count : ℕ

-- What `memset` and the three lines behind it leave in a frame.
abbrev pub cleared : ℕ → Option ℕ → ℕ → Frame
cleared at pool_index refcount = record {
  width = 0;
  height = 0;
  format = 0;
  stride = 0;
  size = 0;
  sequence = 0;
  timestamp_us = 0;
  at = at;
  pool_index = pool_index;
  refcount = refcount;
}

-- The loop of `frame_pool_create` over the frames `i` to `i + n`.
unfoldable pub init_frames : ℕ → ℕ → ℕ → List Frame
init_frames capacity i zero = []
init_frames capacity i (suc n) = cleared (i * capacity) (some i) 0 ∷ init_frames capacity (i + 1) n

unfoldable pub init_free : ℕ → ℕ → List ℕ
init_free i zero = []
init_free i (suc n) = i ∷ init_free (i + 1) n

-- The first argument tells whether the four allocations succeed.
unfoldable pub create : Bool → ℕ → ℕ → Option FramePool
unfolding init_frames init_free
create allocated capacity count =
    if capacity == 0 || count == 0
    then none
    else if allocated
    then some (record {
      frames = init_frames capacity 0 count;
      backing = replicate (count * capacity) 0;
      capacity = capacity;
      count = count;
      free_list = init_free 0 count;
      free_count = count;
    })
    else none

abbrev pub frame_at : FramePool → ℕ → Frame
frame_at pool f = get_or pool.frames f (cleared 0 none 0)

unfoldable pub acquire : FramePool → Option (ℕ × FramePool)
acquire pool =
    if pool.free_count == 0
    then none
    else let index = get_or pool.free_list (pool.free_count - 1) 0 in
      some (
        index,
        record pool {
          frames = set pool.frames index (cleared (index * pool.capacity) (some index) 1);
          free_count = pool.free_count - 1;
        },
      )

-- `frame_ref`
unfoldable pub ref : FramePool → ℕ → FramePool
ref pool f = record pool {
  frames =
      set pool.frames f (record (frame_at pool f) { refcount = (frame_at pool f).refcount + 1 });
}

-- The last reference is gone: the buffer goes back to the free list, if there is room in it.
give_back : FramePool → Option ℕ → FramePool
give_back pool none = pool
give_back pool (some index) = if leb pool.count pool.free_count then pool else record pool {
  free_list = set pool.free_list pool.free_count index;
  free_count = pool.free_count + 1;
}

forget_index : Frame → Frame
forget_index frame = record frame {
  pool_index = if frame.refcount == 0 then none else frame.pool_index;
}

-- `frame_unref`. A frame with no reference is left alone.
unfoldable pub unref : FramePool → ℕ → FramePool
unfolding give_back forget_index
unref pool f =
    let frame = frame_at pool f in
    let frame' = record frame { refcount = frame.refcount - 1 } in
    let pool' = record pool { frames = set pool.frames f (forget_index frame') } in
    if frame.refcount == 0
    then pool
    else if frame'.refcount == 0
    then give_back pool' frame.pool_index
    else pool'
