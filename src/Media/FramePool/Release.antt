-- ===== src/Media/FramePool/Release.antt =====
-- What `frame_unref` does to a valid pool.
use native.Mathlib.Decide.{ℕ_discrete}
use ideal_broccoli.Base.{
  ℕ, ◌+◌, ◌-◌, ◌<◌, ◌≡◌, refl, none, arith, ◌==◌, if◌then◌else◌, length, length-set, set,
  get_or-set_self, get_or-set_ne,
}
use ideal_broccoli.Media.FramePool.{Frame, FramePool, cleared, frame_at, unref}
use ideal_broccoli.Media.FramePool.Counting.{used-set, used-pos}
use ideal_broccoli.Media.FramePool.Invariant.{
  IsValid, Changes, refs, free_at, put_frame, put_effect, frame-set, refs-in,
}

-- A frame after one reference less.
abbrev pub released : Frame → Frame
released x =
    if x.refcount == 1
    then record x { refcount = 0; pool_index = none }
    else record x { refcount = x.refcount - 1 }

-- The free list after the last reference to a frame is gone.
abbrev pushed : FramePool → ℕ → FramePool
pushed pool f =
    record (put_frame pool f (record (frame_at pool f) { refcount = 0; pool_index = none })) {
      free_list = set pool.free_list pool.free_count f;
      free_count = pool.free_count + 1;
    }

pushed_effect :
    (pool : FramePool) (f : ℕ)
    → IsValid pool
    → refs pool f ≡ 1
    → (pool.free_count < pool.count)
      × Changes pool
          (pushed pool f)
          f
          (record (frame_at pool f) { refcount = 0; pool_index = none })
pushed_effect pool f v one = (
  room,
  record {
    valid = record {
      frames_len = omega (arith, v.frames_len, length-set pool.frames f x);
      free_len = omega (arith, v.free_len, length-set pool.free_list pool.free_count f);
      bytes_len = v.bytes_len;
      all_counted =
          ground (arith, used-set pool.frames f x (cleared 0 none 0) inside, v.all_counted);
      free_in = λ i h. ground (arith, entry i, v.free_in i, inside, v.frames_len);
      free_unused = λ i h. ground (arith, entry i, at (free_at (pushed pool f) i), v.free_unused i);
      free_once = λ i j h k.
          ground (arith, entry i, entry j, v.free_once i j h, v.free_unused i, v.free_unused j);
      own_index = λ g h. ground (arith, at g, v.own_index g);
      own_bytes = λ g h. ground (arith, at g, v.own_bytes g);
    };
    same_backing = refl;
    same_capacity = refl;
    same_count = refl;
    frame = at;
  },
)
  where
    x : Frame
    x = record (frame_at pool f) { refcount = 0; pool_index = none }

    inside : f < length pool.frames
    inside = refs-in pool.frames f (omega arith)

    room : pool.free_count < pool.count
    room = omega (arith, v.all_counted, used-pos pool.frames f (omega arith))

    at : (g : ℕ) → frame_at (pushed pool f) g ≡ (if f == g then x else frame_at pool g)
    at g = frame-set pool.frames f g x (cleared 0 none 0) inside

    entry :
        (i : ℕ) → free_at (pushed pool f) i ≡ (if pool.free_count == i then f else free_at pool i)
    entry i = elim (ℕ_discrete pool.free_count i) [
      | yes e ↦ ground (
        arith,
        get_or-set_self pool.free_list pool.free_count f 0 (omega (arith, v.free_len, room)),
      )
      | no e ↦ ground (arith, get_or-set_ne pool.free_list pool.free_count i f 0 e)
    ]

-- `frame_unref` on a frame in use takes one reference away; with the last one the frame goes back
-- to the free list, which has room for it. The other frames and all bytes stay as they are.
pub unref_effect :
    (pool : FramePool) (f : ℕ)
    → IsValid pool
    → 0 < refs pool f
    → Changes pool (unref pool f) f (released (frame_at pool f))
unfolding unref
unref_effect pool f v held = elim (ℕ_discrete (refs pool f) 1) [
  | yes one ↦
      let (room, changes) = pushed_effect pool f v one in
      let last : unref pool f ≡ pushed pool f = ground (arith, v.own_index f held, room) in
      let gone : released (frame_at pool f)
          ≡ record (frame_at pool f) { refcount = 0; pool_index = none } =
        ground arith in
      rw (last, gone) changes
  | no more ↦
      let x : Frame = record (frame_at pool f) { refcount = refs pool f - 1 } in
      let (valid, at) = put_effect pool f x v held (omega arith) refl refl in
      let kept : unref pool f ≡ put_frame pool f x = ground arith in
      let less : released (frame_at pool f) ≡ x = ground arith in
      rw (kept, less)
        (record {
          valid = valid;
          same_backing = refl;
          same_capacity = refl;
          same_count = refl;
          frame = at;
        })
]

-- A frame with no reference is left alone, so a second release does no harm.
pub unref_twice : (pool : FramePool) (f : ℕ) → refs pool f ≡ 0 → unref pool f ≡ pool
unfolding unref
unref_twice pool f e = ground arith
