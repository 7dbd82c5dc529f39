-- ===== src/Media/FramePool/Invariant.antt =====
-- The invariant of `struct FramePool`, and what each call does to the reference counters.
use native.Mathlib.Decide.{ℕ_discrete}
use ideal_broccoli.Base.{
  ℕ, zero, suc, ◌+◌, ◌*◌, ◌<◌, ◌≡◌, ◌≢◌, refl, none, some, List, arith, ◌==◌, true, replicate,
  length-replicate, if◌then◌else◌, length, length-set, get_or, set, get_or-set_self, get_or-set_ne,
}
use ideal_broccoli.Media.FramePool.{
  Frame, FramePool, cleared, frame_at, create, init_frames, init_free, ref,
}
use ideal_broccoli.Media.FramePool.Counting.{used, used-set}

-- The reference counter of a frame.
abbrev pub refs : FramePool → ℕ → ℕ
refs pool f = (frame_at pool f).refcount

-- The entry `i` of the free list.
abbrev pub free_at : FramePool → ℕ → ℕ
free_at pool i = get_or pool.free_list i 0

pub record IsValid (pool : FramePool) : Type 0 where
  pub frames_len : length pool.frames ≡ pool.count
  pub free_len : length pool.free_list ≡ pool.count
  pub bytes_len : length pool.backing ≡ pool.count * pool.capacity
  pub all_counted : used pool.frames + pool.free_count ≡ pool.count
  pub free_in : (i : ℕ) → i < pool.free_count → free_at pool i < pool.count
  pub free_unused : (i : ℕ) → i < pool.free_count → refs pool (free_at pool i) ≡ 0
  pub free_once : (i j : ℕ) → i < j → j < pool.free_count → free_at pool i ≢ free_at pool j
  pub own_index : (f : ℕ) → 0 < refs pool f → (frame_at pool f).pool_index ≡ some f
  pub own_bytes : (f : ℕ) → 0 < refs pool f → (frame_at pool f).at ≡ f * pool.capacity

-- An index in use is an index of the array.
pub refs-in :
    (fs : List Frame) (f : ℕ) → 0 < (get_or fs f (cleared 0 none 0)).refcount → f < length fs
refs-in List.[] f h = absurd (omega arith)
refs-in (List.◌∷◌ x fs) zero h = omega arith
refs-in (List.◌∷◌ x fs) (suc f) h = omega (arith, refs-in fs f h)

-- A frame's entry after a write to one frame.
pub frame-set :
    (fs : List Frame) (i j : ℕ) (x d : Frame)
    → i < length fs
    → get_or (set fs i x) j d ≡ (if i == j then x else get_or fs j d)
frame-set fs i j x d h = elim (ℕ_discrete i j) [
  | yes e ↦ ground (arith, get_or-set_self fs i x d)
  | no e ↦ ground (arith, get_or-set_ne fs i j x d e)
]

-- Writing to a frame in use, its place and its index kept, keeps the pool valid.
abbrev pub put_frame : FramePool → ℕ → Frame → FramePool
put_frame pool f x = record pool { frames = set pool.frames f x }

pub put_effect :
    (pool : FramePool) (f : ℕ) (x : Frame)
    → IsValid pool
    → 0 < refs pool f
    → 0 < x.refcount
    → x.pool_index ≡ (frame_at pool f).pool_index
    → x.at ≡ (frame_at pool f).at
    → IsValid (put_frame pool f x)
      × ((g : ℕ) → frame_at (put_frame pool f x) g ≡ (if f == g then x else frame_at pool g))
put_effect pool f x v held kept index place = (
  record {
    frames_len = omega (arith, v.frames_len, length-set pool.frames f x);
    free_len = v.free_len;
    bytes_len = v.bytes_len;
    all_counted = ground (arith, used-set pool.frames f x (cleared 0 none 0) inside, v.all_counted);
    free_in = v.free_in;
    free_unused = λ i h. ground (arith, at (free_at pool i), v.free_unused i h);
    free_once = v.free_once;
    own_index = λ g h. ground (arith, at g, v.own_index g, v.own_index f);
    own_bytes = λ g h. ground (arith, at g, v.own_bytes g, v.own_bytes f);
  },
  at,
)
  where
    inside : f < length pool.frames
    inside = refs-in pool.frames f held

    at : (g : ℕ) → frame_at (put_frame pool f x) g ≡ (if f == g then x else frame_at pool g)
    at g = frame-set pool.frames f g x (cleared 0 none 0) inside

-- What a call does to the pool: frame `f` is now `x`, the others are what they were, and so are
-- the bytes.
pub record Changes (pool pool' : FramePool) (f : ℕ) (x : Frame) : Type 0 where
  pub valid : IsValid pool'
  pub same_backing : pool'.backing ≡ pool.backing
  pub same_capacity : pool'.capacity ≡ pool.capacity
  pub same_count : pool'.count ≡ pool.count
  pub frame : (g : ℕ) → frame_at pool' g ≡ (if f == g then x else frame_at pool g)

-- `frame_ref` adds a reference to one frame in use and leaves the rest alone.
pub ref_effect :
    (pool : FramePool) (f : ℕ)
    → IsValid pool
    → 0 < refs pool f
    → Changes pool (ref pool f) f (record (frame_at pool f) { refcount = refs pool f + 1 })
unfolding ref
ref_effect pool f v held =
    let (valid, at) =
      put_effect pool f (record (frame_at pool f) { refcount = refs pool f + 1 }) v held
        (omega arith) refl refl in
    record {
      valid = valid;
      same_backing = refl;
      same_capacity = refl;
      same_count = refl;
      frame = at;
    }

free_at-init : (n i k : ℕ) → k < n → get_or (init_free i n) k 0 ≡ i + k
unfolding init_free
free_at-init zero i k h = absurd (omega arith)
free_at-init (suc n) i zero h = omega arith
free_at-init (suc n) i (suc k) h = omega (arith, free_at-init n (i + 1) k)

refs-init :
    (capacity n i f : ℕ) → (get_or (init_frames capacity i n) f (cleared 0 none 0)).refcount ≡ 0
unfolding init_frames
refs-init capacity zero i f = refl
refs-init capacity (suc n) i zero = refl
refs-init capacity (suc n) i (suc f) = refs-init capacity n (i + 1) f

init_sizes :
    (capacity n i : ℕ)
    → (length (init_frames capacity i n) ≡ n)
      × (used (init_frames capacity i n) ≡ 0)
      × (length (init_free i n) ≡ n)
unfolding init_frames init_free
init_sizes capacity zero i = (refl, refl, refl)
init_sizes capacity (suc n) i = omega (arith, init_sizes capacity n (i + 1))

-- A pool that `frame_pool_create` returns is valid, with every frame free.
pub create-IsValid :
    (capacity count : ℕ) {pool : FramePool}
    → create true capacity count ≡ some pool
    → IsValid pool × (pool.free_count ≡ count) × (pool.count ≡ count)
unfolding create
create-IsValid capacity count {pool} e = rw (← built) (
  record {
    frames_len = (init_sizes capacity count 0).0;
    free_len = (init_sizes capacity count 0).2;
    bytes_len = length-replicate (count * capacity) 0;
    all_counted = omega (arith, init_sizes capacity count 0);
    free_in = λ i h. omega (arith, free_at-init count 0 i h);
    free_unused = λ i h. refs-init capacity count 0 _;
    free_once = λ i j h k. omega (arith, free_at-init count 0 i, free_at-init count 0 j);
    own_index = λ f h. absurd (omega (arith, refs-init capacity count 0 f));
    own_bytes = λ f h. absurd (omega (arith, refs-init capacity count 0 f));
  },
  refl,
  refl,
)
  where
    built :
        record {
          frames = init_frames capacity 0 count;
          backing = replicate (count * capacity) 0;
          capacity = capacity;
          count = count;
          free_list = init_free 0 count;
          free_count = count;
        }
        ≡ pool
    built = ground arith
