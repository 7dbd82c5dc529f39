-- ===== src/Media/FrameHub/Counters.antt =====
-- The calls of the pool as the hub sees them: what they do to the counters, and that they leave
-- pictures alone.
use ideal_broccoli.Base.{
  ℕ, ◌+◌, ◌<◌, ◌≡◌, refl, ◌∙◌, Option, none, some, arith, ◌==◌, if◌then◌else◌,
}
use ideal_broccoli.Media.FramePool.{Frame, FramePool, frame_at, ref, unref}
use ideal_broccoli.Media.FramePool.Invariant.{IsValid, refs, ref_effect}
use ideal_broccoli.Media.FramePool.Release.{unref_effect}
use ideal_broccoli.Media.FrameHub.{drop_slot}

-- What a consumer reads of a frame, its bytes aside.
pub record Info : Type 0 where
  pub width : ℕ
  pub height : ℕ
  pub format : ℕ
  pub stride : ℕ
  pub size : ℕ
  pub sequence : ℕ
  pub timestamp_us : ℕ

abbrev pub info : Frame → Info
info x = record {
  width = x.width;
  height = x.height;
  format = x.format;
  stride = x.stride;
  size = x.size;
  sequence = x.sequence;
  timestamp_us = x.timestamp_us;
}

-- Calls that move references only.
pub record Quiet (pool pool' : FramePool) : Type 0 where
  pub valid : IsValid pool'
  pub same_backing : pool'.backing ≡ pool.backing
  pub same_capacity : pool'.capacity ≡ pool.capacity
  pub same_count : pool'.count ≡ pool.count
  pub same_info : (g : ℕ) → info (frame_at pool' g) ≡ info (frame_at pool g)

pub Quiet-refl : (pool : FramePool) → IsValid pool → Quiet pool pool
Quiet-refl pool v = record {
  valid = v;
  same_backing = refl;
  same_capacity = refl;
  same_count = refl;
  same_info = λ g. refl;
}

pub Quiet-trans : {p q r : FramePool} → Quiet p q → Quiet q r → Quiet p r
Quiet-trans a b = record {
  valid = b.valid;
  same_backing = b.same_backing ∙ a.same_backing;
  same_capacity = b.same_capacity ∙ a.same_capacity;
  same_count = b.same_count ∙ a.same_count;
  same_info = λ g. b.same_info g ∙ a.same_info g;
}

-- 1 for the frame that is meant.
abbrev pub is : ℕ → ℕ → ℕ
is f g = if f == g then 1 else 0

abbrev pub slot_is : Option ℕ → ℕ → ℕ
slot_is none g = 0
slot_is (some f) g = is f g

pub ref_counts :
    (pool : FramePool) (f : ℕ)
    → IsValid pool
    → 0 < refs pool f
    → Quiet pool (ref pool f) × ((g : ℕ) → refs (ref pool f) g ≡ refs pool g + is f g)
ref_counts pool f v held =
    let c = ref_effect pool f v held in
    (
      record {
        valid = c.valid;
        same_backing = c.same_backing;
        same_capacity = c.same_capacity;
        same_count = c.same_count;
        same_info = λ g. ground (arith, c.frame g);
      },
      λ g. ground (arith, c.frame g),
    )

pub unref_counts :
    (pool : FramePool) (f : ℕ)
    → IsValid pool
    → 0 < refs pool f
    → Quiet pool (unref pool f) × ((g : ℕ) → refs (unref pool f) g + is f g ≡ refs pool g)
unref_counts pool f v held =
    let c = unref_effect pool f v held in
    (
      record {
        valid = c.valid;
        same_backing = c.same_backing;
        same_capacity = c.same_capacity;
        same_count = c.same_count;
        same_info = λ g. ground (arith, c.frame g);
      },
      λ g. ground (arith, c.frame g),
    )

pub drop_slot_counts :
    (pool : FramePool) (slot : Option ℕ)
    → IsValid pool
    → ((f : ℕ) → slot ≡ some f → 0 < refs pool f)
    → Quiet pool (drop_slot pool slot)
      × ((g : ℕ) → refs (drop_slot pool slot) g + slot_is slot g ≡ refs pool g)
unfolding drop_slot
drop_slot_counts pool none v held = (Quiet-refl pool v, λ g. omega arith)
drop_slot_counts pool (some f) v held = unref_counts pool f v (held f refl)
