-- ===== src/Media/FramePool/Tests.antt =====
-- Runs of the pool, and its theorems at concrete pools.
use ideal_broccoli.Base.{◌≡◌, ◌<◌, ◌↔◌, refl, some, none, [], ◌∷◌, arith}
use ideal_broccoli.Media.FramePool.{
  FramePool, cleared, create, init_frames, init_free, acquire, ref, unref,
}
use ideal_broccoli.Media.FramePool.Counting.{used}
use ideal_broccoli.Media.FramePool.Invariant.{IsValid, Changes, refs, create-IsValid, ref_effect}
use ideal_broccoli.Media.FramePool.Acquire.{acquire_effect, acquire-none}
use ideal_broccoli.Media.FramePool.Release.{unref_effect}

abbrev fresh : FramePool
fresh = record {
  frames = cleared 0 (some 0) 0 ∷ cleared 2 (some 1) 0 ∷ [];
  backing = 0 ∷ 0 ∷ 0 ∷ 0 ∷ [];
  capacity = 2;
  count = 2;
  free_list = 0 ∷ 1 ∷ [];
  free_count = 2;
}

abbrev one_out : FramePool
one_out = record fresh { frames = cleared 0 (some 0) 0 ∷ cleared 2 (some 1) 1 ∷ []; free_count = 1 }

runs : acquire fresh ≡ some (1, one_out)
unfolding acquire
runs = refl

comes_back : (unref one_out 1).free_count ≡ 2
unfolding unref
comes_back = refl

create-IsValid_example : IsValid fresh × (fresh.free_count ≡ 2) × (fresh.count ≡ 2)
unfolding create init_frames init_free
create-IsValid_example = create-IsValid 2 2 refl

acquire_effect_example :
    (1 < 2) × (refs fresh 1 ≡ 0) × Changes fresh one_out 1 (cleared 2 (some 1) 1)
unfolding acquire
acquire_effect_example = acquire_effect fresh one_out 1 create-IsValid_example.0 refl

one_out-IsValid : IsValid one_out
one_out-IsValid = acquire_effect_example.2.valid

acquire-none_example : (acquire one_out ≡ none) ↔ (used one_out.frames ≡ 2)
acquire-none_example = acquire-none one_out one_out-IsValid

ref_effect_example : Changes one_out (ref one_out 1) 1 (cleared 2 (some 1) 2)
ref_effect_example = ref_effect one_out 1 one_out-IsValid (omega arith)

unref_effect_example : Changes one_out (unref one_out 1) 1 (cleared 2 none 0)
unref_effect_example = unref_effect one_out 1 one_out-IsValid (omega arith)
