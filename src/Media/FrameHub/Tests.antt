-- ===== src/Media/FrameHub/Tests.antt =====
-- Runs of the hub, and its theorems at concrete hubs.
use ideal_broccoli.Base.{
  ℕ, ◌≡◌, ◌<◌, ◌↔◌, ◌+◌, refl, true, some, none, [], ◌∷◌, arith, All, get_or, is_some,
}
use ideal_broccoli.Media.FramePool
use ideal_broccoli.Media.FramePool.{Frame, FramePool, cleared}
use ideal_broccoli.Media.FrameHub.{
  FrameHub, Picture, create, subscribe, publish, publish_frame, deliver, mail, fill, drop_slot,
  take_frame, find,
}
use ideal_broccoli.Media.FrameHub.Delivery.{holders, picture_info}
use ideal_broccoli.Media.FrameHub.Ownership.{
  World, Step, publishes, subscribes, here, next, Consistent, times, Reach-Consistent,
  create-Consistent,
}
use ideal_broccoli.Media.FrameHub.Pictures.{
  Shows, view, publish-Shows, publish-view_held, publish_overruns,
}
use ideal_broccoli.Media.FrameHub.Progress.{publish_succeeds}

abbrev fresh : FrameHub
fresh = record {
  pool = record {
    frames = cleared 0 (some 0) 0 ∷ cleared 2 (some 1) 0 ∷ [];
    backing = 0 ∷ 0 ∷ 0 ∷ 0 ∷ [];
    capacity = 2;
    count = 2;
    free_list = 0 ∷ 1 ∷ [];
    free_count = 2;
  };
  consumers = [];
}

abbrev joined : FrameHub
joined = record fresh { consumers = record { id = 7; slot = none; active = true } ∷ [] }

abbrev picture : Picture
picture = record {
  bytes = some (5 ∷ 6 ∷ []);
  size = 2;
  width = 1;
  height = 1;
  format = 0;
  stride = 2;
  sequence = 4;
  timestamp_us = 9;
}

abbrev pub sent : FrameHub
sent = record {
  pool = record {
    frames =
        cleared 0 (some 0) 0
        ∷ record (cleared 2 (some 1) 1) {
          width = 1;
          height = 1;
          stride = 2;
          size = 2;
          sequence = 4;
          timestamp_us = 9;
        }
        ∷ [];
    backing = 0 ∷ 0 ∷ 5 ∷ 6 ∷ [];
    capacity = 2;
    count = 2;
    free_list = 0 ∷ 1 ∷ [];
    free_count = 1;
  };
  consumers = record { id = 7; slot = some 1; active = true } ∷ [];
}

abbrev pub world : FrameHub → World
world hub = record { hub = hub; taken = [] }

made : create true true 2 2 ≡ some fresh
unfolding create FramePool.create FramePool.init_frames FramePool.init_free
made = refl

create-Consistent_example : Consistent (world fresh)
create-Consistent_example = create-Consistent 2 2 made

joins : Step (world fresh) (world joined)
unfolding subscribe
joins = subscribes 7 joined refl

sends : publish joined picture ≡ some sent
unfolding publish publish_frame fill deliver mail drop_slot FramePool.acquire FramePool.ref
    FramePool.unref
sends = refl

takes_newest : (take_frame sent 7).0 ≡ some 1
unfolding take_frame find
takes_newest = refl

joined-Consistent : Consistent (world joined)
joined-Consistent = Reach-Consistent (next here joins) create-Consistent_example

pub sent-Consistent : Consistent (world sent)
sent-Consistent =
    Reach-Consistent (next (next here joins) (publishes picture sent sends))
      (create-Consistent 2 2 made)

Reach-Consistent_example : Consistent (world sent)
Reach-Consistent_example =
    Reach-Consistent (next (next here joins) (publishes picture sent sends))
      create-Consistent_example

publish-Shows_example : All (Shows sent.pool (5 ∷ 6 ∷ [], picture_info picture)) sent.consumers
publish-Shows_example =
    publish-Shows (world joined) sent picture (5 ∷ 6 ∷ []) joined-Consistent refl (omega arith)
      (omega arith) sends

publish_succeeds_example :
    (is_some (publish sent picture) ≡ true)
    ↔ ((g : ℕ) × (g < 2) × (holders g sent.consumers + times g [] ≡ 0))
publish_succeeds_example =
    publish_succeeds (world sent) picture (5 ∷ 6 ∷ []) Reach-Consistent_example refl (omega arith)

-- The second picture goes to the other frame, and the first frame is free again.
abbrev shown : Frame
shown = record (cleared 0 (some 0) 1) {
  width = 1;
  height = 1;
  stride = 2;
  size = 2;
  sequence = 4;
  timestamp_us = 9;
}

abbrev sent_again : FrameHub
sent_again = record {
  pool = record {
    frames = shown ∷ record shown { at = 2; pool_index = none; refcount = 0 } ∷ [];
    backing = 5 ∷ 6 ∷ 5 ∷ 6 ∷ [];
    capacity = 2;
    count = 2;
    free_list = 1 ∷ 1 ∷ [];
    free_count = 1;
  };
  consumers = record { id = 7; slot = some 0; active = true } ∷ [];
}

sends_again : publish sent picture ≡ some sent_again
unfolding publish publish_frame fill deliver mail drop_slot FramePool.acquire FramePool.ref
    FramePool.unref
sends_again = refl

publish-view_held_example : view sent_again.pool 1 ≡ view sent.pool 1
publish-view_held_example =
    publish-view_held (world sent) sent_again picture 1 Reach-Consistent_example (omega arith)
      sends_again (omega arith) (omega arith)

-- Three bytes for buffers of two.
abbrev large : Picture
large = record picture { bytes = some (5 ∷ 6 ∷ 7 ∷ []); size = 3 }

abbrev overrun : FrameHub
overrun = record {
  pool = record (sent_again.pool) {
    frames =
        record shown { size = 3 } ∷ record shown { at = 2; pool_index = none; refcount = 0 } ∷ [];
    backing = 5 ∷ 6 ∷ 7 ∷ 6 ∷ [];
  };
  consumers = record { id = 7; slot = some 0; active = true } ∷ [];
}

sends_large : publish sent large ≡ some overrun
unfolding publish publish_frame fill deliver mail drop_slot FramePool.acquire FramePool.ref
    FramePool.unref
sends_large = refl

-- Frame 0 is taken for it.
abbrev taken_pool : FramePool
taken_pool = record (sent.pool) {
  frames = cleared 0 (some 0) 1 ∷ record shown { at = 2; pool_index = some 1; refcount = 1 } ∷ [];
  free_count = 0;
}

takes : FramePool.acquire sent.pool ≡ some (0, taken_pool)
unfolding FramePool.acquire
takes = refl

publish_overruns_example : get_or overrun.pool.backing 2 0 ≡ 7
publish_overruns_example =
    publish_overruns (world sent) overrun large (5 ∷ 6 ∷ 7 ∷ []) 0 taken_pool
      Reach-Consistent_example refl (omega arith) (omega arith) (omega arith) takes (omega arith)
      sends_large
