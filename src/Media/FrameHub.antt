-- ===== src/Media/FrameHub.antt =====
-- src/media/frame_hub.c: one producer, one mailbox for each consumer, the newest frame in each.
-- The linked list of consumers is a list, its head first; a `FrameHubConsumer *` is the number
-- `id` of a consumer. Each call is one step: what it does runs under the locks of the hub, of a
-- mailbox or of the pool, or on a frame that no other thread can reach.
pub mod Counters
pub mod Delivery
pub mod Ownership
pub mod Pictures
pub mod Progress
pub mod Tests
use ideal_broccoli.Base.{
  ℕ, ◌+◌, ◌*◌, Bool, true, false, Option, none, some, ◌>>=◌, List, [], ◌∷◌, ◌==◌, if◌then◌else◌,
  set, take, blit,
}
use ideal_broccoli.Media.FramePool.{Frame, FramePool, frame_at}
use ideal_broccoli.Media.FramePool

pub record Consumer : Type 0 where
  pub id : ℕ
  pub slot : Option ℕ
  pub active : Bool

pub record FrameHub : Type 0 where
  pub pool : FramePool
  pub consumers : List Consumer

-- The arguments of `frame_hub_publish` behind the hub; `bytes` is `none` for a null pointer.
pub record Picture : Type 0 where
  pub bytes : Option (List ℕ)
  pub size : ℕ
  pub width : ℕ
  pub height : ℕ
  pub format : ℕ
  pub stride : ℕ
  pub sequence : ℕ
  pub timestamp_us : ℕ

-- The flags tell whether the allocations of the hub and of its pool succeed.
pub create : Bool → Bool → ℕ → ℕ → Option FrameHub
create false pool_allocated buffer_capacity pool_count = none
create true pool_allocated buffer_capacity pool_count = do
  pool ← FramePool.create pool_allocated buffer_capacity pool_count
  some (record { pool = pool; consumers = [] })

-- The second argument is the address of the new consumer, if there is memory for one.
pub subscribe : FrameHub → Option ℕ → Option (ℕ × FrameHub)
subscribe hub none = none
subscribe hub (some id) =
    some (
      id,
      record hub { consumers = record { id = id; slot = none; active = true } ∷ hub.consumers },
    )

pub find : ℕ → List Consumer → Option Consumer
find id [] = none
find id (c ∷ cs) = if c.id == id then some c else find id cs

pub unlink : ℕ → List Consumer → List Consumer
unlink id [] = []
unlink id (c ∷ cs) = if c.id == id then cs else c ∷ unlink id cs

-- The frame of a mailbox, if there is one, loses a reference.
pub drop_slot : FramePool → Option ℕ → FramePool
drop_slot pool none = pool
drop_slot pool (some f) = FramePool.unref pool f

unsubscribe_found : FrameHub → ℕ → Option Consumer → FrameHub
unsubscribe_found hub id none = hub
unsubscribe_found hub id (some c) = record {
  pool = drop_slot hub.pool c.slot;
  consumers = if c.active then unlink id hub.consumers else hub.consumers;
}

pub unsubscribe : FrameHub → ℕ → FrameHub
unfolding unsubscribe_found
unsubscribe hub id = unsubscribe_found hub id (find id hub.consumers)

-- The copy into the buffer of the frame, and the seven lines that describe it.
pub fill : FramePool → ℕ → Picture → List ℕ → FramePool
fill pool f picture bytes = record pool {
  backing = blit pool.backing (frame_at pool f).at (take picture.size bytes);
  frames = set pool.frames f (record (frame_at pool f) {
    width = picture.width;
    height = picture.height;
    format = picture.format;
    stride = picture.stride;
    size = picture.size;
    sequence = picture.sequence;
    timestamp_us = picture.timestamp_us;
  });
}

-- One round of the delivery loop: the mailbox keeps the newest frame.
pub mail : FramePool → ℕ → Consumer → FramePool × Consumer
mail pool f c =
    if c.active
    then (drop_slot (FramePool.ref pool f) c.slot, record c { slot = some f })
    else (pool, c)

pub deliver : FramePool → ℕ → List Consumer → FramePool × List Consumer
deliver pool f [] = (pool, [])
deliver pool f (c ∷ cs) =
    let (pool', c') = mail pool f c in let (pool'', cs') = deliver pool' f cs in (pool'', c' ∷ cs')

publish_frame : FrameHub → Picture → List ℕ → Option (ℕ × FramePool) → Option FrameHub
publish_frame hub picture bytes none = none
publish_frame hub picture bytes (some (f, pool)) =
    let (pool', consumers) = deliver (fill pool f picture bytes) f hub.consumers in
    some (record { pool = FramePool.unref pool' f; consumers = consumers })

-- `none` stands for -1: a null pointer, an empty picture, or a pool with no free frame.
pub publish : FrameHub → Picture → Option FrameHub
unfolding publish_frame
publish hub picture = do
  bytes ← picture.bytes
  if picture.size == 0 then none else publish_frame hub picture bytes (FramePool.acquire hub.pool)

pub empty_slot : ℕ → List Consumer → List Consumer
empty_slot id [] = []
empty_slot id (c ∷ cs) = if c.id == id then record c { slot = none } ∷ cs else c ∷ empty_slot id cs

-- The frame that the mailbox held, which is empty now.
pub take_frame : FrameHub → ℕ → Option ℕ × FrameHub
take_frame hub id =
    (do c ← find id hub.consumers; c.slot, record hub { consumers = empty_slot id hub.consumers })
