-- ===== src/Media/AuRing.antt =====
-- src/media/au_ring.c: the ring of encoded access units between the encode thread and the network
-- thread. The calls run under the ring's mutex, so each is one step on the state. A function that
-- updates `*ring` returns the new ring; `none` stands for its -1.
pub mod Invariant
pub mod Refine
pub mod Freshness
mod Tests
use ideal_broccoli.Base.{
  ℕ, ◌+◌, ◌-◌, ◌*◌, ◌%◌, ◌^◌, Bool, ◌||◌, false, Option, none, some, List, [], ltb, leb, ◌==◌,
  if◌then◌else◌, get_or, set, take, replicate, slice, blit,
}

pub record AuMeta : Type 0 where
  pub pts_us : ℕ
  pub sequence : ℕ
  pub is_idr : Bool
  pub size : ℕ

-- `backing` is the one array of `slot_count * slot_capacity` bytes.
pub record AuRing : Type 0 where
  pub backing : List ℕ
  pub meta : List AuMeta
  pub slot_capacity : ℕ
  pub slot_count : ℕ
  pub head : ℕ
  pub tail : ℕ
  pub count : ℕ
  pub dropped : ℕ
  pub sequence : ℕ

-- What `calloc` leaves in a slot.
abbrev pub no_meta : AuMeta
no_meta = record { pts_us = 0; sequence = 0; is_idr = false; size = 0 }

-- The first argument is what the allocator returned for the backing store, with whatever bytes are
-- in it, or `none` if one of the three allocations failed.
pub create : Option (List ℕ) → ℕ → ℕ → Option AuRing
create none slot_capacity slot_count = none
create (some memory) slot_capacity slot_count =
    if slot_capacity == 0 || slot_count == 0
    then none
    else some (record {
      backing = memory;
      meta = replicate slot_count no_meta;
      slot_capacity = slot_capacity;
      slot_count = slot_count;
      head = 0;
      tail = 0;
      count = 0;
      dropped = 0;
      sequence = 0;
    })

-- A full ring gives up its oldest access unit.
pub make_room : AuRing → AuRing
make_room ring =
    if ring.count == ring.slot_count
    then record ring {
      head = (ring.head + 1) % ring.slot_count;
      count = ring.count - 1;
      dropped = (ring.dropped + 1) % 2 ^ 64;
    }
    else ring

pub store : AuRing → List ℕ → ℕ → ℕ → Bool → AuRing
store ring bytes size pts_us is_idr = record ring {
  backing = blit ring.backing (ring.tail * ring.slot_capacity) (take size bytes);
  meta =
      set ring.meta ring.tail
        (record { pts_us = pts_us; sequence = ring.sequence; is_idr = is_idr; size = size });
  sequence = (ring.sequence + 1) % 2 ^ 64;
  tail = (ring.tail + 1) % ring.slot_count;
  count = ring.count + 1;
}

-- The data pointer may be null.
pub push : AuRing → Option (List ℕ) → ℕ → ℕ → Bool → Option AuRing
push ring none size pts_us is_idr = none
push ring (some bytes) size pts_us is_idr =
    if size == 0 || ltb ring.slot_capacity size
    then none
    else some (store (make_room ring) bytes size pts_us is_idr)

abbrev pub AccessUnit : Type 0
AccessUnit = List ℕ × AuMeta

-- What a slot holds.
pub slot : AuRing → ℕ → AccessUnit
slot ring i = (slice ring.backing (i * ring.slot_capacity) size, m)
  where
    m : AuMeta
    m = get_or ring.meta i no_meta

    size : ℕ
    size = m.size

-- The first part is what was copied out; `none` stands for the return value 0.
pub pop : AuRing → ℕ → Option AccessUnit × AuRing
unfolding slot
pop ring buffer_capacity = if ring.count == 0 then (none, ring) else (
  if leb (slot ring ring.head).1.size buffer_capacity then some (slot ring ring.head) else none,
  record ring { head = (ring.head + 1) % ring.slot_count; count = ring.count - 1 },
)
