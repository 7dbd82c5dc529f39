-- ===== src/Media/AuRing/Invariant.antt =====
-- The representation invariant of `struct AuRing`, and that every call keeps it.
use ideal_broccoli.Base.{
  ℕ, ◌+◌, ◌-◌, ◌*◌, ◌%◌, ◌≤◌, ◌<◌, ◌≡◌, Bool, Option, none, some, List, arith, length, length-set,
  length-blit, length-replicate, get_or, take, get_or-set_self, get_or-set_ne, get_or-replicate,
}
use native.Mathlib.Decide.{ℕ_discrete}
use ideal_broccoli.Media.AuRing.{AuRing, AuMeta, no_meta, create, make_room, store, push, pop}
use ideal_broccoli.Base.Walk.{mod_cases}

-- `head`, `tail` and `count` name one window of the slots, the two arrays have the sizes that they
-- were allocated with, and no access unit is larger than its slot.
pub record IsValid (ring : AuRing) : Type 0 where
  pub head_in : ring.head < ring.slot_count
  pub tail_at : ring.tail ≡ (ring.head + ring.count) % ring.slot_count
  pub count_in : ring.count ≤ ring.slot_count
  pub metas : length ring.meta ≡ ring.slot_count
  pub bytes : length ring.backing ≡ ring.slot_count * ring.slot_capacity
  pub fits : (i : ℕ) → (get_or ring.meta i no_meta).size ≤ ring.slot_capacity

pub tail_in : (ring : AuRing) → IsValid ring → ring.tail < ring.slot_count
tail_in ring v = omega arith

-- A ring that `au_ring_create` returns is valid and empty.
pub create-IsValid :
    (memory : List ℕ) (slot_capacity slot_count : ℕ) {ring : AuRing}
    → length memory ≡ slot_count * slot_capacity
    → create (some memory) slot_capacity slot_count ≡ some ring
    → IsValid ring × (ring.count ≡ 0)
unfolding create
create-IsValid memory slot_capacity slot_count {ring} h e = (
  record {
    head_in = ground arith;
    tail_at = ground (arith, positive);
    count_in = ground arith;
    metas = ground (arith, length-replicate slot_count no_meta);
    bytes = ground arith;
    fits = λ i. ground (arith, get_or-replicate slot_count i no_meta);
  },
  ground arith,
)
  where
    positive : 0 < ring.slot_count
    positive = ground arith

-- Giving up the oldest access unit keeps the ring valid, and leaves room for one more.
pub make_room-IsValid :
    (ring : AuRing)
    → IsValid ring
    → IsValid (make_room ring) × ((make_room ring).count < ring.slot_count)
unfolding make_room
make_room-IsValid ring v = ground (
  arith,
  v.fits,
  mod_cases (ring.head + ring.count) ring.slot_count (omega arith),
  mod_cases (ring.head + 1) ring.slot_count (omega arith),
  mod_cases ((ring.head + 1) % ring.slot_count + (ring.count - 1)) ring.slot_count (omega arith),
)

-- Filling the slot at `tail` keeps a ring with room valid.
pub store-IsValid :
    (ring : AuRing) (size pts_us : ℕ) (is_idr : Bool) (bytes : List ℕ)
    → IsValid ring
    → ring.count < ring.slot_count
    → size ≤ ring.slot_capacity
    → IsValid (store ring bytes size pts_us is_idr)
unfolding store
store-IsValid ring size pts_us is_idr bytes v room small = record {
  head_in = v.head_in;
  tail_at = ground (
    arith,
    mod_cases (ring.head + ring.count) ring.slot_count (omega arith),
    mod_cases (ring.tail + 1) ring.slot_count (omega arith),
    mod_cases (ring.head + (ring.count + 1)) ring.slot_count (omega arith),
  );
  count_in = omega arith;
  metas = omega (arith, length-set ring.meta ring.tail m);
  bytes =
      omega (arith, length-blit ring.backing (ring.tail * ring.slot_capacity) (take size bytes));
  fits = λ i. elim (ℕ_discrete ring.tail i) [
    | yes e ↦ rw (← e, get_or-set_self ring.meta ring.tail m no_meta (omega arith)) small
    | no e ↦ rw (get_or-set_ne ring.meta ring.tail i m no_meta e) (v.fits i)
  ];
}
  where
    m : AuMeta
    m = record { pts_us = pts_us; sequence = ring.sequence; is_idr = is_idr; size = size }

-- What is known when `au_ring_push` returns 0.
pub push_inversion :
    (ring ring' : AuRing) (bytes : List ℕ) (size pts_us : ℕ) (is_idr : Bool)
    → push ring (some bytes) size pts_us is_idr ≡ some ring'
    → (0 < size)
      × (size ≤ ring.slot_capacity)
      × (ring' ≡ store (make_room ring) bytes size pts_us is_idr)
unfolding push
push_inversion ring ring' bytes size pts_us is_idr e = (ground arith, ground arith, ground arith)

pub slots-make_room :
    (ring : AuRing)
    → ((make_room ring).slot_count ≡ ring.slot_count)
      × ((make_room ring).slot_capacity ≡ ring.slot_capacity)
unfolding make_room
slots-make_room ring = ground arith

-- `au_ring_push` keeps the invariant.
pub push-IsValid :
    (ring ring' : AuRing) (source : Option (List ℕ)) (size pts_us : ℕ) (is_idr : Bool)
    → IsValid ring
    → push ring source size pts_us is_idr ≡ some ring'
    → IsValid ring'
unfolding push
push-IsValid ring ring' none size pts_us is_idr v e = cc
push-IsValid ring ring' (some bytes) size pts_us is_idr v e =
    let (_, small, e') = push_inversion ring ring' bytes size pts_us is_idr e in
    let (v', room) = make_room-IsValid ring v in
    let (n, c) = slots-make_room ring in
    rw e' (store-IsValid (make_room ring) size pts_us is_idr bytes v' (rw n room) (rw c small))

-- `au_ring_pop` keeps the invariant.
pub pop-IsValid : (ring : AuRing) (capacity : ℕ) → IsValid ring → IsValid (pop ring capacity).1
unfolding pop
pop-IsValid ring capacity v = ground (
  arith,
  v.fits,
  mod_cases (ring.head + ring.count) ring.slot_count (omega arith),
  mod_cases (ring.head + 1) ring.slot_count (omega arith),
  mod_cases ((ring.head + 1) % ring.slot_count + (ring.count - 1)) ring.slot_count (omega arith),
)
