-- ===== src/Media/AuRing/Refine.antt =====
-- A valid ring behaves as a bounded queue that gives up its oldest entries.
use ideal_broccoli.Base.{
  ℕ, ◌+◌, ◌*◌, ◌%◌, ◌≤◌, ◌<◌, ◌≡◌, ◌≢◌, ◌⊎◌, inl, inr, sym, ap, ap₂, ◌∙◌, Bool, none, some, List,
  [], ◌∷◌, ◌++◌, arith, ◌==◌, leb, if◌then◌else◌, length, get_or, take, drop, blit, slice,
  length-take, slice-blit_self, slice-blit_before, slice-blit_after, get_or-set_self, get_or-set_ne,
}
use native.Mathlib.Numerals.{add-one}
use native.Mathlib.Decide.{ℕ_discrete, dec_lt}
use ideal_broccoli.Media.AuRing.{
  AuRing, AuMeta, AccessUnit, no_meta, make_room, store, push, pop, slot,
}
use ideal_broccoli.Base.Walk.{
  walk, length-walk, walk-snoc, walk_congr, drop-walk, walk_of_pos, slots_differ, slots_apart,
}
use ideal_broccoli.Media.AuRing.Invariant.{
  IsValid, tail_in, push_inversion, make_room-IsValid, slots-make_room, push-IsValid,
}

-- The access units that wait, oldest first.
abbrev pub contents : AuRing → List AccessUnit
contents ring = walk ring.slot_count (slot ring) ring.head ring.count

pub length-contents : (ring : AuRing) → length (contents ring) ≡ ring.count
length-contents ring = length-walk ring.slot_count (slot ring) ring.head ring.count

-- The specification: a queue of at most `cap` entries in which the newest always finds room.
unfoldable pub evict : ℕ → List AccessUnit → List AccessUnit
evict cap q = if length q == cap then drop 1 q else q

unfoldable pub enqueue : ℕ → List AccessUnit → AccessUnit → List AccessUnit
unfolding evict
enqueue cap q x = evict cap q ++ x ∷ []

make_room_refines :
    (ring : AuRing) → contents (make_room ring) ≡ evict ring.slot_count (contents ring)
unfolding make_room evict slot
make_room_refines ring =
    ground (arith, length-contents ring, drop-walk ring.slot_count (slot ring) ring.head ring.count)

sequence-make_room : (ring : AuRing) → (make_room ring).sequence ≡ ring.sequence
unfolding make_room
sequence-make_room ring = ground arith

module _ (ring : AuRing) (size pts_us : ℕ) (is_idr : Bool) (bytes : List ℕ) (v : IsValid ring) where
  new_meta : AuMeta
  new_meta = record { pts_us = pts_us; sequence = ring.sequence; is_idr = is_idr; size = size }

  -- The slot at `tail` holds the new access unit.
  slot-store_self :
      size ≤ ring.slot_capacity
      → size ≤ length bytes
      → slot (store ring bytes size pts_us is_idr) ring.tail ≡ (take size bytes, new_meta)
  unfolding slot store new_meta
  slot-store_self small enough =
      ap (λ (m : AuMeta). (slice written off m.size, m))
        (get_or-set_self ring.meta ring.tail new_meta no_meta (omega (arith, tail_in ring v)))
      ∙ ap (λ (b : List ℕ). (b, new_meta)) read
    where
      off : ℕ
      off = ring.tail * ring.slot_capacity

      written : List ℕ
      written = blit ring.backing off (take size bytes)

      taken : length (take size bytes) ≡ size
      taken = omega (arith, length-take size bytes)

      read : slice written off size ≡ take size bytes
      read =
          ap (slice written off) (sym taken)
          ∙ slice-blit_self ring.backing off (take size bytes)
              (omega (arith, taken, v.bytes, inside))
        where
          inside : off + size ≤ ring.slot_count * ring.slot_capacity
          inside =
              slots_apart ring.tail ring.slot_count size ring.slot_capacity (tail_in ring v) small

  -- The others hold what they held.
  slot-store_ne :
      (i : ℕ)
      → size ≤ ring.slot_capacity
      → i ≢ ring.tail
      → slot (store ring bytes size pts_us is_idr) i ≡ slot ring i
  unfolding slot store new_meta
  slot-store_ne i small ne =
      ap (λ (m : AuMeta). (slice written (i * ring.slot_capacity) m.size, m))
        (get_or-set_ne ring.meta ring.tail i new_meta no_meta (λ e. ne (sym e)))
      ∙ ap (λ (b : List ℕ). (b, get_or ring.meta i no_meta))
          (elim (dec_lt i ring.tail) [
            | yes p ↦
                slice-blit_before ring.backing off (take size bytes) (i * ring.slot_capacity) _
                  (slots_apart i ring.tail _ ring.slot_capacity p (v.fits i))
            | no p ↦
                slice-blit_after ring.backing off (take size bytes) (i * ring.slot_capacity) _ (
                  omega (
                    arith,
                    length-take size bytes,
                    slots_apart ring.tail i size ring.slot_capacity (omega arith) small,
                  ))
          ])
    where
      off : ℕ
      off = ring.tail * ring.slot_capacity

      written : List ℕ
      written = blit ring.backing off (take size bytes)

  -- So a ring with room takes the access unit at the end of its contents.
  store_refines :
      size ≤ ring.slot_capacity
      → size ≤ length bytes
      → ring.count < ring.slot_count
      → contents (store ring bytes size pts_us is_idr)
        ≡ contents ring ++ (take size bytes, new_meta) ∷ []
  unfolding store
  store_refines small enough room =
      ap (walk ring.slot_count at ring.head) (add-one ring.count)
      ∙ walk-snoc ring.slot_count at ring.head ring.count v.head_in
      ∙ ap₂ (λ (q : List AccessUnit) (x : AccessUnit). q ++ x ∷ [])
          (walk_congr ring.slot_count (slot ring) at ring.head ring.count v.head_in others)
          (ap at (sym v.tail_at) ∙ slot-store_self small enough)
    where
      at : ℕ → AccessUnit
      at = slot (store ring bytes size pts_us is_idr)

      others :
          (k : ℕ)
          → k < ring.count
          → at ((ring.head + k) % ring.slot_count) ≡ slot ring ((ring.head + k) % ring.slot_count)
      others k p = slot-store_ne ((ring.head + k) % ring.slot_count) small λ e.
          slots_differ ring.slot_count ring.head k ring.count v.head_in p room (sym (e ∙ v.tail_at))

-- `au_ring_push` on a valid ring: when it returns 0, the ring holds what it held, less the oldest
-- access unit if it was full, and behind it the new one with the bytes that were given; and the
-- ring is valid again.
pub push_refines :
    (ring ring' : AuRing) (bytes : List ℕ) (size pts_us : ℕ) (is_idr : Bool)
    → IsValid ring
    → size ≤ length bytes
    → push ring (some bytes) size pts_us is_idr ≡ some ring'
    → (contents ring'
        ≡ enqueue ring.slot_count (contents ring) (
          take size bytes,
          record { pts_us = pts_us; sequence = ring.sequence; is_idr = is_idr; size = size },
        ))
      × IsValid ring'
unfolding enqueue new_meta
push_refines ring ring' bytes size pts_us is_idr v enough e =
    let (_, small, e') = push_inversion ring ring' bytes size pts_us is_idr e in
    let (v', room) = make_room-IsValid ring v in
    let (n, c) = slots-make_room ring in
    (
      rw e' (
          store_refines (make_room ring) size pts_us is_idr bytes v' (rw c small) enough (rw n room)
          ∙ ap₂ (λ (q : List AccessUnit) (k : ℕ). q ++ (take size bytes, stamped k) ∷ [])
              (make_room_refines ring) (sequence-make_room ring)),
      push-IsValid ring ring' (some bytes) size pts_us is_idr v e,
    )
  where
    stamped : ℕ → AuMeta
    stamped k = record { pts_us = pts_us; sequence = k; is_idr = is_idr; size = size }

-- `au_ring_pop` on a valid ring hands out the oldest access unit if it fits the buffer, and in any
-- case removes it: one that does not fit is lost. On an empty ring it changes nothing.
pub pop_refines :
    (ring : AuRing) (capacity : ℕ)
    → IsValid ring
    → ((contents ring ≡ []) × (pop ring capacity ≡ (none, ring)))
      ⊎ ((x : AccessUnit) × (contents ring ≡ x ∷ contents (pop ring capacity).1)
          × ((pop ring capacity).0 ≡ (if leb x.1.size capacity then some x else none)))
unfolding pop
pop_refines ring capacity v = elim (ℕ_discrete ring.count 0) [
  | yes e ↦ inl (ground arith, ground arith)
  | no ne ↦ inr (
    slot ring ring.head,
    ground (arith, walk_of_pos ring.slot_count (slot ring) ring.head ring.count),
    ground arith,
  )
]
