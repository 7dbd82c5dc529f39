-- ===== src/Media/AuRing/Tests.antt =====
-- Runs of the ring, and its theorems at concrete rings.
use ideal_broccoli.Base.{
  ℕ, zero, suc, ◌≡◌, ◌≤◌, ◌⊎◌, get_or, leb, if◌then◌else◌, refl, true, false, none, some, [], ◌∷◌,
  arith,
}
use mathlib.Core.List.{map}
use ideal_broccoli.Media.AuRing.{
  AuRing, AccessUnit, no_meta, create, push, pop, make_room, store, slot,
}
use ideal_broccoli.Media.AuRing.Invariant.{IsValid, create-IsValid, push-IsValid, pop-IsValid}
use ideal_broccoli.Media.AuRing.Refine.{contents, push_refines, pop_refines, enqueue}
use ideal_broccoli.Media.AuRing.Freshness.{push_all, payload, push_all-newest}

-- Two slots of three bytes; slot 1 holds the older access unit.
abbrev full_ring : AuRing
full_ring = record {
  backing = 7 ∷ 8 ∷ 0 ∷ 4 ∷ 5 ∷ 6 ∷ [];
  meta =
      record { pts_us = 20; sequence = 1; is_idr = false; size = 2 }
      ∷ record { pts_us = 10; sequence = 0; is_idr = true; size = 3 }
      ∷ [];
  slot_capacity = 3;
  slot_count = 2;
  head = 1;
  tail = 1;
  count = 2;
  dropped = 0;
  sequence = 2;
}

abbrev fresh : AuRing
fresh = record {
  backing = 0 ∷ 0 ∷ 0 ∷ 0 ∷ 0 ∷ 0 ∷ [];
  meta = no_meta ∷ no_meta ∷ [];
  slot_capacity = 3;
  slot_count = 2;
  head = 0;
  tail = 0;
  count = 0;
  dropped = 0;
  sequence = 0;
}

abbrev stored : AuRing
stored = record full_ring {
  backing = 7 ∷ 8 ∷ 0 ∷ 9 ∷ 5 ∷ 6 ∷ [];
  meta =
      record { pts_us = 20; sequence = 1; is_idr = false; size = 2 }
      ∷ record { pts_us = 30; sequence = 2; is_idr = true; size = 1 }
      ∷ [];
  head = 0;
  tail = 0;
  dropped = 1;
  sequence = 3;
}

overwrites_oldest : push full_ring (some (9 ∷ [])) 1 30 true ≡ some stored
unfolding push make_room store
overwrites_oldest = refl

refuses_too_large : push full_ring (some (1 ∷ 2 ∷ 3 ∷ 4 ∷ [])) 4 30 true ≡ none
unfolding push
refuses_too_large = refl

fits : (i : ℕ) → (get_or full_ring.meta i no_meta).size ≤ 3
fits zero = omega arith
fits (suc zero) = omega arith
fits (suc (suc i)) = omega arith

full_ring-IsValid : IsValid full_ring
full_ring-IsValid = record {
  head_in = omega arith;
  tail_at = omega arith;
  count_in = omega arith;
  metas = refl;
  bytes = refl;
  fits = fits;
}

create-IsValid_example : IsValid fresh × (fresh.count ≡ 0)
unfolding create
create-IsValid_example = create-IsValid (0 ∷ 0 ∷ 0 ∷ 0 ∷ 0 ∷ 0 ∷ []) 3 2 refl refl

push-IsValid_example : IsValid stored
unfolding push make_room store
push-IsValid_example =
    push-IsValid full_ring stored (some (9 ∷ [])) 1 30 true full_ring-IsValid refl

push_refines_example :
    contents stored
    ≡ (7 ∷ 8 ∷ [], record { pts_us = 20; sequence = 1; is_idr = false; size = 2 })
      ∷ (9 ∷ [], record { pts_us = 30; sequence = 2; is_idr = true; size = 1 })
      ∷ []
unfolding enqueue slot push make_room store
push_refines_example =
    (push_refines full_ring stored (9 ∷ []) 1 30 true full_ring-IsValid (omega arith) refl).0

pop-IsValid_example : IsValid (pop full_ring 2).1
pop-IsValid_example = pop-IsValid full_ring 2 full_ring-IsValid

pop_refines_example :
    ((contents full_ring ≡ []) × (pop full_ring 2 ≡ (none, full_ring)))
    ⊎ ((x : AccessUnit) × (contents full_ring ≡ x ∷ contents (pop full_ring 2).1)
        × ((pop full_ring 2).0 ≡ (if leb x.1.size 2 then some x else none)))
pop_refines_example = pop_refines full_ring 2 full_ring-IsValid

-- The oldest access unit has three bytes: it is lost to a buffer of two.
loses_oversize : (pop full_ring 2).0 ≡ none
unfolding pop
loses_oversize = refl

push_all-newest_example :
    map payload (contents stored) ≡ (7 ∷ 8 ∷ [], 20, false) ∷ (9 ∷ [], 30, true) ∷ []
unfolding push_all push make_room store slot
push_all-newest_example =
    (push_all-newest (record { bytes = 9 ∷ []; size = 1; pts_us = 30; is_idr = true } ∷ [])
      full_ring stored full_ring-IsValid (omega arith, tt) refl).0
