-- ===== src/WebRtc/Dtls/Queue.antt =====
-- The queue of received records in src/webrtc/dtls_srtp.c as a queue.
use ideal_broccoli.Base.{
  ℕ, ◌+◌, ◌-◌, ◌%◌, ◌≤◌, ◌<◌, ◌≡◌, ◌⊎◌, inl, inr, refl, sym, ap, ap₂, subst, ◌∙◌, Bool, true, false,
  ◌==◌, leb→le, Bool-cases, none, some, List, [], ◌∷◌, ◌++◌, arith, ltb, leb, if◌then◌else◌, length,
  get_or, set, drop, length-set, length-replicate, get_or-set_self, get_or-set_ne,
}
use mathlib.Core.List.{append-nil}
use native.Mathlib.Numerals.{add-one}
use native.Mathlib.Decide.{ℕ_discrete}
use ideal_broccoli.Base.Walk.{walk, length-walk, walk-snoc, walk_congr, walk_of_pos, slots_differ}
use ideal_broccoli.WebRtc.Dtls.{DtlsSrtp, create, drop_oldest, make_room, bio_rx_read, enqueue}

pub record IsValid (d : DtlsSrtp) : Type 0 where
  pub slots : length d.rxq ≡ 64
  pub head_in : d.rx_head < 64
  pub count_in : d.rx_count ≤ 64
  pub tail_at : d.rx_tail ≡ (d.rx_head + d.rx_count) % 64

abbrev pub slot : DtlsSrtp → ℕ → List ℕ
slot d i = get_or d.rxq i []

-- The records that wait, oldest first.
abbrev pub waiting : DtlsSrtp → List (List ℕ)
waiting d = walk 64 (slot d) d.rx_head d.rx_count

pub create-IsValid :
    (fingerprint : List ℕ) → IsValid (create fingerprint) × (waiting (create fingerprint) ≡ [])
unfolding create
create-IsValid fingerprint = (
  record {
    slots = length-replicate {A = List ℕ} 64 [];
    head_in = omega arith;
    count_in = omega arith;
    tail_at = omega arith;
  },
  refl,
)

drop_oldest-IsValid : (d : DtlsSrtp) → IsValid d → 0 < d.rx_count → IsValid (drop_oldest d)
unfolding drop_oldest
drop_oldest-IsValid d v pos = record {
  slots = length-set d.rxq d.rx_head [] ∙ v.slots;
  head_in = omega arith;
  count_in = omega arith;
  tail_at = omega arith;
}

-- The slot that is freed is not one of those that still wait.
waiting-drop_oldest :
    (d : DtlsSrtp)
    → IsValid d
    → 0 < d.rx_count
    → waiting d ≡ slot d d.rx_head ∷ waiting (drop_oldest d)
unfolding drop_oldest
waiting-drop_oldest d v pos =
    walk_of_pos 64 (slot d) d.rx_head d.rx_count pos
    ∙ ap (◌∷◌ (slot d d.rx_head)) (
        sym (
          walk_congr 64 (slot d) (slot (drop_oldest d)) ((d.rx_head + 1) % 64) (d.rx_count - 1)
            (omega arith)
            (λ k small.
              get_or-set_ne d.rxq d.rx_head (((d.rx_head + 1) % 64 + k) % 64) [] [] (omega arith))))

count-drop_oldest : (d : DtlsSrtp) → (drop_oldest d).rx_count ≡ d.rx_count - 1
unfolding drop_oldest
count-drop_oldest d = refl

bio_rx_read_step :
    (size : ℕ) (d : DtlsSrtp)
    → 0 < d.rx_count
    → let packet = slot d d.rx_head in
      ((bio_rx_read size d).1 ≡ drop_oldest d)
      × ((bio_rx_read size d).0 ≡ (if leb (length packet) size then some packet else none))
unfolding bio_rx_read
bio_rx_read_step size d pos =
    let some_wait : (d.rx_count == 0) ≡ false = ground arith in
    elim (Bool-cases (ltb size (length (slot d d.rx_head)))) [
      | inl long ↦
          let test : leb (length (slot d d.rx_head)) size ≡ false = ground (arith, long) in
          rw (bio_rx_read, some_wait, long, test) (refl, refl)
      | inr short ↦
          let test : leb (length (slot d d.rx_head)) size ≡ true = ground (arith, short) in
          rw (bio_rx_read, some_wait, short, test) (refl, refl)
    ]

-- A read of the engine takes the oldest record out of a valid queue, and gets it if it fits the
-- buffer; from an empty queue it gets nothing and changes nothing.
pub bio_rx_read_refines :
    (size : ℕ) (d : DtlsSrtp)
    → IsValid d
    → ((waiting d ≡ []) × (bio_rx_read size d ≡ (none, d)))
      ⊎ ((packet : List ℕ) × (waiting d ≡ packet ∷ waiting (bio_rx_read size d).1)
          × ((bio_rx_read size d).0 ≡ (if leb (length packet) size then some packet else none))
          × IsValid (bio_rx_read size d).1)
unfolding bio_rx_read
bio_rx_read_refines size d v = elim (ℕ_discrete d.rx_count 0) [
  | yes e ↦ inl (ground (arith, e), ground (arith, e))
  | no ne ↦
      let pos : 0 < d.rx_count = omega (arith, ne) in
      let (left, got) = bio_rx_read_step size d pos in
      inr (
        slot d d.rx_head,
        waiting-drop_oldest d v pos ∙ ap (λ q. slot d d.rx_head ∷ waiting q) (sym left),
        got,
        subst IsValid (sym left) (drop_oldest-IsValid d v pos),
      )
]

make_room_refines :
    (d : DtlsSrtp)
    → IsValid d
    → (waiting (make_room d) ≡ drop (length (waiting d) + 1 - 64) (waiting d))
      × IsValid (make_room d)
      × ((make_room d).rx_count < 64)
make_room_refines d v = elim (Bool-cases (leb 64 d.rx_count)) [
  | inl full ↦
      let pos : 0 < d.rx_count = ground (arith, full) in
      let one : length (waiting d) + 1 - 64 ≡ 1 = omega (
        arith,
        length-walk 64 (slot d) d.rx_head d.rx_count,
        v.count_in,
        leb→le 64 d.rx_count full,
      ) in
      rw (full, one)
        (ap (drop 1) (sym (waiting-drop_oldest d v pos)), drop_oldest-IsValid d v pos, fewer)
  | inr room ↦
      let below : d.rx_count < 64 = ground (arith, room) in
      let kept : length (waiting d) + 1 - 64 ≡ 0 =
        omega (arith, length-walk 64 (slot d) d.rx_head d.rx_count) in
      rw (room, kept) (refl, v, below)
]
  where
    fewer : (drop_oldest d).rx_count < 64
    fewer = omega (arith, count-drop_oldest d, v.count_in)

append_refines :
    (packet : List ℕ) (d : DtlsSrtp)
    → IsValid d
    → d.rx_count < 64
    → let d' = record d {
      rxq = set d.rxq d.rx_tail packet;
      rx_tail = (d.rx_tail + 1) % 64;
      rx_count = d.rx_count + 1;
    } in
      (waiting d' ≡ waiting d ++ packet ∷ []) × IsValid d'
append_refines packet d v room = (
  ap (walk 64 at d.rx_head) (add-one d.rx_count)
      ∙ walk-snoc 64 at d.rx_head d.rx_count v.head_in
      ∙ ap₂ (λ (q : List (List ℕ)) (x : List ℕ). q ++ x ∷ [])
          (walk_congr 64 (slot d) at d.rx_head d.rx_count v.head_in others)
          (ap at (sym v.tail_at)
            ∙ get_or-set_self d.rxq d.rx_tail packet [] (omega (arith, v.slots, v.tail_at))),
  record {
    slots = length-set d.rxq d.rx_tail packet ∙ v.slots;
    head_in = v.head_in;
    count_in = omega arith;
    tail_at = omega (arith, v.tail_at);
  },
)
  where
    at : ℕ → List ℕ
    at i = get_or (set d.rxq d.rx_tail packet) i []

    others : (k : ℕ) → k < d.rx_count → at ((d.rx_head + k) % 64) ≡ slot d ((d.rx_head + k) % 64)
    others k p =
        get_or-set_ne d.rxq d.rx_tail ((d.rx_head + k) % 64) packet []
          λ e. slots_differ 64 d.rx_head k d.rx_count v.head_in p room (sym v.tail_at ∙ e)

-- A record that comes in is queued behind the others in a valid queue, if its copy is allocated, and
-- is lost otherwise. Only if 64 wait, the oldest is given up for it, also when it is lost itself.
pub enqueue_refines :
    (allocated : Bool) (packet : List ℕ) (d : DtlsSrtp)
    → IsValid d
    → (waiting (enqueue allocated packet d)
        ≡ drop (length (waiting d) + 1 - 64) (waiting d) ++ (if allocated then packet ∷ [] else []))
      × IsValid (enqueue allocated packet d)
unfolding enqueue
enqueue_refines false packet d v =
    let (kept, valid, room) = make_room_refines d v in
    (kept ∙ sym (append-nil (drop (length (waiting d) + 1 - 64) (waiting d))), valid)
enqueue_refines true packet d v =
    let (kept, valid, room) = make_room_refines d v in
    let (added, valid') = append_refines packet (make_room d) valid room in
    (added ∙ ap (λ q. q ++ packet ∷ []) kept, valid')
