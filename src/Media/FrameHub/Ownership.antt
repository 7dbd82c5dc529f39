-- ===== src/Media/FrameHub/Ownership.antt =====
-- Who refers to which frame, over any sequence of calls by the producer and the consumers.
use ideal_broccoli.Base.{
  ℕ, ◌+◌, ◌==◌, ◌≡◌, refl, sym, ap, true, Option, none, some, ◌>>=◌, List, [], ◌∷◌, ◌++◌, arith,
  Bool-cases, Option-cases, inl, inr, All, All-mono,
}
use ideal_broccoli.Media.FramePool.{FramePool, frame_at}
use ideal_broccoli.Media.FramePool
use ideal_broccoli.Media.FramePool.Invariant.{IsValid, refs, create-IsValid}
use ideal_broccoli.Media.FramePool.Counting.{used-pos}
use native.Mathlib.Decide.{dec_lt}
use ideal_broccoli.Media.FrameHub.{
  Consumer, FrameHub, Picture, drop_slot, find, create, unlink, empty_slot, subscribe, unsubscribe,
  unsubscribe_found, publish, take_frame,
}
use ideal_broccoli.Media.FrameHub.Counters.{is, slot_is, unref_counts, drop_slot_counts}
use ideal_broccoli.Media.FrameHub.Delivery.{holders, publish_effect}

-- The hub, and the frames that consumers took out of mailboxes and have not released, one entry
-- for each time.
pub record World : Type 0 where
  pub hub : FrameHub
  pub taken : List ℕ

pub data Step : World → World → Type 0 where
  publishes :
      {w : World} (picture : Picture) (hub : FrameHub)
      → publish w.hub picture ≡ some hub
      → Step w (record w { hub = hub })
  takes :
      {w : World} (id f : ℕ)
      → (take_frame w.hub id).0 ≡ some f
      → Step w (record { hub = (take_frame w.hub id).1; taken = f ∷ w.taken })
  releases :
      {w : World} (before after : List ℕ) (f : ℕ)
      → w.taken ≡ before ++ f ∷ after
      → Step w (record {
        hub = record (w.hub) { pool = FramePool.unref w.hub.pool f };
        taken = before ++ after;
      })
  subscribes :
      {w : World} (id : ℕ) (hub : FrameHub)
      → subscribe w.hub (some id) ≡ some (id, hub)
      → Step w (record w { hub = hub })
  unsubscribes : {w : World} (id : ℕ) → Step w (record w { hub = unsubscribe w.hub id })

pub data Reach (w : World) : World → Type 0 where
  here : Reach w w
  next : {u v : World} → Reach w u → Step u v → Reach w v

abbrev pub times : ℕ → List ℕ → ℕ
times g [] = 0
times g (f ∷ fs) = is f g + times g fs

-- The pool is valid, every linked consumer is active, and the counter of each frame is the number
-- of mailboxes and of consumers that hold it.
pub record Consistent (w : World) : Type 0 where
  pub valid : IsValid w.hub.pool
  pub linked : All (λ c. c.active ≡ true) w.hub.consumers
  pub counted : (g : ℕ) → refs w.hub.pool g ≡ holders g w.hub.consumers + times g w.taken

times-append : (g : ℕ) (xs ys : List ℕ) → times g (xs ++ ys) ≡ times g xs + times g ys
times-append g [] ys = omega arith
times-append g (x ∷ xs) ys = omega (arith, times-append g xs ys)

abbrev slot_of : ℕ → List Consumer → Option ℕ
slot_of id cs = do c ← find id cs; c.slot

-- An emptied mailbox gives up what it held.
holders-empty_slot :
    (g id : ℕ) (cs : List Consumer)
    → holders g (empty_slot id cs) + slot_is (slot_of id cs) g ≡ holders g cs
unfolding find empty_slot
holders-empty_slot g id [] = omega arith
holders-empty_slot g id (c ∷ cs) = ground (arith, holders-empty_slot g id cs)

linked-empty_slot :
    (id : ℕ) (cs : List Consumer)
    → All (λ c. c.active ≡ true) cs
    → All (λ c. c.active ≡ true) (empty_slot id cs)
unfolding empty_slot
linked-empty_slot id [] on = tt
linked-empty_slot id (c ∷ cs) on = ground (arith, linked-empty_slot id cs on.1)

holders-unlink :
    (g id : ℕ) (c : Consumer) (cs : List Consumer)
    → find id cs ≡ some c
    → holders g (unlink id cs) + slot_is c.slot g ≡ holders g cs
unfolding find unlink
holders-unlink g id c [] e = cc
holders-unlink g id c (x ∷ cs) e = ground (arith, holders-unlink g id c cs)

linked-unlink :
    (id : ℕ) (cs : List Consumer)
    → All (λ c. c.active ≡ true) cs
    → All (λ c. c.active ≡ true) (unlink id cs)
unfolding unlink
linked-unlink id [] on = tt
linked-unlink id (c ∷ cs) on = ground (arith, linked-unlink id cs on.1)

active-find :
    (id : ℕ) (c : Consumer) (cs : List Consumer)
    → All (λ c. c.active ≡ true) cs
    → find id cs ≡ some c
    → c.active ≡ true
unfolding find
active-find id c [] on e = cc
active-find id c (x ∷ cs) on e = ground (arith, active-find id c cs on.1)

unsubscribe-Consistent :
    (w : World) (id : ℕ) → Consistent w → Consistent (record w { hub = unsubscribe w.hub id })
unfolding unsubscribe unsubscribe_found
unsubscribe-Consistent w id k = elim (Option-cases (find id w.hub.consumers)) [
  | inl missing ↦ rw (missing, unsubscribe, unsubscribe_found) k
  | inr (c, found) ↦
      let on : c.active ≡ true = active-find id c w.hub.consumers k.linked found in
      let (quiet, counts) =
        drop_slot_counts w.hub.pool c.slot k.valid
          (λ f e. ground (arith, k.counted f, holders-unlink f id c w.hub.consumers found)) in
      let same : unsubscribe w.hub id
          ≡ record { pool = drop_slot w.hub.pool c.slot; consumers = unlink id w.hub.consumers } =
        ground arith in
      rw same (record {
        valid = quiet.valid;
        linked = linked-unlink id w.hub.consumers k.linked;
        counted =
            λ g. omega (arith, k.counted g, counts g, holders-unlink g id c w.hub.consumers found);
      })
]

-- Every call keeps the counters right.
pub Step-Consistent : {w w' : World} → Step w w' → Consistent w → Consistent w'
unfolding take_frame subscribe
Step-Consistent {w} (publishes picture hub e) k =
    let (f, bytes, given, p, on) =
      publish_effect w.hub hub picture (λ g. times g w.taken) k.valid k.linked k.counted e in
    record {
      valid = p.valid;
      linked =
          All-mono (λ c. (c.active ≡ true) × (c.slot ≡ some f)) (λ c. c.active ≡ true) hub.consumers
            (λ c h. h.0) on;
      counted = p.counted;
    }
Step-Consistent {w} (takes id f e) k = record {
  valid = k.valid;
  linked = linked-empty_slot id w.hub.consumers k.linked;
  counted = λ g.
      omega (arith, k.counted g, holders-empty_slot g id w.hub.consumers, ap (λ s. slot_is s g) e);
}
Step-Consistent {w} (releases before after f e) k =
    let (quiet, counts) =
      unref_counts w.hub.pool f k.valid
        (ground (arith, k.counted f, ap (times f) e, times-append f before (f ∷ after))) in
    record {
      valid = quiet.valid;
      linked = k.linked;
      counted = λ g. omega (
        arith,
        k.counted g,
        counts g,
        ap (times g) e,
        times-append g before (f ∷ after),
        times-append g before after,
      );
    }
Step-Consistent {w} (subscribes id hub e) k =
    let same : record (w.hub) {
      consumers = record { id = id; slot = none; active = true } ∷ w.hub.consumers;
    }
        ≡ hub =
      ground arith in
    rw (← same) (record {
      valid = k.valid;
      linked = (refl, k.linked);
      counted = λ g. omega (arith, k.counted g);
    })
Step-Consistent {w} (unsubscribes id) k = unsubscribe-Consistent w id k

-- Over any sequence of publishing, taking, releasing, subscribing and unsubscribing the counter of
-- each frame is the number of mailboxes and consumers that hold it, and the pool stays valid.
pub Reach-Consistent : {w w' : World} → Reach w w' → Consistent w → Consistent w'
Reach-Consistent here k = k
Reach-Consistent (next r st) k = Step-Consistent st (Reach-Consistent r k)

-- A hub that `frame_hub_create` returns is consistent: no frame is referred to.
pub create-Consistent :
    (capacity count : ℕ) {hub : FrameHub}
    → create true true capacity count ≡ some hub
    → Consistent (record { hub = hub; taken = [] })
unfolding create
create-Consistent capacity count {hub} e =
    elim (Option-cases (FramePool.create true capacity count)) [
      | inl fails ↦ ground arith
      | inr (pool, made) ↦
          let (v, free, n) = create-IsValid capacity count made in
          let same : record { pool = pool; consumers = [] } ≡ hub = ground arith in
          rw (← same) (record {
            valid = v;
            linked = tt;
            counted = λ g. elim (dec_lt 0 (refs pool g)) [
              | yes held ↦ absurd (omega (arith, v.all_counted, used-pos pool.frames g held))
              | no none' ↦ omega arith
            ];
          })
    ]

empty_slot_same : (id : ℕ) (cs : List Consumer) → slot_of id cs ≡ none → empty_slot id cs ≡ cs
unfolding empty_slot find
empty_slot_same id [] e = refl
empty_slot_same id (c ∷ cs) e = elim (Bool-cases (c.id == id)) [
  | inl same ↦
      let vacant : c.slot ≡ none = ground (arith, e, same) in
      rw same (ap (λ x. record c { slot = x } ∷ cs) (sym vacant))
  | inr other ↦
      let later : slot_of id cs ≡ none = ground (arith, e, other) in
      rw other (ap (◌∷◌ c) (empty_slot_same id cs later))
]

-- A take from an empty mailbox changes nothing.
pub empty_mailbox :
    (id : ℕ) (hub : FrameHub) → (take_frame hub id).0 ≡ none → (take_frame hub id).1 ≡ hub
unfolding take_frame
empty_mailbox id hub e =
    ap (λ cs. record hub { consumers = cs }) (empty_slot_same id hub.consumers e)
