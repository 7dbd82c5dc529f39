-- ===== src/Media/FrameHub/Delivery.antt =====
-- The delivery loop of `frame_hub_publish`, and the whole call.
use ideal_broccoli.Base.{
  ℕ, ◌+◌, ◌*◌, ◌<◌, ◌≡◌, ◌≢◌, refl, ap₂, ◌∙◌, true, some, List, [], ◌∷◌, arith, Bool-cases,
  Option-cases, inl, inr, All, take, blit, length-blit,
}
use ideal_broccoli.Media.FramePool.{Frame, FramePool, frame_at, ref, cleared}
use ideal_broccoli.Media.FramePool
use ideal_broccoli.Media.FramePool.Invariant.{IsValid, refs, put_effect}
use ideal_broccoli.Media.FramePool.Acquire.{acquire_effect}
use ideal_broccoli.Media.FrameHub.{
  Consumer, FrameHub, Picture, fill, mail, deliver, publish, publish_frame,
}
use ideal_broccoli.Media.FrameHub.Counters.{
  Info, info, Quiet, Quiet-refl, Quiet-trans, is, slot_is, ref_counts, unref_counts,
  drop_slot_counts,
}

-- How many mailboxes hold a frame.
abbrev pub holders : ℕ → List Consumer → ℕ
holders g [] = 0
holders g (c ∷ cs) = slot_is c.slot g + holders g cs

module _ (f : ℕ) where
  mail_counts :
      (pool : FramePool) (c : Consumer)
      → IsValid pool
      → 0 < refs pool f
      → ((h : ℕ) → c.slot ≡ some h → 0 < refs pool h)
      → Quiet pool (mail pool f c).0
        × ((g : ℕ)
            → refs (mail pool f c).0 g + slot_is c.slot g
              ≡ refs pool g + slot_is (mail pool f c).1.slot g)
  unfolding mail
  mail_counts pool c v held slot_held = elim (Bool-cases c.active) [
    | inl on ↦
        let (quiet, counts) = ref_counts pool f v held in
        let (quiet', counts') =
          drop_slot_counts (ref pool f) c.slot quiet.valid
            (λ h e. omega (arith, counts h, slot_held h e)) in
        rw on (Quiet-trans quiet quiet', λ g. omega (arith, counts g, counts' g))
    | inr off ↦ rw off (Quiet-refl pool v, λ g. refl)
  ]

  -- `rest` counts the references that are in no mailbox of the list; the publisher's is one.
  deliver_counts :
      (cs : List Consumer) (pool : FramePool) (rest : ℕ → ℕ)
      → IsValid pool
      → 0 < rest f
      → ((g : ℕ) → refs pool g ≡ holders g cs + rest g)
      → Quiet pool (deliver pool f cs).0
        × ((g : ℕ) → refs (deliver pool f cs).0 g ≡ holders g (deliver pool f cs).1 + rest g)
  unfolding deliver
  deliver_counts [] pool rest v mine acc = (Quiet-refl pool v, acc)
  deliver_counts (c ∷ cs) pool rest v mine acc =
      let (quiet, counts) = mail_counts pool c v (omega (arith, acc f)) (λ h e. in_slot h e) in
      let (quiet', counts') =
        deliver_counts cs (mail pool f c).0 (λ g. slot_is (mail pool f c).1.slot g + rest g)
          quiet.valid (omega (arith, mine)) (λ g. omega (arith, counts g, acc g)) in
      (Quiet-trans quiet quiet', λ g. omega (arith, counts' g))
    where
      in_slot : (h : ℕ) → c.slot ≡ some h → 0 < refs pool h
      in_slot h e = ground (arith, acc h)

  mail_all :
      (pool : FramePool) (c : Consumer)
      → c.active ≡ true
      → ((mail pool f c).1.active ≡ true) × ((mail pool f c).1.slot ≡ some f)
  unfolding mail
  mail_all pool c on = ground arith

  -- Every mailbox that is served holds the frame afterwards.
  deliver-All :
      (cs : List Consumer) (pool : FramePool)
      → All (λ c. c.active ≡ true) cs
      → All (λ c. (c.active ≡ true) × (c.slot ≡ some f)) (deliver pool f cs).1
  unfolding deliver
  deliver-All [] pool on = tt
  deliver-All (c ∷ cs) pool on = (mail_all pool c on.0, deliver-All cs (mail pool f c).0 on.1)

abbrev pub picture_info : Picture → Info
picture_info p = record {
  width = p.width;
  height = p.height;
  format = p.format;
  stride = p.stride;
  size = p.size;
  sequence = p.sequence;
  timestamp_us = p.timestamp_us;
}

-- Filling a frame in use: the counters stay, and so do the descriptions of the other frames.
fill_effect :
    (pool : FramePool) (f : ℕ) (picture : Picture) (bytes : List ℕ)
    → IsValid pool
    → 0 < refs pool f
    → IsValid (fill pool f picture bytes)
      × ((g : ℕ) → refs (fill pool f picture bytes) g ≡ refs pool g)
      × (info (frame_at (fill pool f picture bytes) f) ≡ picture_info picture)
      × ((g : ℕ) → f ≢ g → info (frame_at (fill pool f picture bytes) g) ≡ info (frame_at pool g))
unfolding fill
fill_effect pool f picture bytes v held =
    let x : Frame = record (frame_at pool f) {
      width = picture.width;
      height = picture.height;
      format = picture.format;
      stride = picture.stride;
      size = picture.size;
      sequence = picture.sequence;
      timestamp_us = picture.timestamp_us;
    } in
    let (w, at) = put_effect pool f x v held held refl refl in
    (
      record {
        frames_len = w.frames_len;
        free_len = w.free_len;
        bytes_len = omega (
          arith,
          v.bytes_len,
          length-blit pool.backing (frame_at pool f).at (take picture.size bytes),
        );
        all_counted = w.all_counted;
        free_in = w.free_in;
        free_unused = w.free_unused;
        free_once = w.free_once;
        own_index = w.own_index;
        own_bytes = w.own_bytes;
      },
      λ g. ground (arith, at g),
      ground (arith, at f),
      λ g ne. ground (arith, at g),
    )

fill_keeps :
    (pool : FramePool) (f : ℕ) (picture : Picture) (bytes : List ℕ)
    → ((fill pool f picture bytes).backing
        ≡ blit pool.backing (frame_at pool f).at (take picture.size bytes))
      × ((fill pool f picture bytes).capacity ≡ pool.capacity)
      × ((fill pool f picture bytes).count ≡ pool.count)
unfolding fill
fill_keeps pool f picture bytes = (refl, refl, refl)

-- The state after a picture went out in frame `f`. `rest` counts the references outside mailboxes.
pub record Published (hub hub' : FrameHub) (picture : Picture) (bytes : List ℕ) (rest : ℕ → ℕ)
    (f : ℕ) : Type 0 where
  pub inside : f < hub.pool.count
  pub was_free : refs hub.pool f ≡ 0
  pub valid : IsValid hub'.pool
  pub counted : (g : ℕ) → refs hub'.pool g ≡ holders g hub'.consumers + rest g
  pub written :
      hub'.pool.backing ≡ blit hub.pool.backing (f * hub.pool.capacity) (take picture.size bytes)
  pub same_capacity : hub'.pool.capacity ≡ hub.pool.capacity
  pub same_count : hub'.pool.count ≡ hub.pool.count
  pub described : info (frame_at hub'.pool f) ≡ picture_info picture
  pub others : (g : ℕ) → f ≢ g → info (frame_at hub'.pool g) ≡ info (frame_at hub.pool g)

-- The call from the acquired frame on.
publish_acquired :
    (hub : FrameHub) (pool : FramePool) (f : ℕ) (picture : Picture) (bytes : List ℕ) (rest : ℕ → ℕ)
    → IsValid hub.pool
    → ((g : ℕ) → refs hub.pool g ≡ holders g hub.consumers + rest g)
    → FramePool.acquire hub.pool ≡ some (f, pool)
    → let sent = deliver (fill pool f picture bytes) f hub.consumers in
      Published hub
        (record { pool = FramePool.unref sent.0 f; consumers = sent.1 })
        picture
        bytes
        rest
        f
publish_acquired hub pool f picture bytes rest v acc e =
    let (inside, unused, c) = acquire_effect hub.pool pool f v e in
    let held : 0 < refs pool f = ground (arith, c.frame f) in
    let (v', same, shown, kept) = fill_effect pool f picture bytes c.valid held in
    let (quiet, counts) =
      deliver_counts f hub.consumers (fill pool f picture bytes) (λ g. rest g + is f g) v'
        (ground arith) (λ g. ground (arith, same g, c.frame g, acc g, acc f, unused)) in
    let (quiet', counts') =
      unref_counts (deliver (fill pool f picture bytes) f hub.consumers).0 f quiet.valid
        (ground (arith, counts f)) in
    let (put, cap, n) = fill_keeps pool f picture bytes in
    record {
      inside = inside;
      was_free = unused;
      valid = quiet'.valid;
      counted = λ g. omega (arith, counts g, counts' g);
      written =
          quiet'.same_backing
          ∙ quiet.same_backing
          ∙ put
          ∙ ap₂ (λ b o. blit b o (take picture.size bytes)) c.same_backing
              (ground (arith, c.frame f));
      same_capacity = quiet'.same_capacity ∙ quiet.same_capacity ∙ cap ∙ c.same_capacity;
      same_count = quiet'.same_count ∙ quiet.same_count ∙ n ∙ c.same_count;
      described = quiet'.same_info f ∙ quiet.same_info f ∙ shown;
      others =
          λ g ne. quiet'.same_info g ∙ quiet.same_info g ∙ kept g ne ∙ ground (arith, c.frame g);
    }

-- The frame that is used is the one that the pool gives.
pub publish-Published :
    (hub hub' : FrameHub) (picture : Picture) (bytes : List ℕ) (rest : ℕ → ℕ) (f : ℕ)
    (pool : FramePool)
    → IsValid hub.pool
    → ((g : ℕ) → refs hub.pool g ≡ holders g hub.consumers + rest g)
    → picture.bytes ≡ some bytes
    → FramePool.acquire hub.pool ≡ some (f, pool)
    → publish hub picture ≡ some hub'
    → Published hub hub' picture bytes rest f
unfolding publish publish_frame
publish-Published hub hub' picture bytes rest f pool v acc given got e =
    let sent : FramePool × List Consumer = deliver (fill pool f picture bytes) f hub.consumers in
    let same : record { pool = FramePool.unref sent.0 f; consumers = sent.1 } ≡ hub' =
      ground arith in
    rw (← same) (publish_acquired hub pool f picture bytes rest v acc got)

-- Any successful call: which frame it used, and what it left.
pub publish_effect :
    (hub hub' : FrameHub) (picture : Picture) (rest : ℕ → ℕ)
    → IsValid hub.pool
    → All (λ c. c.active ≡ true) hub.consumers
    → ((g : ℕ) → refs hub.pool g ≡ holders g hub.consumers + rest g)
    → publish hub picture ≡ some hub'
    → (f : ℕ) × (bytes : List ℕ) × (picture.bytes ≡ some bytes)
      × Published hub hub' picture bytes rest f
      × All (λ c. (c.active ≡ true) × (c.slot ≡ some f)) hub'.consumers
unfolding publish publish_frame
publish_effect hub hub' picture rest v on acc e = elim (Option-cases picture.bytes) [
  | inl null ↦ ground arith
  | inr (bytes, given) ↦ elim (Option-cases (FramePool.acquire hub.pool)) [
    | inl empty ↦ ground arith
    | inr ((f, pool), got) ↦
        let sent : FramePool × List Consumer =
          deliver (fill pool f picture bytes) f hub.consumers in
        let same : record { pool = FramePool.unref sent.0 f; consumers = sent.1 } ≡ hub' =
          ground arith in
        (
          f,
          bytes,
          given,
          rw (← same) (publish_acquired hub pool f picture bytes rest v acc got),
          rw (← same) (deliver-All f hub.consumers (fill pool f picture bytes) on),
        )
  ]
]
