-- ===== src/Media/FrameHub/Pictures.antt =====
-- What the consumers see: the newest picture, and no picture that changes while it is held.
use ideal_broccoli.Base.{
  ℕ, suc, ◌+◌, ◌*◌, ◌≤◌, ◌<◌, ◌≡◌, ◌≢◌, sym, ap, ap₂, ◌∙◌, some, List, arith, All, All-mono, length,
  length-take, take, get_or, slice, blit, slice-blit_self, slice-blit_before, slice-blit_after,
  get_or-blit, get_or-take,
}
use native.Mathlib.Decide.{dec_lt}
use ideal_broccoli.Media.FramePool
use ideal_broccoli.Media.FramePool.{FramePool, frame_at}
use ideal_broccoli.Media.FramePool.Invariant.{IsValid}
use ideal_broccoli.Base.Walk.{slots_apart}
use ideal_broccoli.Media.FrameHub.{Consumer, FrameHub, Picture, publish}
use ideal_broccoli.Media.FrameHub.Counters.{Info, info}
use ideal_broccoli.Media.FrameHub.Delivery.{
  holders, Published, picture_info, publish_effect, publish-Published,
}
use ideal_broccoli.Media.FrameHub.Ownership.{World, Consistent, times}

-- The bytes of a frame that are described as valid, and its description.
abbrev pub view_of : List ℕ → ℕ → ℕ → Info → List ℕ × Info
view_of backing capacity f i = (slice backing (f * capacity) i.size, i)

abbrev pub view : FramePool → ℕ → List ℕ × Info
view pool f = view_of pool.backing pool.capacity f (info (frame_at pool f))

lt_of_ne : (f g : ℕ) → ¬ (g < f) → f ≢ g → f < g
lt_of_ne f g h ne = omega arith

module _ {hub hub' : FrameHub} {picture : Picture} {bytes : List ℕ} {rest : ℕ → ℕ} {f : ℕ}
    (p : Published hub hub' picture bytes rest f) where
  -- The frame that was used shows the picture.
  view-published :
      IsValid hub.pool
      → picture.size ≤ length bytes
      → picture.size ≤ hub.pool.capacity
      → view hub'.pool f ≡ (take picture.size bytes, picture_info picture)
  view-published v enough small =
      ap₂ (λ b c. view_of b c f (info (frame_at hub'.pool f))) p.written p.same_capacity
      ∙ ap (view_of written hub.pool.capacity f) p.described
      ∙ ap (λ b. (b, picture_info picture)) (ap (slice written off) (sym taken) ∙ read)
    where
      off : ℕ
      off = f * hub.pool.capacity

      written : List ℕ
      written = blit hub.pool.backing off (take picture.size bytes)

      taken : length (take picture.size bytes) ≡ picture.size
      taken = omega (arith, length-take picture.size bytes)

      read : slice written off (length (take picture.size bytes)) ≡ take picture.size bytes
      read = slice-blit_self hub.pool.backing off (take picture.size bytes) (
          omega (
            arith,
            taken,
            v.bytes_len,
            slots_apart f hub.pool.count picture.size hub.pool.capacity p.inside small,
          ))

  -- Another frame shows what it showed.
  view-other :
      (g : ℕ)
      → f ≢ g
      → picture.size ≤ hub.pool.capacity
      → (frame_at hub.pool g).size ≤ hub.pool.capacity
      → view hub'.pool g ≡ view hub.pool g
  view-other g ne small fits =
      ap₂ (λ b c. view_of b c g (info (frame_at hub'.pool g))) p.written p.same_capacity
      ∙ ap
          (view_of (blit hub.pool.backing (f * hub.pool.capacity) (take picture.size bytes))
            hub.pool.capacity g)
          (p.others g ne)
      ∙ ap (λ b. (b, info (frame_at hub.pool g)))
          (elim (dec_lt g f) [
            | yes lt ↦
                slice-blit_before hub.pool.backing _ (take picture.size bytes)
                  (g * hub.pool.capacity) _ (slots_apart g f _ hub.pool.capacity lt fits)
            | no ge ↦
                slice-blit_after hub.pool.backing _ (take picture.size bytes)
                  (g * hub.pool.capacity) _
                  (omega (
                    arith,
                    length-take picture.size bytes,
                    slots_apart f g picture.size hub.pool.capacity (lt_of_ne f g ge ne) small,
                  ))
          ])

  -- The byte behind the buffer, when the picture is larger.
  byte-published :
      IsValid hub.pool
      → picture.size ≤ length bytes
      → hub.pool.capacity < picture.size
      → 0 < hub.pool.capacity
      → suc f < hub.pool.count
      → get_or hub'.pool.backing (suc f * hub.pool.capacity) 0 ≡ get_or bytes hub.pool.capacity 0
  byte-published v enough large pos inside =
      ap₂ (λ b i. get_or b i 0) p.written next
      ∙ get_or-blit hub.pool.backing off (take picture.size bytes) cap
          (omega (arith, length-take picture.size bytes))
          (omega (
            arith,
            v.bytes_len,
            slots_apart (suc f) hub.pool.count cap cap inside (omega arith),
            next,
          ))
      ∙ get_or-take picture.size bytes cap 0 large
    where
      cap : ℕ
      cap = hub.pool.capacity

      off : ℕ
      off = f * cap

      next : suc f * cap ≡ off + cap
      next = grind arith

-- A mailbox that shows a picture.
abbrev pub Shows : FramePool → List ℕ × Info → Consumer → Type 0
Shows pool v c = (f : ℕ) × (c.slot ≡ some f) × (view pool f ≡ v)

-- When a picture that fits the buffers is published, every mailbox shows that picture, whatever
-- it held before.
pub publish-Shows :
    (w : World) (hub : FrameHub) (picture : Picture) (bytes : List ℕ)
    → Consistent w
    → picture.bytes ≡ some bytes
    → picture.size ≤ length bytes
    → picture.size ≤ w.hub.pool.capacity
    → publish w.hub picture ≡ some hub
    → All (Shows hub.pool (take picture.size bytes, picture_info picture)) hub.consumers
publish-Shows w hub picture bytes k given enough small e =
    let (f, bytes', given', p, on) =
      publish_effect w.hub hub picture (λ g. times g w.taken) k.valid k.linked k.counted e in
    let same : bytes' ≡ bytes = cc in
    let shown : view hub.pool f ≡ (take picture.size bytes', picture_info picture) =
      view-published p k.valid (rw same enough) small in
    All-mono _ _ hub.consumers (λ c h. (f, h.1, rw same at shown)) on

-- A frame that anybody holds, and whose described size fits its buffer, keeps its bytes and its
-- description while the next picture that fits the buffers is published.
pub publish-view_held :
    (w : World) (hub : FrameHub) (picture : Picture) (g : ℕ)
    → Consistent w
    → picture.size ≤ w.hub.pool.capacity
    → publish w.hub picture ≡ some hub
    → 0 < holders g w.hub.consumers + times g w.taken
    → (frame_at w.hub.pool g).size ≤ w.hub.pool.capacity
    → view hub.pool g ≡ view w.hub.pool g
publish-view_held w hub picture g k small e held fits =
    let (f, bytes, given, p, on) =
      publish_effect w.hub hub picture (λ g. times g w.taken) k.valid k.linked k.counted e in
    view-other p g (λ eq. ground (arith, k.counted g, p.was_free)) small fits

-- Nothing in `frame_hub_publish` holds the size against the capacity of a buffer: when the frame
-- that the call acquires is not the last one, the byte at the capacity of a larger picture goes to
-- the first byte of the next frame's buffer, held or not.
pub publish_overruns :
    (w : World) (hub : FrameHub) (picture : Picture) (bytes : List ℕ) (f : ℕ) (pool : FramePool)
    → Consistent w
    → picture.bytes ≡ some bytes
    → picture.size ≤ length bytes
    → w.hub.pool.capacity < picture.size
    → 0 < w.hub.pool.capacity
    → FramePool.acquire w.hub.pool ≡ some (f, pool)
    → suc f < w.hub.pool.count
    → publish w.hub picture ≡ some hub
    → get_or hub.pool.backing (suc f * w.hub.pool.capacity) 0 ≡ get_or bytes w.hub.pool.capacity 0
publish_overruns w hub picture bytes f pool k given enough large pos got inside e =
    let p =
      publish-Published w.hub hub picture bytes (λ g. times g w.taken) f pool k.valid k.counted
        given got e in
    byte-published p k.valid enough large pos inside
