-- ===== src/Media/AuRing/Freshness.antt =====
-- Whatever is pushed, the ring holds the newest access units.
use mathlib.Core.List.{map, map-append, append_assoc, append-nil}
use native.Mathlib.Decide.{ℕ_discrete}
use ideal_broccoli.Base.{
  ℕ, zero, suc, ◌+◌, ◌-◌, ◌≤◌, ◌<◌, ◌≡◌, refl, sym, ap, ap₂, ◌∙◌, Bool, Option, some, ◌>>=◌, List,
  [], ◌∷◌, ◌++◌, arith, All, length, length-append, length-drop, take, drop, Option-cases, inl, inr,
}
use ideal_broccoli.Media.AuRing.{AuRing, AccessUnit, push, store, make_room}
use ideal_broccoli.Media.AuRing.Invariant.{IsValid}
use ideal_broccoli.Media.AuRing.Refine.{contents, length-contents, enqueue, push_refines}

-- One call of `au_ring_push`.
pub record Push : Type 0 where
  pub bytes : List ℕ
  pub size : ℕ
  pub pts_us : ℕ
  pub is_idr : Bool

-- A sequence of calls, `none` if one is refused.
unfoldable pub push_all : AuRing → List Push → Option AuRing
push_all ring [] = some ring
push_all ring (p ∷ ps) = push ring (some p.bytes) p.size p.pts_us p.is_idr >>= λ r. push_all r ps

-- What a reader sees of an access unit, its number aside.
abbrev pub Payload : Type 0
Payload = List ℕ × ℕ × Bool

abbrev pub payload : AccessUnit → Payload
payload x = (x.0, x.1.pts_us, x.1.is_idr)

abbrev pub given : Push → Payload
given p = (take p.size p.bytes, p.pts_us, p.is_idr)

-- The last `n` entries.
abbrev pub newest {ℓ} : {A : Type ℓ} → ℕ → List A → List A
newest n q = drop (length q - n) q

module _ {ℓ} {A : Type ℓ} where
  drop-append :
      (a k : ℕ) (q xs : List A) → k ≤ length q → drop a (drop k q ++ xs) ≡ drop (a + k) (q ++ xs)
  drop-append a zero q xs h = ap (λ m. drop m (q ++ xs)) (omega arith)
  drop-append a (suc k) [] xs h = absurd (omega arith)
  drop-append a (suc k) (x ∷ q) xs h =
      drop-append a k q xs (omega arith) ∙ ap (λ m. drop m (x ∷ q ++ xs)) (shift a)
    where
      shift : (m : ℕ) → suc (m + k) ≡ m + suc k
      shift m = omega arith

  -- Older entries that were given up do not matter.
  newest-append : (n : ℕ) (q xs : List A) → newest n (newest n q ++ xs) ≡ newest n (q ++ xs)
  newest-append n q xs =
      drop-append (length (newest n q ++ xs) - n) (length q - n) q xs (omega arith)
      ∙ ap (λ m. drop m (q ++ xs))
          (omega (
            arith,
            length-append {ℓ} (newest n q) xs,
            length-append {ℓ} q xs,
            length-drop {ℓ} (length q - n) q,
          ))

  newest_all : (n : ℕ) (q : List A) → length q ≤ n → newest n q ≡ q
  newest_all n q h = dropped (length q - n) (omega arith)
    where
      dropped : (k : ℕ) → k ≡ 0 → drop k q ≡ q
      dropped k e = rw e

length-map {ℓ κ} :
    {A : Type ℓ} {B : Type κ} (f : A → B) (xs : List A) → length (map f xs) ≡ length xs
length-map f [] = refl
length-map f (x ∷ xs) = ap suc (length-map f xs)

map-drop {ℓ κ} :
    {A : Type ℓ} {B : Type κ} (f : A → B) (n : ℕ) (xs : List A)
    → map f (drop n xs) ≡ drop n (map f xs)
map-drop f zero xs = refl
map-drop f (suc n) [] = refl
map-drop f (suc n) (x ∷ xs) = map-drop f n xs

enqueue-newest :
    (n : ℕ) (q : List AccessUnit) (x : AccessUnit)
    → 0 < n
    → length q ≤ n
    → enqueue n q x ≡ newest n (q ++ x ∷ [])
unfolding enqueue
enqueue-newest n q x pos h = elim (ℕ_discrete (length q) n) [
  | yes e ↦ ground (
    arith,
    drop-append 0 1 q (x ∷ []) (omega arith),
    at_one (length (q ++ x ∷ []) - n) (omega (arith, length-append {0} q (x ∷ []))),
  )
  | no ne ↦ ground (arith, newest_all n (q ++ x ∷ []) (omega (arith, length-append {0} q (x ∷ []))))
]
  where
    at_one : (k : ℕ) → k ≡ 1 → drop k (q ++ x ∷ []) ≡ drop 1 (q ++ x ∷ [])
    at_one k e = rw e

slots-push :
    (ring ring' : AuRing) (p : Push)
    → push ring (some p.bytes) p.size p.pts_us p.is_idr ≡ some ring'
    → ring'.slot_count ≡ ring.slot_count
unfolding push store make_room
slots-push ring ring' p e = ground arith

push-newest :
    (ring ring' : AuRing) (p : Push)
    → IsValid ring
    → p.size ≤ length p.bytes
    → push ring (some p.bytes) p.size p.pts_us p.is_idr ≡ some ring'
    → map payload (contents ring')
      ≡ newest ring.slot_count (map payload (contents ring) ++ given p ∷ [])
push-newest ring ring' p v enough e =
    ap (map payload) (
      (push_refines ring ring' p.bytes p.size p.pts_us p.is_idr v enough e).0
      ∙ enqueue-newest ring.slot_count (contents ring) _ (omega (arith, v.head_in))
          (omega (arith, length-contents ring, v.count_in)))
    ∙ map-drop payload _ (contents ring ++ _ ∷ [])
    ∙ ap₂ drop
        (ap (λ m. m - ring.slot_count)
          (sym (length-map payload (contents ring ++ _ ∷ [])) ∙ ap length joined))
        joined
  where
    joined :
        map payload (
          contents ring
          ++ (
            take p.size p.bytes,
            record {
              pts_us = p.pts_us;
              sequence = ring.sequence;
              is_idr = p.is_idr;
              size = p.size;
            },
          )
            ∷ [])
        ≡ map payload (contents ring) ++ given p ∷ []
    joined = map-append payload (contents ring) _

-- After any sequence of accepted pushes the ring holds, oldest first, the newest access units of
-- those that it held and those that were pushed, as many as it has slots; it is valid again.
pub push_all-newest :
    (ps : List Push) (ring ring' : AuRing)
    → IsValid ring
    → All (λ p. p.size ≤ length p.bytes) ps
    → push_all ring ps ≡ some ring'
    → (map payload (contents ring')
        ≡ newest ring.slot_count (map payload (contents ring) ++ map given ps))
      × IsValid ring'
unfolding push_all
push_all-newest [] ring ring' v enough e =
    let same : ring ≡ ring' = cc in
    rw (← same, append-nil)
      (
        sym (
            newest_all ring.slot_count (map payload (contents ring)) (
              omega (arith, v.count_in, length-contents ring, length-map payload (contents ring)))),
        v,
      )
push_all-newest (p ∷ ps) ring ring' v enough e =
    elim (Option-cases (push ring (some p.bytes) p.size p.pts_us p.is_idr)) [
      | inl none' ↦ ground arith
      | inr (r, er) ↦
          let v' = (push_refines ring r p.bytes p.size p.pts_us p.is_idr v enough.0 er).1 in
          let (ih, valid) = push_all-newest ps r ring' v' enough.1 (rw er at e) in
          (
            ih
                ∙ ap₂ (λ n q. newest n (q ++ map given ps)) (slots-push ring r p er)
                    (push-newest ring r p v enough.0 er)
                ∙ newest-append ring.slot_count (map payload (contents ring) ++ given p ∷ [])
                    (map given ps)
                ∙ ap (newest ring.slot_count)
                    (append_assoc (map payload (contents ring)) (given p ∷ []) (map given ps)),
            valid,
          )
    ]
