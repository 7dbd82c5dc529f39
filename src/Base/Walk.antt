-- ===== src/Base/Walk.antt =====
-- Reading `n` slots of a circular array of `c` slots, from slot `h` on.
use native.Mathlib.Nat.{mod-eq_of_lt, mod-eq-sub-mod, mod-add-mod, add-zero}
use native.Mathlib.Decide.{dec_lt}
use ideal_broccoli.Base.{
  ℕ, zero, suc, ◌+◌, ◌-◌, ◌*◌, ◌%◌, ◌≤◌, ◌<◌, ◌≡◌, ◌≢◌, ◌⊎◌, inl, inr, refl, ap, ap₂, sym, ◌∙◌,
  List, [], ◌∷◌, ◌++◌, arith, length, drop,
}

-- A sum of an index and an offset wraps once at most.
pub mod_cases : (x c : ℕ) → x < c + c → ((x < c) × (x % c ≡ x)) ⊎ ((c ≤ x) × (x % c ≡ x - c))
mod_cases x c h = elim (dec_lt x c) [
  | yes p ↦ inl (p, mod-eq_of_lt p)
  | no p ↦ inr (
    omega arith,
    omega (
      arith,
      mod-eq-sub-mod {n = x} {m = c} (omega arith),
      mod-eq_of_lt {n = x - c} {m = c} (omega arith),
    ),
  )
]

mod-add-zero : (c h : ℕ) → h < c → (h + 0) % c ≡ h
mod-add-zero c h hh = rw (add-zero, mod-eq_of_lt hh)

-- Fewer than `c` steps apart, two slots differ.
pub slots_differ : (c h k n : ℕ) → h < c → k < n → n < c → (h + n) % c ≢ (h + k) % c
slots_differ c h k n hh hk hn e =
    ground (arith, mod_cases (h + k) c (omega arith), mod_cases (h + n) c (omega arith))

pub mod-suc : (c h k : ℕ) → (h + suc k) % c ≡ ((h + 1) % c + k) % c
mod-suc c h k = rw mod-add-mod (ap (λ x. x % c) (omega arith))

-- Slots of equal size do not overlap.
pub slots_apart : (i j s size : ℕ) → i < j → s ≤ size → i * size + s ≤ j * size
slots_apart i j s size h k = grind arith

module _ {ℓ} {A : Type ℓ} (c : ℕ) where
  abbrev pub walk : (ℕ → A) → ℕ → ℕ → List A
  walk at h zero = []
  walk at h (suc n) = at h ∷ walk at ((h + 1) % c) n

  pub length-walk : (at : ℕ → A) (h n : ℕ) → length (walk at h n) ≡ n
  length-walk at h zero = refl
  length-walk at h (suc n) = ap suc (length-walk at ((h + 1) % c) n)

  -- The last slot of a walk.
  pub walk-snoc :
      (at : ℕ → A) (h n : ℕ) → h < c → walk at h (suc n) ≡ walk at h n ++ at ((h + n) % c) ∷ []
  walk-snoc at h zero hh = ap (λ i. at i ∷ []) (sym (mod-add-zero c h hh))
  walk-snoc at h (suc n) hh = ap (◌∷◌ (at h)) (
      walk-snoc at ((h + 1) % c) n (omega arith)
      ∙ ap (λ i. walk at ((h + 1) % c) n ++ at i ∷ []) (sym (mod-suc c h n)))

  -- Two arrays that agree on the slots of a walk give the same items.
  pub walk_congr :
      (at to : ℕ → A) (h n : ℕ)
      → h < c
      → ((k : ℕ) → k < n → to ((h + k) % c) ≡ at ((h + k) % c))
      → walk to h n ≡ walk at h n
  walk_congr at to h zero hh same = refl
  walk_congr at to h (suc n) hh same =
      ap₂ ◌∷◌ (here (same 0 (omega arith)))
        (walk_congr at to ((h + 1) % c) n (omega arith) λ k p. later k (same (suc k) (omega arith)))
    where
      first : (h + 0) % c ≡ h
      first = mod-add-zero c h hh

      here : to ((h + 0) % c) ≡ at ((h + 0) % c) → to h ≡ at h
      here e = rw first at e

      later :
          (k : ℕ)
          → to ((h + suc k) % c) ≡ at ((h + suc k) % c)
          → to (((h + 1) % c + k) % c) ≡ at (((h + 1) % c + k) % c)
      later k e = rw (mod-suc c h k) at e

module _ {ℓ} {A : Type ℓ} (c : ℕ) (at : ℕ → A) (h : ℕ) where
  pub drop-walk : (n : ℕ) → drop 1 (walk c at h n) ≡ walk c at ((h + 1) % c) (n - 1)
  drop-walk zero = refl
  drop-walk (suc n) = ap (walk c at ((h + 1) % c)) (omega arith)

  pub walk_of_pos : (n : ℕ) → 0 < n → walk c at h n ≡ at h ∷ walk c at ((h + 1) % c) (n - 1)
  walk_of_pos zero p = absurd (omega arith)
  walk_of_pos (suc n) p = ap (λ k. at h ∷ walk c at ((h + 1) % c) k) (omega arith)
