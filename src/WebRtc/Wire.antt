-- ===== src/WebRtc/Wire.antt =====
-- Big-endian words in packets: `read_be16`, `read_be32`, `write_be16` and `write_be32`, which
-- src/webrtc/rtcp.c, rtp_h264.c and ice_lite.c each define. A read outside the buffer is `none`.
-- The shifted bytes that C joins by `|` have no bit in common, so they are added.
use native.Mathlib.Nat.{add-zero}
use ideal_broccoli.Base.{
  ℕ, suc, ◌+◌, ◌*◌, ◌/◌, ◌%◌, ◌^◌, ◌≤◌, ◌<◌, ◌≡◌, ap, ◌∙◌, Option, some, ◌>>=◌, List, [], ◌∷◌, ◌++◌,
  arith, length, get_elem?, get_or, get_elem?-eq-get_or,
}

unfoldable pub read_be16 : List ℕ → ℕ → Option ℕ
read_be16 p i = do a ← get_elem? p i; b ← get_elem? p (i + 1); some (a * 256 + b)

unfoldable pub read_be32 : List ℕ → ℕ → Option ℕ
read_be32 p i = do
  a ← get_elem? p i
  b ← get_elem? p (i + 1)
  c ← get_elem? p (i + 2)
  d ← get_elem? p (i + 3)
  some (a * 2 ^ 24 + b * 2 ^ 16 + c * 256 + d)

-- The bytes that are written.
abbrev pub write_be16 : ℕ → List ℕ
write_be16 v = v / 256 % 256 ∷ v % 256 ∷ []

abbrev pub write_be32 : ℕ → List ℕ
write_be32 v = v / 2 ^ 24 % 256 ∷ v / 2 ^ 16 % 256 ∷ v / 256 % 256 ∷ v % 256 ∷ []

-- A read inside the buffer succeeds.
pub read_be16_inside :
    (p : List ℕ) (i : ℕ)
    → i + 2 ≤ length p
    → read_be16 p i ≡ some (get_or p i 0 * 256 + get_or p (i + 1) 0)
unfolding read_be16
read_be16_inside p i h =
    ground (
      arith,
      get_elem?-eq-get_or p i 0 (omega arith),
      get_elem?-eq-get_or p (i + 1) 0 (omega arith),
    )

pub read_be32_inside : (p : List ℕ) (i : ℕ) → i + 4 ≤ length p → (v : ℕ) × (read_be32 p i ≡ some v)
unfolding read_be32
read_be32_inside p i h = (
  get_or p i 0 * 2 ^ 24
      + get_or p (i + 1) 0 * 2 ^ 16
      + get_or p (i + 2) 0 * 256
      + get_or p (i + 3) 0,
  ground (
    arith,
    get_elem?-eq-get_or p i 0 (omega arith),
    get_elem?-eq-get_or p (i + 1) 0 (omega arith),
    get_elem?-eq-get_or p (i + 2) 0 (omega arith),
    get_elem?-eq-get_or p (i + 3) 0 (omega arith),
  ),
)

-- The four bytes of a word make it up again.
pub be32_parts :
    (v : ℕ)
    → v < 2 ^ 32
    → v / 2 ^ 24 % 256 * 2 ^ 24 + v / 2 ^ 16 % 256 * 2 ^ 16 + v / 256 % 256 * 256 + v % 256 ≡ v
be32_parts v h = omega arith

-- An item behind a prefix.
pub get_elem?-append {ℓ} :
    {A : Type ℓ} (xs ys : List A) (i : ℕ) → get_elem? (xs ++ ys) (length xs + i) ≡ get_elem? ys i
get_elem?-append [] ys i = ap (get_elem? ys) (omega arith)
get_elem?-append (x ∷ xs) ys i = ap (get_elem? (x ∷ xs ++ ys)) shift ∙ get_elem?-append xs ys i
  where
    shift : suc (length xs) + i ≡ suc (length xs + i)
    shift = omega arith

module _ (xs ys : List ℕ) where
  -- What was written behind a prefix is read back.
  pub read_be16-write :
      (v : ℕ) → v < 2 ^ 16 → read_be16 (xs ++ (write_be16 v ++ ys)) (length xs) ≡ some v
  unfolding read_be16
  read_be16-write v h =
      let at = get_elem?-append xs (write_be16 v ++ ys) in ground (arith, start (at 0), at 1)
    where
      start :
          get_elem? (xs ++ (write_be16 v ++ ys)) (length xs + 0) ≡ some (v / 256 % 256)
          → get_elem? (xs ++ (write_be16 v ++ ys)) (length xs) ≡ some (v / 256 % 256)
      start e = rw add-zero at e

  pub read_be32-write :
      (v : ℕ) → v < 2 ^ 32 → read_be32 (xs ++ (write_be32 v ++ ys)) (length xs) ≡ some v
  unfolding read_be32
  read_be32-write v h =
      let at = get_elem?-append xs (write_be32 v ++ ys) in
      ground (arith, start (at 0), at 1, at 2, at 3)
    where
      start :
          get_elem? (xs ++ (write_be32 v ++ ys)) (length xs + 0) ≡ some (v / 2 ^ 24 % 256)
          → get_elem? (xs ++ (write_be32 v ++ ys)) (length xs) ≡ some (v / 2 ^ 24 % 256)
      start e = rw add-zero at e
