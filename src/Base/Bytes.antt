-- ===== src/Base/Bytes.antt =====
-- Buffers of bytes: a copy into the middle (`memcpy`), a copy out, and big-endian words.
use Prim.Native.Char.{code}
use Prim.Native.String.{String}
use Prim.Native.Nat.{ℕ, zero, suc, ◌+◌, ◌<◌, ◌≤◌}
use mathlib.Core.Path.{◌≡◌, refl, ap, ap₂}
use mathlib.Core.Bool.{Bool, true, false, ◌&&◌}
use ideal_broccoli.Base.Tests.{◌==◌}
use mathlib.Core.List.{List, [], ◌∷◌}
use native.Mathlib.Omega.{arith}
use ideal_broccoli.Base.Lists.{length, get_or, take, drop, length-take, length-drop}

-- The `n` bytes from `off` on.
abbrev pub slice : List ℕ → ℕ → ℕ → List ℕ
slice buf off n = take n (drop off buf)

-- `memcpy(buf + off, src, length src)`. What would fall outside the buffer is not written.
abbrev pub blit : List ℕ → ℕ → List ℕ → List ℕ
blit [] off src = []
blit (b ∷ buf) off [] = b ∷ buf
blit (b ∷ buf) zero (x ∷ src) = x ∷ blit buf zero src
blit (b ∷ buf) (suc off) (x ∷ src) = b ∷ blit buf off (x ∷ src)

pub length-blit : (buf : List ℕ) (off : ℕ) (src : List ℕ) → length (blit buf off src) ≡ length buf
length-blit [] off src = refl
length-blit (b ∷ buf) off [] = refl
length-blit (b ∷ buf) zero (x ∷ src) = ap suc (length-blit buf zero src)
length-blit (b ∷ buf) (suc off) (x ∷ src) = ap suc (length-blit buf off (x ∷ src))

-- What was copied in is read back.
pub slice-blit_self :
    (buf : List ℕ) (off : ℕ) (src : List ℕ)
    → off + length src ≤ length buf
    → slice (blit buf off src) off (length src) ≡ src
slice-blit_self [] off [] h = refl
slice-blit_self [] off (x ∷ src) h = absurd (omega arith)
slice-blit_self (b ∷ buf) off [] h = refl
slice-blit_self (b ∷ buf) zero (x ∷ src) h = ap (◌∷◌ x) (slice-blit_self buf 0 src (omega arith))
slice-blit_self (b ∷ buf) (suc off) (x ∷ src) h = slice-blit_self buf off (x ∷ src) (omega arith)

-- A copy does not touch what lies before it,
pub slice-blit_before :
    (buf : List ℕ) (off : ℕ) (src : List ℕ) (o n : ℕ)
    → o + n ≤ off
    → slice (blit buf off src) o n ≡ slice buf o n
slice-blit_before [] off src o n h = refl
slice-blit_before (b ∷ buf) off [] o n h = refl
slice-blit_before (b ∷ buf) zero (x ∷ src) zero zero h = refl
slice-blit_before (b ∷ buf) zero (x ∷ src) zero (suc n) h = absurd (omega arith)
slice-blit_before (b ∷ buf) zero (x ∷ src) (suc o) n h = absurd (omega arith)
slice-blit_before (b ∷ buf) (suc off) (x ∷ src) zero zero h = refl
slice-blit_before (b ∷ buf) (suc off) (x ∷ src) zero (suc n) h =
    ap (◌∷◌ b) (slice-blit_before buf off (x ∷ src) 0 n (omega arith))
slice-blit_before (b ∷ buf) (suc off) (x ∷ src) (suc o) n h =
    slice-blit_before buf off (x ∷ src) o n (omega arith)

-- nor what lies behind it.
pub slice-blit_after :
    (buf : List ℕ) (off : ℕ) (src : List ℕ) (o n : ℕ)
    → off + length src ≤ o
    → slice (blit buf off src) o n ≡ slice buf o n
slice-blit_after [] off src o n h = refl
slice-blit_after (b ∷ buf) off [] o n h = refl
slice-blit_after (b ∷ buf) zero (x ∷ src) zero n h = absurd (omega arith)
slice-blit_after (b ∷ buf) zero (x ∷ src) (suc o) n h = slice-blit_after buf 0 src o n (omega arith)
slice-blit_after (b ∷ buf) (suc off) (x ∷ src) zero n h = absurd (omega arith)
slice-blit_after (b ∷ buf) (suc off) (x ∷ src) (suc o) n h =
    slice-blit_after buf off (x ∷ src) o n (omega arith)

pub length-slice : (buf : List ℕ) (off n : ℕ) → off + n ≤ length buf → length (slice buf off n) ≡ n
length-slice buf off n h = omega (arith, length-take n (drop off buf), length-drop off buf)

-- The byte that a copy puts at a place.
pub get_or-blit :
    (buf : List ℕ) (off : ℕ) (src : List ℕ) (k : ℕ)
    → k < length src
    → off + k < length buf
    → get_or (blit buf off src) (off + k) 0 ≡ get_or src k 0
get_or-blit [] off src k h l = absurd (omega arith)
get_or-blit (b ∷ buf) off [] k h l = absurd (omega arith)
get_or-blit (b ∷ buf) zero (x ∷ src) zero h l = refl
get_or-blit (b ∷ buf) zero (x ∷ src) (suc k) h l =
    let shift : 0 + suc k ≡ suc (0 + k) = omega arith in
    rw shift (get_or-blit buf 0 src k (omega arith) (omega arith))
get_or-blit (b ∷ buf) (suc off) (x ∷ src) k h l =
    let shift : suc off + k ≡ suc (off + k) = omega arith in
    rw shift (get_or-blit buf off (x ∷ src) k h (omega arith))

-- `memcmp(a, b, n) == 0` on two blocks of one length, and the comparison of whole strings.
abbrev pub list_eq : List ℕ → List ℕ → Bool
list_eq [] [] = true
list_eq [] (y ∷ ys) = false
list_eq (x ∷ xs) [] = false
list_eq (x ∷ xs) (y ∷ ys) = x == y && list_eq xs ys

pub list_eq_refl : (xs : List ℕ) → list_eq xs xs ≡ true
list_eq_refl [] = refl
list_eq_refl (x ∷ xs) = ground (arith, list_eq_refl xs)

pub list_eq-eq : (xs ys : List ℕ) → list_eq xs ys ≡ true → xs ≡ ys
list_eq-eq [] [] h = refl
list_eq-eq [] (y ∷ ys) h = absurd (ground arith)
list_eq-eq (x ∷ xs) [] h = absurd (ground arith)
list_eq-eq (x ∷ xs) (y ∷ ys) h = ap₂ ◌∷◌ (ground arith) (list_eq-eq xs ys (ground arith))

-- The bytes of a function, and a buffer as the function that reads it.
abbrev pub tabulate : ℕ → (ℕ → ℕ) → List ℕ
tabulate zero f = []
tabulate (suc n) f = f 0 ∷ tabulate n λ k. f (suc k)

pub tabulate-get_or : (n : ℕ) (xs : List ℕ) → length xs ≡ n → tabulate n (λ k. get_or xs k 0) ≡ xs
tabulate-get_or zero [] h = refl
tabulate-get_or zero (x ∷ xs) h = absurd (omega arith)
tabulate-get_or (suc n) [] h = absurd (omega arith)
tabulate-get_or (suc n) (x ∷ xs) h = ap (◌∷◌ x) (tabulate-get_or n xs (omega arith))

-- A text as its bytes; those of the code are ASCII.
abbrev pub text : String → List ℕ
text String.[] = []
text (String.◌∷◌ c s) = code c ∷ text s
