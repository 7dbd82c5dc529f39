-- ===== src/Media/Yuv/Luma.antt =====
-- Where the conversions of src/media/yuv_convert.c put the samples.
use ideal_broccoli.Base.{
  ℕ, zero, suc, ◌+◌, ◌*◌, ◌/◌, ◌≤◌, ◌<◌, ◌≡◌, ◌≢◌, ◌⊎◌, inl, inr, refl, ap, subst, ◌∙◌, ◌==◌,
  Bool-cases, List, arith, length, length-set, get_or, set, get_or-set_self, get_or-set_ne,
}
use native.Mathlib.Nat.{mul-le-mul_right}
use ideal_broccoli.Media.Yuv.{luma_pixels, luma_rows, chroma_pixels, chroma_rows, yuyv_to_i420}

module _ (src : List ℕ) where
  length-luma_pixels :
      (n at : ℕ) (dst : List ℕ) (out : ℕ) → length (luma_pixels n src at dst out) ≡ length dst
  unfolding luma_pixels
  length-luma_pixels zero at dst out = refl
  length-luma_pixels (suc n) at dst out =
      let first = set dst out (get_or src at 0) in
      length-luma_pixels n (at + 4) (set first (out + 1) (get_or src (at + 2) 0)) (out + 2)
      ∙ length-set first (out + 1) (get_or src (at + 2) 0)
      ∙ length-set dst out (get_or src at 0)

  -- Nothing outside the row is written.
  luma_pixels-outside :
      (n at : ℕ) (dst : List ℕ) (out j : ℕ)
      → (j < out) ⊎ (out + 2 * n ≤ j)
      → get_or (luma_pixels n src at dst out) j 0 ≡ get_or dst j 0
  unfolding luma_pixels
  luma_pixels-outside zero at dst out j h = refl
  luma_pixels-outside (suc n) at dst out j h =
      let first = set dst out (get_or src at 0) in
      luma_pixels-outside n (at + 4) (set first (out + 1) (get_or src (at + 2) 0)) (out + 2) j
        (elim h [ inl l ↦ inl (omega arith) | inr r ↦ inr (omega arith) ])
      ∙ get_or-set_ne first (out + 1) j (get_or src (at + 2) 0) 0 (differ 1 (omega arith))
      ∙ get_or-set_ne dst out j (get_or src at 0) 0
          (λ e. elim h [ inl l ↦ omega arith | inr r ↦ omega arith ])
    where
      differ : (k : ℕ) → k < 2 → out + k ≢ j
      differ k small e = elim h [ inl l ↦ omega arith | inr r ↦ omega arith ]

  -- The two samples of a round.
  luma_pixels-first :
      (n at : ℕ) (dst : List ℕ) (out : ℕ)
      → suc out < length dst
      → (get_or (luma_pixels (suc n) src at dst out) out 0 ≡ get_or src at 0)
        × (get_or (luma_pixels (suc n) src at dst out) (out + 1) 0 ≡ get_or src (at + 2) 0)
  unfolding luma_pixels
  luma_pixels-first n at dst out fits =
      let first = set dst out (get_or src at 0) in
      let both = set first (out + 1) (get_or src (at + 2) 0) in
      (
        luma_pixels-outside n (at + 4) both (out + 2) out (inl (omega arith))
            ∙ get_or-set_ne first (out + 1) out (get_or src (at + 2) 0) 0 (λ e. omega arith)
            ∙ get_or-set_self dst out (get_or src at 0) 0 (omega arith),
        luma_pixels-outside n (at + 4) both (out + 2) (out + 1) (inl (omega arith))
            ∙ get_or-set_self first (out + 1) (get_or src (at + 2) 0) 0
                (omega (arith, length-set dst out (get_or src at 0))),
      )

  -- The sample of each place of the row.
  luma_pixels-inside :
      (n at : ℕ) (dst : List ℕ) (out k : ℕ)
      → k < 2 * n
      → out + 2 * n ≤ length dst
      → get_or (luma_pixels n src at dst out) (out + k) 0 ≡ get_or src (at + 2 * k) 0
  unfolding luma_pixels
  luma_pixels-inside zero at dst out k h fits = absurd (omega arith)
  luma_pixels-inside (suc n) at dst out zero h fits =
      let row = luma_pixels (suc n) src at dst out in
      ap (λ j. get_or row j 0) (shift out)
      ∙ (luma_pixels-first n at dst out (omega arith)).0
      ∙ ap (λ j. get_or src j 0) (source at)
    where
      shift : (o : ℕ) → o + 0 ≡ o
      shift o = omega arith

      source : (a : ℕ) → a ≡ a + 2 * 0
      source a = omega arith
  luma_pixels-inside (suc n) at dst out (suc zero) h fits =
      (luma_pixels-first n at dst out (omega arith)).1
  luma_pixels-inside (suc n) at dst out (suc (suc k)) h fits =
      let first = set dst out (get_or src at 0) in
      let both = set first (out + 1) (get_or src (at + 2) 0) in
      let size =
        length-set first (out + 1) (get_or src (at + 2) 0) ∙ length-set dst out (get_or src at 0) in
      ap (λ j. get_or (luma_pixels n src (at + 4) both (out + 2)) j 0) (shift out k)
      ∙ luma_pixels-inside n (at + 4) both (out + 2) k (omega arith) (omega (arith, size))
      ∙ ap (λ j. get_or src j 0) (source at k)
    where
      shift : (o m : ℕ) → o + suc (suc m) ≡ o + 2 + m
      shift o m = omega arith

      source : (a m : ℕ) → a + 4 + 2 * m ≡ a + 2 * suc (suc m)
      source a m = omega arith

  module _ (src_stride dst_y width : ℕ) where
    luma_rows-before :
        (n row : ℕ) (dst : List ℕ) (j : ℕ)
        → j < dst_y + row * width
        → get_or (luma_rows n src src_stride dst_y width row dst) j 0 ≡ get_or dst j 0
    unfolding luma_rows
    luma_rows-before zero row dst j h = refl
    luma_rows-before (suc n) row dst j h =
        luma_rows-before n (row + 1)
          (luma_pixels (width / 2) src (row * src_stride) dst (dst_y + row * width)) j (omega arith)
        ∙ luma_pixels-outside (width / 2) (row * src_stride) dst (dst_y + row * width) j (inl h)

    -- The sample of each place of the plane.
    luma_rows-inside :
        (n row : ℕ) (dst : List ℕ) (r k : ℕ)
        → row ≤ r
        → r < row + n
        → k < 2 * (width / 2)
        → dst_y + (row + n) * width ≤ length dst
        → get_or (luma_rows n src src_stride dst_y width row dst) (dst_y + r * width + k) 0
          ≡ get_or src (r * src_stride + 2 * k) 0
    unfolding luma_rows
    luma_rows-inside zero row dst r k low high inside fits = absurd (omega arith)
    luma_rows-inside (suc n) row dst r k low high inside fits = elim (Bool-cases (row == r)) [
      | inl same ↦ subst Placed (ground (arith, same)) this_row
      | inr other ↦
          let later : row + 1 ≤ r = ground (arith, other, low) in
          luma_rows-inside n (row + 1) this r k later (omega arith) inside (omega (arith, size))
    ]
      where
        this : List ℕ
        this = luma_pixels (width / 2) src (row * src_stride) dst (dst_y + row * width)

        size : length this ≡ length dst
        size = length-luma_pixels (width / 2) (row * src_stride) dst (dst_y + row * width)

        Placed : ℕ → Type 0
        Placed q =
            get_or (luma_rows n src src_stride dst_y width (row + 1) this) (dst_y + q * width + k) 0
            ≡ get_or src (q * src_stride + 2 * k) 0

        this_row : Placed row
        this_row =
            luma_rows-before n (row + 1) this (dst_y + row * width + k) (omega arith)
            ∙ luma_pixels-inside (width / 2) (row * src_stride) dst (dst_y + row * width) k inside
                (omega arith)

  -- The chroma loops write from the chroma planes on.
  chroma_pixels-before :
      (n row0 row1 : ℕ) (dst : List ℕ) (out_u out_v j : ℕ)
      → j < out_u
      → j < out_v
      → get_or (chroma_pixels n src row0 row1 dst out_u out_v) j 0 ≡ get_or dst j 0
  unfolding chroma_pixels
  chroma_pixels-before zero row0 row1 dst out_u out_v j hu hv = refl
  chroma_pixels-before (suc n) row0 row1 dst out_u out_v j hu hv =
      let u = (get_or src (row0 + 1) 0 + get_or src (row1 + 1) 0 + 1) / 2 in
      let v = (get_or src (row0 + 3) 0 + get_or src (row1 + 3) 0 + 1) / 2 in
      chroma_pixels-before n (row0 + 4) (row1 + 4) (set (set dst out_u u) out_v v) (out_u + 1)
        (out_v + 1) j (omega arith) (omega arith)
      ∙ get_or-set_ne (set dst out_u u) out_v j v 0 (λ e. omega arith)
      ∙ get_or-set_ne dst out_u j u 0 (λ e. omega arith)

  chroma_rows-before :
      (n src_stride dst_u dst_v chroma_w crow : ℕ) (dst : List ℕ) (j : ℕ)
      → j < dst_u
      → j < dst_v
      → get_or (chroma_rows n src src_stride dst_u dst_v chroma_w crow dst) j 0 ≡ get_or dst j 0
  unfolding chroma_rows
  chroma_rows-before zero src_stride dst_u dst_v chroma_w crow dst j hu hv = refl
  chroma_rows-before (suc n) src_stride dst_u dst_v chroma_w crow dst j hu hv =
      let row0 = crow * 2 * src_stride in
      let out_u = dst_u + crow * chroma_w in
      let out_v = dst_v + crow * chroma_w in
      chroma_rows-before n src_stride dst_u dst_v chroma_w (crow + 1)
        (chroma_pixels chroma_w src row0 (row0 + src_stride) dst out_u out_v) j hu hv
      ∙ chroma_pixels-before chroma_w row0 (row0 + src_stride) dst out_u out_v j (omega arith)
          (omega arith)

-- If the luma plane lies in the target before both chroma planes, then after the conversion of a
-- YUYV picture the place of each luma sample, up to the last whole pair of a row, holds the sample
-- at that column of that row of the source: every second byte from the row's start, a stride apart.
pub yuyv_to_i420-luma :
    (src : List ℕ) (src_stride : ℕ) (dst : List ℕ) (dst_y dst_u dst_v width height r k : ℕ)
    → dst_y + height * width ≤ length dst
    → dst_y + height * width ≤ dst_u
    → dst_y + height * width ≤ dst_v
    → r < height
    → k < 2 * (width / 2)
    → get_or
        (yuyv_to_i420 src src_stride dst dst_y dst_u dst_v width height)
        (dst_y + r * width + k)
        0
      ≡ get_or src (r * src_stride + 2 * k) 0
unfolding yuyv_to_i420
yuyv_to_i420-luma src src_stride dst dst_y dst_u dst_v width height r k fits before_u before_v high
      inside =
    chroma_rows-before src (height / 2) src_stride dst_u dst_v (width / 2) 0
      (luma_rows height src src_stride dst_y width 0 dst) (dst_y + r * width + k)
      (omega (arith, below)) (omega (arith, below))
    ∙ luma_rows-inside src src_stride dst_y width height 0 dst r k (omega arith) (omega arith)
        inside (omega arith)
  where
    below : r * width + k < height * width
    below = omega (arith, mul-le-mul_right {m = suc r} {n = height} width high)
