-- ===== src/Media/Yuv/Tests.antt =====
-- A picture of two rows of one macropixel each.
use ideal_broccoli.Base.{ℕ, ◌+◌, ◌*◌, ◌≡◌, refl, List, [], ◌∷◌, arith, get_or, replicate}
use ideal_broccoli.Media.Yuv.{
  yuyv_to_i420, luma_pixels, luma_rows, chroma_pixels, chroma_rows, i420_copy, copy_luma,
  copy_chroma,
}
use ideal_broccoli.Media.Yuv.Luma.{yuyv_to_i420-luma}

abbrev picture : List ℕ
picture = 10 ∷ 100 ∷ 11 ∷ 200 ∷ 12 ∷ 103 ∷ 13 ∷ 202 ∷ []

converted : yuyv_to_i420 picture 4 (replicate 6 0) 0 4 5 2 2 ≡ 10 ∷ 11 ∷ 12 ∷ 13 ∷ 102 ∷ 201 ∷ []
unfolding yuyv_to_i420 luma_pixels luma_rows chroma_pixels chroma_rows
converted = refl

-- A planar picture with rows of three bytes.
copied :
    i420_copy (10 ∷ 11 ∷ 0 ∷ 12 ∷ 13 ∷ 0 ∷ []) 3 (100 ∷ []) (200 ∷ []) (replicate 6 0) 0 4 5 2 2
    ≡ 10 ∷ 11 ∷ 12 ∷ 13 ∷ 100 ∷ 200 ∷ []
unfolding i420_copy copy_luma copy_chroma
copied = refl

yuyv_to_i420-luma_example :
    get_or (yuyv_to_i420 picture 4 (replicate 6 0) 0 4 5 2 2) (0 + 1 * 2 + 1) 0
    ≡ get_or picture (1 * 4 + 2 * 1) 0
yuyv_to_i420-luma_example =
    yuyv_to_i420-luma picture 4 (replicate 6 0) 0 4 5 2 2 1 1 (omega arith) (omega arith)
      (omega arith) (omega arith) (omega arith)
