-- ===== src/Media/Yuv.antt =====
-- src/media/yuv_convert.c: frames into the planar I420 buffer of the encoder. The three planes lie
-- in one buffer, so a pointer to a plane is its offset; the source pointers are the lists that
-- begin where they point to.
pub mod Luma
mod Tests
use ideal_broccoli.Base.{ℕ, zero, suc, ◌+◌, ◌*◌, ◌/◌, List, get_or, set, take, drop, blit}

-- The inner loop over the luma of a row, with the rounds that are left.
luma_pixels : ℕ → List ℕ → ℕ → List ℕ → ℕ → List ℕ
luma_pixels zero src at dst out = dst
luma_pixels (suc n) src at dst out =
    luma_pixels n src (at + 4)
      (set (set dst out (get_or src at 0)) (out + 1) (get_or src (at + 2) 0)) (out + 2)

luma_rows : ℕ → List ℕ → ℕ → ℕ → ℕ → ℕ → List ℕ → List ℕ
luma_rows zero src src_stride dst_y width row dst = dst
luma_rows (suc n) src src_stride dst_y width row dst =
    luma_rows n src src_stride dst_y width (row + 1)
      (luma_pixels (width / 2) src (row * src_stride) dst (dst_y + row * width))

-- The inner loop over the chroma of two rows.
chroma_pixels : ℕ → List ℕ → ℕ → ℕ → List ℕ → ℕ → ℕ → List ℕ
chroma_pixels zero src row0 row1 dst out_u out_v = dst
chroma_pixels (suc n) src row0 row1 dst out_u out_v =
    let u = get_or src (row0 + 1) 0 + get_or src (row1 + 1) 0 in
    let v = get_or src (row0 + 3) 0 + get_or src (row1 + 3) 0 in
    chroma_pixels n src (row0 + 4) (row1 + 4)
      (set (set dst out_u ((u + 1) / 2)) out_v ((v + 1) / 2)) (out_u + 1) (out_v + 1)

chroma_rows : ℕ → List ℕ → ℕ → ℕ → ℕ → ℕ → ℕ → List ℕ → List ℕ
chroma_rows zero src src_stride dst_u dst_v chroma_w crow dst = dst
chroma_rows (suc n) src src_stride dst_u dst_v chroma_w crow dst =
    let row0 = crow * 2 * src_stride in
    chroma_rows n src src_stride dst_u dst_v chroma_w (crow + 1) (
      chroma_pixels chroma_w src row0 (row0 + src_stride) dst (dst_u + crow * chroma_w)
        (dst_v + crow * chroma_w))

pub yuyv_to_i420 : List ℕ → ℕ → List ℕ → ℕ → ℕ → ℕ → ℕ → ℕ → List ℕ
yuyv_to_i420 src src_stride dst dst_y dst_u dst_v width height =
    chroma_rows (height / 2) src src_stride dst_u dst_v (width / 2) 0
      (luma_rows height src src_stride dst_y width 0 dst)

-- The loop over the rows of a plane: `stride` bytes apart in the source, `width` in the target.
copy_luma : ℕ → List ℕ → ℕ → ℕ → ℕ → ℕ → List ℕ → List ℕ
copy_luma zero src stride dst_y width row dst = dst
copy_luma (suc n) src stride dst_y width row dst =
    copy_luma n src stride dst_y width (row + 1)
      (blit dst (dst_y + row * width) (take width (drop (row * stride) src)))

copy_chroma : ℕ → List ℕ → List ℕ → ℕ → ℕ → ℕ → ℕ → List ℕ → List ℕ
copy_chroma zero src_u src_v dst_u dst_v chroma_w crow dst = dst
copy_chroma (suc n) src_u src_v dst_u dst_v chroma_w crow dst =
    let at = crow * chroma_w in
    copy_chroma n src_u src_v dst_u dst_v chroma_w (crow + 1) (
      blit (blit dst (dst_u + at) (take chroma_w (drop at src_u))) (dst_v + at)
        (take chroma_w (drop at src_v)))

pub i420_copy : List ℕ → ℕ → List ℕ → List ℕ → List ℕ → ℕ → ℕ → ℕ → ℕ → ℕ → List ℕ
i420_copy src_y src_y_stride src_u src_v dst dst_y dst_u dst_v width height =
    copy_chroma (height / 2) src_u src_v dst_u dst_v (width / 2) 0
      (copy_luma height src_y src_y_stride dst_y width 0 dst)
