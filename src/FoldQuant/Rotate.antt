-- ===== src/FoldQuant/Rotate.antt =====
-- The block rotation: fq_rot_block_for of src/foldquant.cpp, and fwht_row of src/foldquant_ref.cpp
-- over arrays that are functions from indices.
pub mod Block
use vla_cpp.Common.{
  ℕ, zero, suc, ◌+◌, ◌-◌, ◌*◌, ◌/◌, ◌%◌, Bool, true, false, ◌&&◌, not, ltb, ◌==◌, if◌then◌else◌,
}
use vla_cpp.Common.Int.{ℤ, pos, negsuc}
use vla_cpp.Common.Loops.{for_range}
use vla_cpp.FoldQuant.Floats.{FloatOps}

-- `while (bs > 1 && (K % bs) != 0) bs >>= 1`; the nominal size is fuel enough, since `bs` halves.
unfoldable pub rot_loop : ℕ → ℕ → ℕ → ℕ
rot_loop zero K bs = bs
rot_loop (suc fuel) K bs =
    let rest = rot_loop fuel K (bs / 2) in if ltb 1 bs && not (K % bs == 0) then rest else bs

-- A nominal size that is negative never enters the loop.
unfoldable pub fq_rot_block_for : ℕ → ℤ → ℕ
unfolding rot_loop
fq_rot_block_for K (pos nominal) = let bs = rot_loop nominal K nominal in if ltb bs 2 then 1 else bs
fq_rot_block_for K (negsuc n) = 1

module _ (fl : FloatOps) where
  open fl use {F, add, sub, mul}

  -- `a = v[j], c = v[j + h]; v[j] = a + c; v[j + h] = a - c`
  unfoldable pub butterfly : ℕ → ℕ → (ℕ → F) → ℕ → F
  butterfly h j v k =
      if k == j + h then sub (v j) (v (j + h)) else (if k == j then add (v j) (v (j + h)) else v k)

  -- `for (int i = 0; i < bs; i += 2*h) for (int j = i; j < i + h; ++j)`
  unfoldable pub stage_loop : ℕ → ℕ → ℕ → ℕ → (ℕ → F) → ℕ → F
  unfolding butterfly for_range
  stage_loop zero i h bs v = v
  stage_loop (suc fuel) i h bs v =
      let rest = stage_loop fuel (i + 2 * h) h bs (for_range h i (butterfly h) v) in
      if ltb i bs then rest else v

  -- `for (int h = 1; h < bs; h <<= 1)`
  unfoldable pub fwht_loop : ℕ → ℕ → ℕ → (ℕ → F) → ℕ → F
  unfolding stage_loop
  fwht_loop zero h bs v = v
  fwht_loop (suc fuel) h bs v =
      let rest = fwht_loop fuel (h * 2) bs (stage_loop bs 0 h bs v) in if ltb h bs then rest else v

  -- `for (int j = 0; j < bs; ++j) v[j] = v[j] * inv_sqrt_bs`
  unfoldable pub scale_block : ℕ → F → (ℕ → F) → ℕ → F
  scale_block bs s v k = if ltb k bs then mul (v k) s else v k

  -- One block, at offset `b` of the row.
  unfoldable pub fwht_block : ℕ → F → ℕ → (ℕ → F) → ℕ → F
  unfolding fwht_loop scale_block
  fwht_block bs s b y k =
      if ltb k b then y k else (scale_block bs s (fwht_loop bs 1 bs (λ j. y (b + j))) (k - b))

  -- `for (int64_t b = 0; b < K; b += bs)`
  unfoldable pub fwht_row : ℕ → ℕ → ℕ → ℕ → F → (ℕ → F) → ℕ → F
  unfolding fwht_block
  fwht_row zero b K bs s y = y
  fwht_row (suc fuel) b K bs s y =
      let rest = fwht_row fuel (b + bs) K bs s (fwht_block bs s b y) in if ltb b K then rest else y
