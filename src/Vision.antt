-- ===== src/Vision.antt =====
-- src/modules/preprocess.h: an image view as the planes or the patches that a vision tower reads. Floats
-- are a parameter; a vector that is filled is a function from indices, and `resize` keeps what is in it.
pub mod Loops
pub mod Planes
pub mod Patches
mod Tests
use vla_cpp.Common.{
  ℕ, zero, suc, ◌+◌, ◌*◌, ◌/◌, Bool, true, false, Option, none, some, List, [], ◌∷◌, get_or, ◌==◌,
  ◌&&◌, if◌then◌else◌,
}
use vla_cpp.Common.Int.{ℤ, pos, negsuc, eq_ℤ, ◌*ℤ◌}
use vla_cpp.Common.Loops.{for_range, store}
use vla_cpp.Serving.Message.{Pixels, u8, f32}

-- What the code asks of `float`: the literals, a byte as a float, and three operations.
pub record Arith : Type 1 where
  pub F : Type 0
  pub zero_f : F
  pub one_f : F
  pub two_f : F
  pub half_f : F
  pub of_byte : ℕ → F
  pub sub : F → F → F
  pub mul : F → F → F
  pub div : F → F → F

-- An ImageView: its pixels, `none` for a null pointer, with the format, and its size.
pub record View (F : Type 0) : Type 0 where
  pub pixels : Option (Pixels F)
  pub w : ℤ
  pub h : ℤ

unfoldable pub view_is_side : {F : Type 0} → View F → ℕ → Bool
view_is_side v side = elim v.pixels [
  | none ↦ false
  | some px ↦ eq_ℤ v.w (pos side) && eq_ℤ v.h (pos side)
]

-- `(int64_t) v.w * v.h`, none of a loop for a negative one.
unfoldable pub area : {F : Type 0} → View F → ℕ
unfolding ◌*ℤ◌
area v = elim (v.w *ℤ v.h) [ pos n ↦ n | negsuc n ↦ 0 ]

module _ (fl : Arith) where
  open fl use {F, zero_f, one_f, two_f, half_f, of_byte, sub, mul, div}

  -- An entry of the table of a channel.
  unfoldable pub lut : F → F → ℕ → F
  lut m s k = div (sub (div (of_byte k) (of_byte 255)) m) s

  -- The channel `c` of pixel `i`, with its mean and deviation.
  unfoldable pub plane_value : Pixels F → F → F → ℕ → ℕ → F
  unfolding lut
  plane_value (u8 bytes) m s c i = lut m s (get_or bytes (3 * i + c) 0)
  plane_value (f32 floats) m s c i = div (sub (get_or floats (3 * i + c) zero_f) m) s

  unfoldable pub image_to_chw : Pixels F → ℕ → (ℕ → F) → (ℕ → F) → (ℕ → F) → ℕ → F
  unfolding plane_value for_range store
  image_to_chw px n mean std out =
      for_range 3 0
        (λ c y.
          for_range n 0 (λ i y'. store (c * n + i) (plane_value px (mean c) (std c) c i) y') y)
        out

  -- The floats of the planes with their number; none for a view of another size.
  unfoldable pub preprocess_image_chw :
      View F → ℕ → (ℕ → F) → (ℕ → F) → (ℕ → F) → Option (ℕ × (ℕ → F))
  unfolding view_is_side image_to_chw area
  preprocess_image_chw v side mean std out = elim v.pixels [
    | none ↦ none
    | some px ↦
        if view_is_side v side
        then some (3 * side * side, image_to_chw px (area v) mean std out)
        else none
  ]

  -- The SigLIP convention.
  unfoldable pub preprocess_siglip : View F → ℕ → (ℕ → F) → Option (ℕ × (ℕ → F))
  unfolding preprocess_image_chw
  preprocess_siglip v side out = preprocess_image_chw v side (λ c. half_f) (λ c. half_f) out

  unfoldable pub pixel_at : Pixels F → ℕ → ℕ → ℕ → ℕ → F
  pixel_at (u8 bytes) side r c ch =
      div (of_byte (get_or bytes ((r * side + c) * 3 + ch) 0)) (of_byte 255)
  pixel_at (f32 floats) side r c ch = get_or floats ((r * side + c) * 3 + ch) zero_f

  -- `t*pd+ph*ps*3+pw*3+ch`
  unfoldable pub patch_index : ℕ → ℕ → ℕ → ℕ → ℕ → ℕ → ℕ → ℕ
  patch_index grid ps row col ph pw ch =
      (row * grid + col) * (3 * ps * ps) + ph * ps * 3 + pw * 3 + ch

  unfoldable pub patch_value : Pixels F → ℕ → ℕ → ℕ → ℕ → ℕ → ℕ → ℕ → F
  unfolding pixel_at
  patch_value px side ps row col ph pw ch =
      sub (mul (pixel_at px side (row * ps + ph) (col * ps + pw) ch) two_f) one_f

  -- The loops over the rows and columns of a patch and its channels.
  unfoldable pub fill_patch : Pixels F → ℕ → ℕ → ℕ → ℕ → ℕ → (ℕ → F) → ℕ → F
  unfolding patch_index patch_value for_range store
  fill_patch px side grid ps row col out =
      for_range ps 0
        (λ ph y.
          for_range ps 0
            (λ pw y'.
              for_range 3 0
                (λ ch y''.
                  store (patch_index grid ps row col ph pw ch)
                    (patch_value px side ps row col ph pw ch) y'')
                y')
            y)
        out

  -- The loops over the patches.
  unfoldable pub fill_patches : Pixels F → ℕ → ℕ → ℕ → (ℕ → F) → ℕ → F
  unfolding fill_patch for_range
  fill_patches px side grid ps out =
      for_range grid 0
        (λ row y. for_range grid 0 (λ col y'. fill_patch px side grid ps row col y') y) out

  unfoldable pub preprocess_image_patches : View F → ℕ → ℕ → Option (ℕ × (ℕ → F))
  unfolding view_is_side fill_patches
  preprocess_image_patches v side ps = elim v.pixels [
    | none ↦ none
    | some px ↦
        let grid = side / ps in
        if view_is_side v side
        then some (3 * ps * ps * (grid * grid), fill_patches px side grid ps (λ i. zero_f))
        else none
  ]
