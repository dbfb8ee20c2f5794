-- ===== src/Serving/Decode.antt =====
-- decode_image and find_non_finite of src/serving/server.cpp.
-- The JPEG decoder (stb_image) and the float format are parameters.
pub mod Bounds
pub mod Complete
use vla_cpp.Common.{
  ℕ, suc, ◌-◌, ◌*◌, ◌%◌, ◌^◌, Bool, true, false, ◌||◌, not, Option, none, some, List, [], ◌∷◌, ltb,
  ◌==◌, if◌then◌else◌, length, take,
}
use vla_cpp.Common.Int.{ℤ, pos, negsuc, leb_ℤ}
use vla_cpp.Serving.Message.{Image, Pixels, u8, f32, ImageView, jpeg, rgb_u8, f32_rgb_01, unknown}

-- What the server uses of floats: the test `std::isfinite`, and the value of four bytes in memory.
pub record Floats : Type 1 where
  pub F : Type 0
  pub is_finite : F → Bool
  pub of_bytes : ℕ → ℕ → ℕ → ℕ → F

-- stb_image: the header's width and height, and the decoded width, height and 8-bit RGB pixels.
pub record Stb : Type 0 where
  pub info : List ℕ → Option (ℤ × ℤ)
  pub load : List ℕ → Option (ℤ × ℤ × List ℕ)

abbrev pub max_image_dim : ℕ
max_image_dim = 8192

abbrev pub int_max : ℕ
int_max = 2 ^ 31 - 1

-- `size_t` arithmetic, 64 bits wide.
unfoldable pub size_mul : ℕ → ℕ → ℕ
size_mul a b = (a * b) % 2 ^ 64

-- `w <= 0 || h <= 0 || w > int(kMaxImageDim) || h > int(kMaxImageDim)`
unfoldable pub int_dims_bad : ℤ → ℤ → Bool
int_dims_bad w h =
    leb_ℤ w (pos 0)
    || leb_ℤ h (pos 0)
    || not (leb_ℤ w (pos max_image_dim))
    || not (leb_ℤ h (pos max_image_dim))

-- `width() == 0 || height() == 0 || width() > kMaxImageDim || height() > kMaxImageDim`
unfoldable pub dims_bad : ℕ → ℕ → Bool
dims_bad w h = w == 0 || h == 0 || ltb max_image_dim w || ltb max_image_dim h

abbrev pub to_ℕ : ℤ → ℕ
to_ℕ (pos n) = n
to_ℕ (negsuc n) = 0

module _ (fl : Floats) where
  open fl use {F, is_finite, of_bytes}

  -- The floats that `memcpy` leaves in a buffer of floats.
  unfoldable pub floats_of : List ℕ → List F
  floats_of (a ∷ b ∷ c ∷ d ∷ rest) = of_bytes a b c d ∷ floats_of rest
  floats_of _ = []

  -- The loop of find_non_finite from index `i`; `none` for its result -1.
  unfoldable pub find_from : ℕ → List F → Option ℕ
  find_from i [] = none
  find_from i (x ∷ xs) = let later = find_from (suc i) xs in if is_finite x then later else some i

  unfoldable pub find_non_finite : List F → Option ℕ
  unfolding find_from
  find_non_finite xs = find_from 0 xs

  unfoldable pub decode_jpeg : Stb → List ℕ → Option (ImageView F)
  decode_jpeg stb data_ = if ltb int_max (length data_) then none else (elim (stb.info data_) [
    | none ↦ none
    | some (w, h) ↦ if int_dims_bad w h then none else (elim (stb.load data_) [
      | none ↦ none
      | some (w', h', px) ↦
          if int_dims_bad w' h'
          then none
          else (some (record {
            pixels = u8 (take (size_mul (size_mul 3 (to_ℕ w')) (to_ℕ h')) px);
            w = to_ℕ w';
            h = to_ℕ h';
          }))
    ])
  ])

  unfoldable pub decode_rgb : Image → Option (ImageView F)
  decode_rgb img =
      if dims_bad img.width img.height
      then none
      else (if not (length img.bytes == size_mul (size_mul 3 img.width) img.height)
          then none
          else (some (record { pixels = u8 img.bytes; w = img.width; h = img.height })))

  unfoldable pub decode_f32 : Image → Option (ImageView F)
  unfolding find_non_finite floats_of
  decode_f32 img =
      let values = floats_of img.bytes in
      if dims_bad img.width img.height
      then none
      else (if not (length img.bytes == size_mul (size_mul (size_mul 3 img.width) img.height) 4)
          then none
          else (elim (find_non_finite values) [
            | some i ↦ none
            | none ↦ some (record { pixels = f32 values; w = img.width; h = img.height })
          ]))

  unfoldable pub decode_image : Stb → Image → Option (ImageView F)
  unfolding decode_jpeg decode_rgb decode_f32
  decode_image stb img = elim img.encoding [
    | jpeg ↦ decode_jpeg stb img.bytes
    | rgb_u8 ↦ decode_rgb img
    | f32_rgb_01 ↦ decode_f32 img
    | unknown n ↦ none
  ]
