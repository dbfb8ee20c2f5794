-- ===== src/Serving/Decode/Complete.antt =====
-- Which uncompressed images decode_image accepts.
use vla_cpp.Common.{ℕ, ◌*◌, ◌≤◌, ◌≡◌, false, none, some, length, All, arith}
use vla_cpp.Serving.Message.{Image, Encoding, u8, f32, rgb_u8, f32_rgb_01}
use vla_cpp.Serving.Decode.{
  Floats, Stb, max_image_dim, dims_bad, floats_of, find_non_finite, decode_rgb, decode_f32,
  decode_image,
}
use vla_cpp.Serving.Decode.Bounds.{size_mul_exact, IsFinite, find_from_of_All}

-- An uncompressed image as the format describes it.
pub record IsRaw (img : Image) (c : Encoding) (bytes_per_pixel : ℕ) : Type 0 where
  pub encoded : img.encoding ≡ c
  pub w_pos : 1 ≤ img.width
  pub w_max : img.width ≤ max_image_dim
  pub h_pos : 1 ≤ img.height
  pub h_max : img.height ≤ max_image_dim
  pub size : length img.bytes ≡ bytes_per_pixel * (img.width * img.height)

module _ (fl : Floats) (img : Image) where
  dims_good : {c : Encoding} {n : ℕ} → IsRaw img c n → dims_bad img.width img.height ≡ false
  unfolding dims_bad
  dims_good r = ground arith

  decode_rgb-raw :
      IsRaw img rgb_u8 3
      → decode_rgb fl img ≡ some (record { pixels = u8 img.bytes; w = img.width; h = img.height })
  unfolding decode_rgb dims_bad
  decode_rgb-raw r = ground (arith, size_mul_exact img.width img.height)

  decode_f32-raw :
      IsRaw img f32_rgb_01 12
      → find_non_finite fl (floats_of fl img.bytes) ≡ none
      → decode_f32 fl img
        ≡ some (record { pixels = f32 (floats_of fl img.bytes); w = img.width; h = img.height })
  unfolding decode_f32
  decode_f32-raw r clean =
      rw (clean, decode_f32) (ground (arith, dims_good r, size_mul_exact img.width img.height))

  -- Every RGB_U8 image of three bytes for each pixel and both sides in 1..8192 is decoded to its own
  -- bytes, width and height.
  pub decode_image_rgb :
      (stb : Stb)
      → IsRaw img rgb_u8 3
      → decode_image fl stb img
        ≡ some (record { pixels = u8 img.bytes; w = img.width; h = img.height })
  unfolding decode_image
  decode_image_rgb stb r = rw (r.encoded, decode_image) (decode_rgb-raw r)

  -- Every F32_RGB_01 image of twelve bytes for each pixel, both sides in 1..8192 and all values
  -- finite, is decoded to its values, width and height.
  pub decode_image_f32 :
      (stb : Stb)
      → IsRaw img f32_rgb_01 12
      → All (IsFinite fl) (floats_of fl img.bytes)
      → decode_image fl stb img
        ≡ some (record { pixels = f32 (floats_of fl img.bytes); w = img.width; h = img.height })
  unfolding decode_image find_non_finite
  decode_image_f32 stb r finite =
      rw (r.encoded, decode_image) (decode_f32-raw r (find_from_of_All fl 0 _ finite))
