-- ===== src/Vlm/Request.antt =====
-- What src/serving/vlm-server.cpp checks of a ChatRequest before it calls the engine. stb_image is a
-- parameter.
pub mod Bounded
use vla_cpp.Common.{
  ℕ, suc, ◌+◌, ◌-◌, ◌*◌, ◌%◌, ◌^◌, min, Bool, true, false, not, ◌||◌, Option, none, some, List, [],
  ◌∷◌, length, take, ltb, ◌==◌, if◌then◌else◌, Result, ok, err, ◌>>=◌, ◌>>◌, refuse_if,
}
use vla_cpp.Common.Int.{ℤ, pos, negsuc, leb_ℤ}
use vla_cpp.HfFetch.Names.{Str}
use vla_cpp.Serving.Decode.{Stb, int_dims_bad, dims_bad, size_mul, to_ℕ, int_max}
use vla_cpp.Vlm.{
  ChatMessage, Encoding, jpeg, rgb_u8, other_encoding, Image, Sampling, ChatRequest, Picture, Why,
  no_messages, too_many_messages, text_too_large, too_many_images, over_budget, jpeg_dims,
  jpeg_decode, rgb_dims, rgb_size, unknown_encoding,
}

-- `size_t(64) << 20`
abbrev pub max_total_pixels : ℕ
max_total_pixels = 64 * 2 ^ 20

-- `if ((total_px += w*h) > kMaxTotalPixels)`: the total, or the refusal.
unfoldable pub add_pixels : ℕ → ℕ → ℕ → Result Why ℕ
unfolding size_mul
add_pixels total w h =
    let sum = (total + size_mul w h) % 2 ^ 64 in
    if ltb max_total_pixels sum then err over_budget else ok sum

-- The header first, since the decoder allocates before it checks anything.
unfoldable pub take_jpeg : Stb → ℕ → Str → ℕ → Result Why (Picture × ℕ)
unfolding int_dims_bad size_mul add_pixels
take_jpeg stb v d total = do
  refuse_if (ltb int_max (length d)) (jpeg_dims v)
  elim (stb.info d) [
    | none ↦ err (jpeg_dims v)
    | some (jw, jh) ↦ do
      refuse_if (int_dims_bad jw jh) (jpeg_dims v)
      sum ← add_pixels total (to_ℕ jw) (to_ℕ jh)
      elim (stb.load d) [
        | none ↦ err (jpeg_decode v)
        | some (w, h, px) ↦ ok (
          record {
            width = to_ℕ w;
            height = to_ℕ h;
            rgb = take (size_mul (size_mul 3 (to_ℕ w)) (to_ℕ h)) px;
          },
          sum,
        )
      ]
  ]

unfoldable pub take_rgb : ℕ → Image → ℕ → Result Why (Picture × ℕ)
unfolding dims_bad size_mul add_pixels
take_rgb v im total = do
  refuse_if (dims_bad im.width im.height) (rgb_dims v)
  refuse_if (not (length im.bytes == size_mul (size_mul 3 im.width) im.height)) (rgb_size v)
  sum ← add_pixels total im.width im.height
  ok (record { width = im.width; height = im.height; rgb = im.bytes }, sum)

unfoldable pub take_as : Encoding → Stb → ℕ → Image → ℕ → Result Why (Picture × ℕ)
unfolding take_jpeg take_rgb
take_as jpeg stb v im total = take_jpeg stb v im.bytes total
take_as rgb_u8 stb v im total = take_rgb v im total
take_as other_encoding stb v im total = err (unknown_encoding v)

-- The loop over the images from the `v`th, with the pixels so far.
unfoldable pub take_images : Stb → ℕ → List Image → ℕ → Result Why (List Picture)
unfolding take_as
take_images stb v [] total = ok []
take_images stb v (im ∷ images) total = do
  taken ← take_as im.encoding stb v im total
  rest ← take_images stb (suc v) images taken.1
  ok (taken.0 ∷ rest)

unfoldable pub text_bytes : List ChatMessage → ℕ
text_bytes [] = 0
text_bytes (m ∷ messages) = (length m.content + text_bytes messages) % 2 ^ 64

-- Every check between the parsing and the engine: the decoded images.
unfoldable pub check_request : {K : Type 0} → Stb → ChatRequest K → Result Why (List Picture)
unfolding text_bytes take_images
check_request stb req = do
  refuse_if (ltb (length req.messages) 1) no_messages
  refuse_if (ltb 512 (length req.messages)) too_many_messages
  refuse_if (ltb (4 * 1024 * 1024) (text_bytes req.messages)) text_too_large
  refuse_if (ltb 16 (length req.images)) too_many_images
  take_images stb 0 req.images 0

-- vlm::SamplingParams, with the defaults of src/vlm/engine.h where the request has none.
unfoldable pub sampling_params : {K : Type 0} → K → ℤ → Option (Sampling K) → Sampling K
sampling_params defaults n_ctx none = record {
  knobs = defaults;
  max_tokens = pos 256;
  seed = 2 ^ 32 - 1;
}
sampling_params defaults n_ctx (some s) =
    let cap = if leb_ℤ n_ctx (pos 0) then 4096 else to_ℕ n_ctx in
    let want = if leb_ℤ s.max_tokens (pos 0) then 256 else to_ℕ s.max_tokens in
    record {
      knobs = s.knobs;
      max_tokens = pos (min want cap);
      seed = if s.seed == 0 then 2 ^ 32 - 1 else s.seed % 2 ^ 32;
    }
