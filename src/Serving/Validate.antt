-- ===== src/Serving/Validate.antt =====
-- The checks of the request loop of src/serving/server.cpp, from the parsed request to the inputs of
-- the engine, in the order in which the loop makes them. Each early `send_reply(...); continue` is
-- an `err` with its reason. Lengths of repeated fields are below 2 ^ 31, since a message has at most
-- 64 MiB, so `int` holds them; the sizes of the configuration are products of natural numbers.
pub mod Safe
pub mod Sound
pub mod Complete
use vla_cpp.Common.{
  ℕ, suc, ◌+◌, ◌*◌, ◌%◌, ◌^◌, Bool, true, false, ◌&&◌, ◌||◌, not, Option, none, some, List, [], ◌∷◌,
  map, ltb, leb, ◌==◌, if◌then◌else◌, length, Result, ok, err, ◌>>=◌, ◌>>◌, refuse_if,
}
use vla_cpp.Common.Int.{ℤ, pos, negsuc, is_negative, leb_ℤ, eq_ℤ, to_int}
use vla_cpp.Serving.Message.{
  Image, PredictRequest, ImageView, TimingDetail, Inputs, Config, Refusal, no_images,
  too_many_views, no_language_taken, lang_length, lang_negative, state_length, noise_length,
  emb_views, emb_size, emb_not_finite, state_not_finite, noise_not_finite, image_decode,
  pixel_budget,
}
use vla_cpp.Serving.Decode.{Floats, Stb, size_mul, to_ℕ, find_non_finite, decode_image}

-- `size_t(64) << 20`
abbrev pub max_total_pixels : ℕ
max_total_pixels = 64 * 2 ^ 20

-- `size_t` addition, 64 bits wide.
unfoldable pub size_add : ℕ → ℕ → ℕ
size_add a b = (a + b) % 2 ^ 64

abbrev pub max_views : ℕ
max_views = 16

abbrev pub is_empty {ℓ} : {A : Type ℓ} → List A → Bool
is_empty [] = true
is_empty (x ∷ xs) = false

-- images_size() < 1 && precomputed_img_emb_size() == 0; images_size() > 16
unfoldable pub check_images {ℓ} : {F : Type ℓ} → List Image → List F → Result Refusal (Unit {0})
check_images images emb = do
  refuse_if (is_empty images && is_empty emb) no_images
  refuse_if (ltb max_views (length images)) too_many_views

-- The index of the first negative token.
unfoldable pub first_negative : ℕ → List ℤ → Option ℕ
first_negative i [] = none
first_negative i (t ∷ ts) =
    let later = first_negative (suc i) ts in if is_negative t then some i else later

abbrev pub refuse_some : Option ℕ → (ℕ → Refusal) → Result Refusal (Unit {0})
refuse_some none why = ok tt
refuse_some (some i) why = err (why i)

unfoldable pub check_tokens : ℕ → List ℤ → Result Refusal (Unit {0})
unfolding first_negative
check_tokens n_lang tokens = do
  refuse_if (n_lang == 0 && not (length tokens == 0)) no_language_taken
  refuse_if
      (ltb 0 n_lang && (ltb (length tokens) 1 || not (leb_ℤ (pos (length tokens)) (to_int n_lang))))
      (lang_length (length tokens) n_lang)
  refuse_some (first_negative 0 tokens) lang_negative

unfoldable pub expected_noise_n : Config → ℤ
expected_noise_n cfg = to_int (cfg.n_suffix * cfg.max_action_dim)

unfoldable pub check_lengths {ℓ} :
    {F : Type ℓ} → Config → List F → List F → Result Refusal (Unit {0})
unfolding expected_noise_n
check_lengths cfg state noise = do
  refuse_if (not (eq_ℤ (pos (length state)) (to_int cfg.max_state_dim)))
      (state_length (length state) cfg.max_state_dim)
  refuse_if (not (length noise == 0) && not (eq_ℤ (pos (length noise)) (expected_noise_n cfg)))
      (noise_length (length noise) (expected_noise_n cfg))

module _ (fl : Floats) where
  open fl use {F}

  unfoldable pub check_finite : List F → (ℕ → Refusal) → Result Refusal (Unit {0})
  unfolding find_non_finite
  check_finite xs why = refuse_some (find_non_finite fl xs) why

  -- The branch `if (use_precomputed)`; the result is the count of views.
  unfoldable pub check_precomputed : Config → List F → ℕ → Result Refusal ℕ
  unfolding check_finite
  check_precomputed cfg emb n_views = do
    let views = to_int n_views
    let expected = cfg.n_img * cfg.hidden * to_ℕ views
    refuse_if (not (leb_ℤ (pos 1) views) || not (leb_ℤ views (pos max_views))) (emb_views views)
    refuse_if (not (length emb == expected)) (emb_size (length emb) expected)
    check_finite emb emb_not_finite
    ok (to_ℕ views)

  -- The decoding loop from view `v`, with the pixels of the views before it.
  unfoldable pub decode_views : Stb → ℕ → ℕ → List Image → Result Refusal (List (ImageView F))
  decode_views stb v total [] = ok []
  decode_views stb v total (img ∷ imgs) = elim (decode_image fl stb img) [
    | none ↦ err (image_decode v)
    | some view ↦
        let total' = size_add total (size_mul view.w view.h) in
        let rest = decode_views stb (suc v) total' imgs in
        if ltb max_total_pixels total'
        then err pixel_budget
        else (rest >>= λ views. ok (view ∷ views))
  ]

  -- `noise_vec`, filled only if the noise has the expected length.
  unfoldable pub noise_vec : Config → List F → List F
  unfolding expected_noise_n
  noise_vec cfg noise = if eq_ℤ (pos (length noise)) (expected_noise_n cfg) then noise else []

  abbrev pub non_null : List F → Option (List F)
  non_null [] = none
  non_null (x ∷ xs) = some (x ∷ xs)

  -- What the request gives the engine to see: decoded views, or the embedding and its view count.
  unfoldable pub check_vision :
      Stb → Config → PredictRequest F → Result Refusal (List (ImageView F) × List F × ℕ)
  unfolding check_precomputed decode_views
  check_vision stb cfg req =
      if is_empty req.precomputed_img_emb
      then (decode_views stb 0 0 req.images >>= λ views. ok (views, [], 0))
      else (check_precomputed cfg req.precomputed_img_emb req.precomputed_img_emb_n_views >>= λ n.
          ok ([], req.precomputed_img_emb, n))

  unfoldable pub validate :
      Stb → Config → TimingDetail → PredictRequest F → Result Refusal (Inputs F)
  unfolding check_images check_tokens check_lengths check_vision check_finite noise_vec
  validate stb cfg timing req = do
    check_images req.images req.precomputed_img_emb
    check_tokens cfg.n_lang req.lang_tokens
    check_lengths cfg req.state req.noise
    seen ← check_vision stb cfg req
    check_finite req.state state_not_finite
    check_finite (noise_vec cfg req.noise) noise_not_finite
    ok (record {
      images = seen.0;
      precomputed_img_emb = seen.1;
      n_img_views = seen.2;
      lang_tokens = req.lang_tokens;
      state = req.state;
      noise = non_null (noise_vec cfg req.noise);
      attention_mask = map to_int req.attention_mask;
      timing_detail = timing;
    })
