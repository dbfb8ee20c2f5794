-- ===== src/Serving/Validate/Complete.antt =====
-- The requests with camera images that pass every check.
use vla_cpp.Common.{
  ℕ, suc, ◌+◌, ◌*◌, ◌^◌, ◌<◌, ◌≤◌, ◌≡◌, refl, ◌⊎◌, inl, inr, none, some, List, [], ◌∷◌, length, All,
  map, ok, arith,
}
use vla_cpp.Common.Int.{ℤ, to_int, to_int-small}
use vla_cpp.Serving.Message.{
  Image, PredictRequest, ImageView, TimingDetail, Config, Refusal, state_not_finite,
  noise_not_finite,
}
use vla_cpp.Serving.Decode.{Floats, Stb, size_mul, decode_image}
use vla_cpp.Serving.Decode.Bounds.{IsFinite, FillsImage, find_from_of_All, decode_image-IsDecoded}
use vla_cpp.Serving.Validate.{
  size_add, max_total_pixels, max_views, check_images, first_negative, check_tokens, check_lengths,
  check_finite, decode_views, noise_vec, non_null, check_vision, validate,
}
use vla_cpp.Serving.Validate.Safe.{IsSmall, IsToken, TokenCount, total_pixels, step_exact}

first_negative_of_All : (i : ℕ) (ts : List ℤ) → All IsToken ts → first_negative i ts ≡ none
unfolding first_negative
first_negative_of_All i [] h = refl
first_negative_of_All i (t ∷ ts) (p, h) = rw p (first_negative_of_All (suc i) ts h)

check_tokens_complete :
    (n_lang : ℕ) (ts : List ℤ)
    → n_lang < 2 ^ 31
    → TokenCount n_lang (length ts)
    → All IsToken ts
    → check_tokens n_lang ts ≡ ok tt
unfolding check_tokens
check_tokens_complete n_lang ts small count h =
    ground (arith, to_int-small n_lang small, first_negative_of_All 0 ts h)

module _ (fl : Floats) where
  open fl use {F}

  check_finite_complete :
      (xs : List F) (why : ℕ → Refusal) → All (IsFinite fl) xs → check_finite fl xs why ≡ ok tt
  unfolding check_finite
  check_finite_complete xs why h = rw (find_from_of_All fl 0 xs h)

  -- The views that the images decode to, one by one.
  pub data Decodes (stb : Stb) : List Image → List (ImageView F) → Type 0 where
    none_left : Decodes stb [] []
    next :
        {img : Image} {view : ImageView F} {imgs : List Image} {views : List (ImageView F)}
        → decode_image fl stb img ≡ some view
        → Decodes stb imgs views
        → Decodes stb (img ∷ imgs) (view ∷ views)

  decode_views_complete :
      (stb : Stb) (v total : ℕ) {imgs : List Image} {views : List (ImageView F)}
      → FillsImage fl stb
      → Decodes stb imgs views
      → total + total_pixels fl views ≤ max_total_pixels
      → decode_views fl stb v total imgs ≡ ok views
  unfolding decode_views
  decode_views_complete stb v total fills none_left h = refl
  decode_views_complete stb v total fills (next {img} {view} {imgs} {views} decoded rest) h =
      let good = decode_image-IsDecoded fl stb img view fills decoded in
      let exact = step_exact fl total view (omega arith) good in
      let ih =
        decode_views_complete stb (suc v) (size_add total (size_mul view.w view.h)) fills rest
          (omega (arith, exact)) in
      rw (decoded, decode_views) (rw ih (ground (arith, exact)))

  -- A request that shows the camera images `views`, within every limit.
  pub record IsCameraRequest (stb : Stb) (cfg : Config) (req : PredictRequest F)
      (views : List (ImageView F)) : Type 0 where
    pub no_embedding : req.precomputed_img_emb ≡ []
    pub some_image : 1 ≤ length req.images
    pub few_images : length req.images ≤ max_views
    pub decodes : Decodes stb req.images views
    pub within_budget : total_pixels fl views ≤ max_total_pixels
    pub token_count : TokenCount cfg.n_lang (length req.lang_tokens)
    pub tokens : All IsToken req.lang_tokens
    pub state_length : length req.state ≡ cfg.max_state_dim
    pub state_finite : All (IsFinite fl) req.state
    pub noise_length : (req.noise ≡ []) ⊎ (length req.noise ≡ cfg.n_suffix * cfg.max_action_dim)
    pub noise_finite : All (IsFinite fl) req.noise

  module _ (stb : Stb) (fills : FillsImage fl stb) (cfg : Config) (small : IsSmall cfg)
      (req : PredictRequest F) (views : List (ImageView F))
      (camera : IsCameraRequest stb cfg req views) where
    images_pass : check_images req.images req.precomputed_img_emb ≡ ok tt
    unfolding check_images
    images_pass = rw camera.no_embedding (pass req.images camera.some_image camera.few_images)
      where
        pass :
            (imgs : List Image)
            → 1 ≤ length imgs
            → length imgs ≤ max_views
            → check_images {F = F} imgs [] ≡ ok tt
        pass [] a b = absurd (omega arith)
        pass (i ∷ is) a b = ground arith

    lengths_pass : check_lengths cfg req.state req.noise ≡ ok tt
    unfolding check_lengths
    lengths_pass = elim camera.noise_length [
      | inl e ↦
          rw e (ground (arith, to_int-small cfg.max_state_dim small.dims, camera.state_length))
      | inr e ↦ ground (
        arith,
        to_int-small cfg.max_state_dim small.dims,
        to_int-small (cfg.n_suffix * cfg.max_action_dim) small.noise,
        camera.state_length,
      )
    ]

    noise_kept : noise_vec fl cfg req.noise ≡ req.noise
    unfolding noise_vec
    noise_kept = elim camera.noise_length [
      | inl e ↦ rw e (ground arith)
      | inr e ↦ ground (arith, to_int-small (cfg.n_suffix * cfg.max_action_dim) small.noise)
    ]

    vision_pass : check_vision fl stb cfg req ≡ ok (views, [], 0)
    unfolding check_vision
    vision_pass =
        let budget : 0 + total_pixels fl views ≤ max_total_pixels =
          omega (arith, camera.within_budget) in
        rw (camera.no_embedding, decode_views_complete stb 0 0 fills camera.decodes budget)

    -- A request with one to sixteen images that decode within the pixel budget, no embedding, as many
    -- tokens as the model takes and none negative, a finite state of the model's length, and finite
    -- noise of the length of the action chunk or none, passes every check, and the engine is given
    -- exactly its views, tokens, state, noise and mask. It assumes that `int` holds the sizes of the
    -- configuration, and that the JPEG decoder fills the image that it reports.
    pub validate_complete :
        (timing : TimingDetail)
        → validate fl stb cfg timing req
          ≡ ok (record {
            images = views;
            precomputed_img_emb = [];
            n_img_views = 0;
            lang_tokens = req.lang_tokens;
            state = req.state;
            noise = non_null fl req.noise;
            attention_mask = map to_int req.attention_mask;
            timing_detail = timing;
          })
    unfolding validate
    validate_complete timing = simp (
      images_pass,
      check_tokens_complete cfg.n_lang req.lang_tokens small.lang camera.token_count camera.tokens,
      lengths_pass,
      vision_pass,
      check_finite_complete req.state state_not_finite camera.state_finite,
      noise_kept,
      check_finite_complete req.noise noise_not_finite camera.noise_finite,
    )
