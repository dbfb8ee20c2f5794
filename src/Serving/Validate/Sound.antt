-- ===== src/Serving/Validate/Sound.antt =====
-- What reaches the engine has passed every check.
use vla_cpp.Common.{
  ℕ, ◌*◌, ◌≤◌, ◌≡◌, refl, ◌⊎◌, List, [], ◌∷◌, length, All, ok, ◌>>=◌, >>=-eq-ok, ok-injective,
  arith,
}
use vla_cpp.Serving.Message.{
  Image, PredictRequest, ImageView, TimingDetail, Inputs, Config, emb_not_finite, state_not_finite,
  noise_not_finite,
}
use vla_cpp.Serving.Decode.{Floats, Stb}
use vla_cpp.Serving.Decode.Bounds.{IsFinite, IsDecoded, FillsImage}
use vla_cpp.Serving.Validate.{
  max_total_pixels, max_views, check_images, check_finite, check_precomputed, decode_views,
  check_tokens, check_lengths, check_vision, validate, noise_vec,
}
use vla_cpp.Serving.Validate.Safe.{
  IsSmall, IsToken, TokenCount, NoiseFits, total_pixels, check_tokens_sound, check_lengths_sound,
  check_finite_sound, noise_vec-NoiseFits, decode_views_sound,
}

module _ (fl : Floats) where
  open fl use {F}

  -- One to sixteen decoded views within the pixel budget and no embedding, or no view and a finite
  -- embedding of the size that one to sixteen views have.
  pub data Vision (cfg : Config) : List (ImageView F) → List F → ℕ → Type 0 where
    seen :
        {views : List (ImageView F)}
        → 1 ≤ length views
        → length views ≤ max_views
        → All (IsDecoded fl) views
        → total_pixels fl views ≤ max_total_pixels
        → Vision cfg views [] 0
    embedded :
        {emb : List F} {n : ℕ}
        → 1 ≤ n
        → n ≤ max_views
        → length emb ≡ cfg.n_img * cfg.hidden * n
        → All (IsFinite fl) emb
        → Vision cfg [] emb n

  pub record IsSafe (cfg : Config) (inp : Inputs F) : Type 0 where
    pub vision : Vision cfg inp.images inp.precomputed_img_emb inp.n_img_views
    pub token_count : TokenCount cfg.n_lang (length inp.lang_tokens)
    pub tokens : All IsToken inp.lang_tokens
    pub state_length : length inp.state ≡ cfg.max_state_dim
    pub state_finite : All (IsFinite fl) inp.state
    pub noise : NoiseFits fl cfg inp.noise

  check_images_sound :
      (images : List Image) (emb : List F) {u : Unit {0}}
      → check_images images emb ≡ ok u
      → ((1 ≤ length images) ⊎ (1 ≤ length emb)) × (length images ≤ max_views)
  unfolding check_images
  check_images_sound [] [] e = ground arith
  check_images_sound [] (x ∷ emb) e = ground arith
  check_images_sound (i ∷ is) emb e = ground arith

  check_precomputed_sound :
      (cfg : Config) (emb : List F) (views n : ℕ)
      → check_precomputed fl cfg emb views ≡ ok n
      → Vision cfg [] emb n
  unfolding check_precomputed
  check_precomputed_sound cfg emb views n e =
      embedded (ground arith) (ground arith) (ground arith)
        (ground (arith, check_finite_sound fl emb emb_not_finite))

  -- A result of check_vision, as the three fields of the inputs that it fills.
  abbrev VisionOf : Config → List (ImageView F) × List F × ℕ → Type 0
  VisionOf cfg r = Vision cfg r.0 r.1 r.2

  module _ (stb : Stb) (fills : FillsImage fl stb) (cfg : Config) where
    vision_views :
        (imgs : List Image) (r : List (ImageView F) × List F × ℕ)
        → 1 ≤ length imgs
        → length imgs ≤ max_views
        → (decode_views fl stb 0 0 imgs >>= λ views. ok (views, [], 0)) ≡ ok r
        → VisionOf cfg r
    vision_views imgs r some_image few e =
        let (views, decoded, same) = >>=-eq-ok (decode_views fl stb 0 0 imgs) _ e in
        let (all, budget, count) =
          decode_views_sound fl stb fills 0 0 imgs views (omega arith) decoded in
        rw (← ok-injective same)
          (seen (omega (arith, count)) (omega (arith, count)) all (omega arith))

    vision_embedding :
        (emb : List F) (n_views : ℕ) (r : List (ImageView F) × List F × ℕ)
        → (check_precomputed fl cfg emb n_views >>= λ n. ok ([], emb, n)) ≡ ok r
        → VisionOf cfg r
    vision_embedding emb n_views r e =
        let (n, checked, same) = >>=-eq-ok (check_precomputed fl cfg emb n_views) _ e in
        rw (← ok-injective same) (check_precomputed_sound cfg emb n_views n checked)

    check_vision_sound :
        (req : PredictRequest F) (r : List (ImageView F) × List F × ℕ) {u : Unit {0}}
        → check_images req.images req.precomputed_img_emb ≡ ok u
        → check_vision fl stb cfg req ≡ ok r
        → VisionOf cfg r
    unfolding check_vision
    check_vision_sound req r h e = by_embedding req.precomputed_img_emb refl
      where
        by_embedding : (given : List F) → req.precomputed_img_emb ≡ given → VisionOf cfg r
        by_embedding [] same =
            let (one, few) = check_images_sound req.images [] (rw same at h) in
            vision_views req.images r (omega arith) few (rw (same, check_vision) at e)
        by_embedding (x ∷ xs) same =
            vision_embedding (x ∷ xs) req.precomputed_img_emb_n_views r
              (rw (same, check_vision) at e)

    -- If the checks let a request through, the inputs that they build are safe: one to sixteen views
    -- of bounded size or a finite embedding of the exact size, tokens that are not negative and as
    -- many as the model takes, a finite state of the model's length, and noise that is absent or
    -- finite and of the length of the action chunk. It assumes that `int` holds the sizes of the
    -- configuration, and that the JPEG decoder fills the image that it reports.
    pub validate-IsSafe :
        (timing : TimingDetail) (req : PredictRequest F) (inp : Inputs F)
        → IsSmall cfg
        → validate fl stb cfg timing req ≡ ok inp
        → IsSafe cfg inp
    unfolding validate
    validate-IsSafe timing req inp small e =
        let (_, images_ok, e₁) = >>=-eq-ok (check_images req.images req.precomputed_img_emb) _ e in
        let (_, tokens_ok, e₂) = >>=-eq-ok (check_tokens cfg.n_lang req.lang_tokens) _ e₁ in
        let (_, lengths_ok, e₃) = >>=-eq-ok (check_lengths cfg req.state req.noise) _ e₂ in
        let (r, vision_ok, e₄) = >>=-eq-ok (check_vision fl stb cfg req) _ e₃ in
        let (_, state_ok, e₅) = >>=-eq-ok (check_finite fl req.state state_not_finite) _ e₄ in
        let (_, noise_ok, e₆) =
          >>=-eq-ok (check_finite fl (noise_vec fl cfg req.noise) noise_not_finite) _ e₅ in
        let (count, tokens) = check_tokens_sound cfg.n_lang req.lang_tokens small.lang tokens_ok in
        rw (← ok-injective e₆) (record {
          vision = check_vision_sound req r images_ok vision_ok;
          token_count = count;
          tokens = tokens;
          state_length = check_lengths_sound cfg req.state req.noise small lengths_ok;
          state_finite = check_finite_sound fl req.state state_not_finite state_ok;
          noise = noise_vec-NoiseFits fl cfg req.noise noise_not_finite small noise_ok;
        })
