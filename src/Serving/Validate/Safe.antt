-- ===== src/Serving/Validate/Safe.antt =====
-- Inputs that are fit for the engine, and that the checks let nothing else through.
use vla_cpp.Common.{
  ℕ, suc, ◌+◌, ◌*◌, ◌^◌, ◌≤◌, ◌<◌, ◌≡◌, ◌⊎◌, inl, inr, false, Option, none, some, List, [], ◌∷◌,
  length, All, ok, >>=-eq-ok, err-ne-ok, ok-injective, arith, Option-cases, Bool-cases, ltb,
}
use vla_cpp.Common.Int.{ℤ, is_negative, to_int-small}
use vla_cpp.Serving.Message.{Image, ImageView, Config, Refusal}
use vla_cpp.Serving.Decode.{Floats, Stb, size_mul, decode_image}
use vla_cpp.Serving.Decode.Bounds.{
  IsFinite, IsDecoded, FillsImage, find_from-eq-none, decode_image-IsDecoded,
}
use vla_cpp.Serving.Validate.{
  size_add, max_total_pixels, first_negative, check_tokens, check_lengths, check_finite,
  decode_views, noise_vec, non_null,
}

-- The sizes of a configuration that `int` holds.
pub record IsSmall (cfg : Config) : Type 0 where
  pub lang : cfg.n_lang < 2 ^ 31
  pub dims : cfg.max_state_dim < 2 ^ 31
  pub noise : cfg.n_suffix * cfg.max_action_dim < 2 ^ 31

abbrev pub IsToken : ℤ → Type 0
IsToken t = is_negative t ≡ false

abbrev pub TokenCount : ℕ → ℕ → Type 0
TokenCount n_lang n = ((n_lang ≡ 0) × (n ≡ 0)) ⊎ ((1 ≤ n) × (n ≤ n_lang))

first_negative-eq-none : (i : ℕ) (ts : List ℤ) → first_negative i ts ≡ none → All IsToken ts
unfolding first_negative
first_negative-eq-none i [] e = tt
first_negative-eq-none i (t ∷ ts) e = ground (arith, first_negative-eq-none (suc i) ts)

pub check_tokens_sound :
    (n_lang : ℕ) (ts : List ℤ) {u : Unit {0}}
    → n_lang < 2 ^ 31
    → check_tokens n_lang ts ≡ ok u
    → TokenCount n_lang (length ts) × All IsToken ts
unfolding check_tokens
check_tokens_sound n_lang ts small e =
    ground (arith, to_int-small n_lang small, first_negative-eq-none 0 ts)

pub check_lengths_sound :
    {F : Type 0} (cfg : Config) (state noise : List F) {u : Unit {0}}
    → IsSmall cfg
    → check_lengths cfg state noise ≡ ok u
    → length state ≡ cfg.max_state_dim
unfolding check_lengths
check_lengths_sound cfg state noise small e =
    ground (arith, to_int-small cfg.max_state_dim small.dims)

module _ (fl : Floats) where
  open fl use {F}

  pub check_finite_sound :
      (xs : List F) (why : ℕ → Refusal) {u : Unit {0}}
      → check_finite fl xs why ≡ ok u
      → All (IsFinite fl) xs
  unfolding check_finite
  check_finite_sound xs why e = ground (arith, find_from-eq-none fl 0 xs)

  -- The noise is absent, or has a float for each number of the action chunk, all finite.
  abbrev pub NoiseFits : Config → Option (List F) → Type 0
  NoiseFits cfg none = Unit
  NoiseFits cfg (some xs) = (length xs ≡ cfg.n_suffix * cfg.max_action_dim) × All (IsFinite fl) xs

  pub noise_vec-NoiseFits :
      (cfg : Config) (noise : List F) (why : ℕ → Refusal) {u : Unit {0}}
      → IsSmall cfg
      → check_finite fl (noise_vec fl cfg noise) why ≡ ok u
      → NoiseFits cfg (non_null fl (noise_vec fl cfg noise))
  unfolding noise_vec
  noise_vec-NoiseFits cfg [] why small e = ground arith
  noise_vec-NoiseFits cfg (x ∷ xs) why small e = ground (
    arith,
    to_int-small (cfg.n_suffix * cfg.max_action_dim) small.noise,
    check_finite_sound (x ∷ xs) why,
  )

  abbrev pub total_pixels : List (ImageView F) → ℕ
  total_pixels [] = 0
  total_pixels (v ∷ vs) = v.w * v.h + total_pixels vs

  pub step_exact :
      (total : ℕ) (v : ImageView F)
      → total ≤ max_total_pixels
      → IsDecoded fl v
      → size_add total (size_mul v.w v.h) ≡ total + v.w * v.h
  unfolding size_add size_mul
  step_exact total v h d = omega (arith, area v.w v.h d.w_max d.h_max)
    where
      area : (w h : ℕ) → w ≤ 8192 → h ≤ 8192 → w * h ≤ 2 ^ 26
      area w h p q = grind arith

  module _ (stb : Stb) (fills : FillsImage fl stb) where
    -- A loop that succeeds decodes the first image within the budget, and then the others.
    decode_views_cons :
        (v total : ℕ) (img : Image) (imgs : List Image) (views : List (ImageView F))
        → decode_views fl stb v total (img ∷ imgs) ≡ ok views
        → (view : ImageView F) × (rest : List (ImageView F)) × (decode_image fl stb img ≡ some view)
          × (size_add total (size_mul view.w view.h) ≤ max_total_pixels)
          × (decode_views fl stb (suc v) (size_add total (size_mul view.w view.h)) imgs ≡ ok rest)
          × (view ∷ rest ≡ views)
    unfolding decode_views
    decode_views_cons v total img imgs views e = elim (Option-cases (decode_image fl stb img)) [
      | inl failed ↦ ground arith
      | inr (view, decoded) ↦
          let total' = size_add total (size_mul view.w view.h) in
          let e' = rw (decoded, decode_views) at e in
          elim (Bool-cases (ltb max_total_pixels total')) [
            | inl over ↦ absurd (err-ne-ok (rw over at e'))
            | inr within ↦
                let (rest, later, same) = >>=-eq-ok _ _ (rw within at e') in
                (view, rest, decoded, ground arith, later, ok-injective same)
          ]
    ]

    pub decode_views_sound :
        (v total : ℕ) (imgs : List Image) (views : List (ImageView F))
        → total ≤ max_total_pixels
        → decode_views fl stb v total imgs ≡ ok views
        → All (IsDecoded fl) views
          × (total + total_pixels views ≤ max_total_pixels)
          × (length views ≡ length imgs)
    unfolding decode_views
    decode_views_sound v total [] views h e = ground arith
    decode_views_sound v total (img ∷ imgs) views h e =
        let (view, rest, decoded, within, later, same) =
          decode_views_cons v total img imgs views e in
        let good = decode_image-IsDecoded fl stb img view fills decoded in
        let (all, budget, count) = decode_views_sound (suc v) _ imgs rest within later in
        rw (← same)
          ((good, all), omega (arith, step_exact total view h good, budget), omega (arith, count))
