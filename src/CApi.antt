-- ===== src/CApi.antt =====
-- The C interface of src/vla_c_api.cpp and include/vla.h. The engine behind it, src/model.h, is a parameter that
-- may throw; a null pointer is `none`, and an array that the caller owns a function from indices.
pub mod Outcomes
mod Tests
use vla_cpp.Common.{
  ℕ, zero, suc, ◌+◌, Bool, true, false, not, ◌||◌, ◌&&◌, Option, none, some, List, [], ◌∷◌, length,
  if◌then◌else◌,
}
use vla_cpp.Common.Int.{ℤ, pos, negsuc, eq_ℤ, leb_ℤ, is_negative}
use vla_cpp.HfFetch.Names.{Str}
use vla_cpp.Serving.Decode.{to_ℕ}

-- A C++ call: it returns a value, or throws.
pub data Called {ℓ} (A : Type ℓ) : Type ℓ where
  returned : A → Called A
  threw : Called A

-- vla_status.
abbrev pub vla_ok : ℤ
vla_ok = pos 0

abbrev pub err_arg : ℤ
err_arg = negsuc 0

abbrev pub err_predict : ℤ
err_predict = negsuc 1

abbrev pub err_exception : ℤ
err_exception = negsuc 2

pub data PixelFormat : Type 0 where
  u8 f32_rgb_01 : PixelFormat

pub data TimingDetail : Type 0 where
  no_detail phase : TimingDetail

-- vla_image; `P` is a pointer that is only passed on.
pub record CImage (P : Type 0) : Type 0 where
  pub pixels : P
  pub w : ℤ
  pub h : ℤ
  pub format : ℤ

pub record ImageView (P : Type 0) : Type 0 where
  pub pixels : P
  pub w : ℤ
  pub h : ℤ
  pub format : PixelFormat

-- vla_inputs.
pub record CInputs (P : Type 0) : Type 0 where
  pub images : Option (ℕ → CImage P)
  pub n_images : ℤ
  pub precomputed_img_emb : P
  pub n_img_views : ℤ
  pub lang_tokens : Option P
  pub n_lang : ℤ
  pub state : P
  pub noise : P
  pub attention_mask : P
  pub attention_mask_n : ℤ
  pub timing_detail : ℤ

-- vla::Inputs.
pub record Inputs (P : Type 0) : Type 0 where
  pub images : Option (List (ImageView P))
  pub n_images : ℤ
  pub precomputed_img_emb : P
  pub n_img_views : ℤ
  pub lang_tokens : Option P
  pub n_lang : ℤ
  pub state : P
  pub noise : P
  pub attention_mask : P
  pub attention_mask_n : ℤ
  pub timing_detail : TimingDetail

-- The calls of src/model.h, on the engine's state `E`; a model is a number.
pub record Engine (P F : Type 0) : Type 1 where
  pub E : Type 0
  pub model_load : Str → Str → Str → E → Called (Option ℕ) × E
  pub model_free : ℕ → E → E
  pub predict : ℕ → Inputs P → E → Called (List F) × E
  pub encode_images : ℕ → List (ImageView P) → ℤ → E → Called (Bool × List F) × E

-- What the C++ runtime does in one call: whether the lock or the vector of views throws, whether `new`
-- does, and the address that malloc gives.
pub record Runtime : Type 0 where
  pub lock_throws : Bool
  pub views_throw : Bool
  pub new_throws : Bool
  pub malloc : Option ℕ

-- The engine, and the buffers that the caller has to release.
pub record Api (E F : Type 0) : Type 0 where
  pub engine : E
  pub buffers : List (ℕ × List F)

unfoldable pub to_pixel_format : ℤ → PixelFormat
to_pixel_format f = if eq_ℤ f (pos 1) then f32_rgb_01 else u8

unfoldable pub text_or_empty : Option Str → Str
text_or_empty none = []
text_or_empty (some s) = s

unfoldable pub is_null : {A : Type 0} → Option A → Bool
is_null none = true
is_null (some a) = false

module _ {P : Type 0} where
  unfoldable pub view_of : CImage P → ImageView P
  unfolding to_pixel_format
  view_of im = record { pixels = im.pixels; w = im.w; h = im.h; format = to_pixel_format im.format }

  -- `views[i]` for `count` images from the `i`th.
  unfoldable pub views_from : (ℕ → CImage P) → ℕ → ℕ → List (ImageView P)
  unfolding view_of
  views_from images i zero = []
  views_from images i (suc count) = view_of (images i) ∷ views_from images (suc i) count

  unfoldable pub views_of : CInputs P → List (ImageView P)
  unfolding views_from
  views_of inp = elim inp.images [
    | none ↦ []
    | some images ↦ views_from images 0 (to_ℕ inp.n_images)
  ]

  unfoldable pub pointer_to : List (ImageView P) → Option (List (ImageView P))
  pointer_to [] = none
  pointer_to (v ∷ vs) = some (v ∷ vs)

  unfoldable pub to_inputs : CInputs P → Inputs P
  unfolding views_of pointer_to
  to_inputs inp =
      let views = views_of inp in
      record {
        images = pointer_to views;
        n_images = pos (length views);
        precomputed_img_emb = inp.precomputed_img_emb;
        n_img_views = inp.n_img_views;
        lang_tokens = inp.lang_tokens;
        n_lang = inp.n_lang;
        state = inp.state;
        noise = inp.noise;
        attention_mask = inp.attention_mask;
        attention_mask_n = inp.attention_mask_n;
        timing_detail = if eq_ℤ inp.timing_detail (pos 1) then phase else no_detail;
      }

  -- The checks after the outputs are cleared.
  unfoldable pub bad_counts : CInputs P → Bool
  unfolding is_null
  bad_counts inp =
      is_negative inp.n_images
      || is_negative inp.n_lang
      || is_negative inp.n_img_views
      || (not (leb_ℤ inp.n_images (pos 0)) && is_null inp.images)
      || (not (leb_ℤ inp.n_lang (pos 0)) && is_null inp.lang_tokens)

-- The status, what `*out_actions` and `*out_n` are then (none for a null pointer), and the state.
abbrev pub Outcome : Type 0 → Type 0
Outcome S = ℤ × (Option (Option ℕ) × Option ℤ) × S

module _ {P F : Type 0} (engine : Engine P F) where
  open engine use {E}

  -- The outputs are cleared, and the call ends in a status that is no success.
  unfoldable pub cleared : ℤ → Api E F → Outcome (Api E F)
  cleared code s = (code, (some none, some (pos 0)), s)

  -- The copy of the result into a buffer from malloc.
  unfoldable pub hand_over : Runtime → Called (List F) → Api E F → Outcome (Api E F)
  unfolding cleared
  hand_over rt threw s = cleared err_exception s
  hand_over rt (returned []) s = cleared err_predict s
  hand_over rt (returned (x ∷ xs)) s = elim rt.malloc [
    | none ↦ cleared err_exception s
    | some p ↦ (
      vla_ok,
      (some (some p), some (pos (length (x ∷ xs)))),
      record s { buffers = (p, x ∷ xs) ∷ s.buffers },
    )
  ]

  unfoldable pub predict_given : Runtime → ℕ → CInputs P → Api E F → Outcome (Api E F)
  unfolding bad_counts to_inputs hand_over cleared
  predict_given rt m inp s =
      let (result, e) = engine.predict m (to_inputs inp) s.engine in
      if bad_counts inp
      then cleared err_arg s
      else (if rt.lock_throws || rt.views_throw
          then cleared err_exception s
          else hand_over rt result (record s { engine = e }))

  -- A handle is the model that it holds, if it holds one.
  unfoldable pub vla_predict :
      Runtime
      → Option (Option ℕ)
      → Option (CInputs P)
      → Option (Option ℕ)
      → Option ℤ
      → Api E F
      → Outcome (Api E F)
  unfolding predict_given
  vla_predict rt (some (some m)) (some inp) (some a) (some n) s = predict_given rt m inp s
  vla_predict rt h inp a n s = (err_arg, (a, n), s)

  -- `!encode_images(...) || emb.empty()`
  unfoldable pub embedded : Called (Bool × List F) → Called (List F)
  embedded threw = threw
  embedded (returned (false, emb)) = returned []
  embedded (returned (true, emb)) = returned emb

  unfoldable pub encode_given : Runtime → ℕ → (ℕ → CImage P) → ℤ → Api E F → Outcome (Api E F)
  unfolding views_from embedded hand_over cleared
  encode_given rt m images n_images s =
      let (result, e) =
        engine.encode_images m (views_from images 0 (to_ℕ n_images)) n_images s.engine in
      if rt.lock_throws || rt.views_throw
      then cleared err_exception s
      else hand_over rt (embedded result) (record s { engine = e })

  unfoldable pub vla_encode_images :
      Runtime
      → Option (Option ℕ)
      → Option (ℕ → CImage P)
      → ℤ
      → Option (Option ℕ)
      → Option ℤ
      → Api E F
      → Outcome (Api E F)
  unfolding encode_given
  vla_encode_images rt (some (some m)) (some images) n_images (some a) (some n) s =
      if leb_ℤ (pos 1) n_images
      then encode_given rt m images n_images s
      else (err_arg, (some a, some n), s)
  vla_encode_images rt h images n_images a n s = (err_arg, (a, n), s)

  -- The handle, if the load succeeds: a `new` that throws gives the model back.
  unfoldable pub vla_model_load :
      Runtime → Option Str → Option Str → Option Str → E → Option (Option ℕ) × E
  unfolding text_or_empty
  vla_model_load rt mmproj none config e = (none, e)
  vla_model_load rt mmproj (some ckpt) config e =
      let (loaded, e') = engine.model_load (text_or_empty mmproj) ckpt (text_or_empty config) e in
      elim loaded [
        | threw ↦ (none, e')
        | returned model ↦ elim model [
          | none ↦ (none, e')
          | some m ↦ if rt.new_throws then (none, engine.model_free m e') else (some (some m), e')
        ]
      ]

  unfoldable pub vla_model_free : Option (Option ℕ) → E → E
  vla_model_free none e = e
  vla_model_free (some none) e = e
  vla_model_free (some (some m)) e = engine.model_free m e

  -- The buffer is taken off the list; free(NULL) does nothing, and another pointer is the caller's
  -- mistake.
  unfoldable pub vla_free_actions : Option ℕ → List (ℕ × List F) → List (ℕ × List F)
  vla_free_actions none buffers = buffers
  vla_free_actions (some p) [] = []
  vla_free_actions (some p) ((q, act) ∷ buffers) =
      if eq_ℤ (pos q) (pos p) then buffers else (q, act) ∷ vla_free_actions (some p) buffers
