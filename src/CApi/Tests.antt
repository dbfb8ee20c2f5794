-- ===== src/CApi/Tests.antt =====
-- The C interface at concrete inputs: an engine that answers with the number of its images.
use vla_cpp.Common.{ℕ, refl, true, false, none, some, List, [], ◌∷◌, length, arith}
use vla_cpp.Common.Int.{ℤ, pos}
use vla_cpp.CApi.{returned, CImage, CInputs, Engine, Runtime, Api, to_inputs, vla_predict}
use vla_cpp.CApi.Outcomes.{IsHanded, vla_predict-IsHanded, Owns}

-- The state is the list of its models.
abbrev counter : Engine ℕ ℤ
counter = record {
  E = List ℕ;
  model_load = λ a b c e. (returned (some (length e)), length e ∷ e);
  model_free = λ m e. elim e [ [] ↦ [] | x ∷ xs ↦ xs ];
  predict = λ m inp e. (returned (inp.n_images ∷ []), e);
  encode_images = λ m views n e. (returned (true, n ∷ []), e);
}

counter-Owns : Owns ℕ ℤ counter (λ e. e)
counter-Owns = record {
  loads = λ a b c e m h. ground arith;
  fails = λ a b c e h. absurd (ground arith);
  throws = λ a b c e h. absurd (ground arith);
  frees = λ m rest e h. rw h refl;
}

abbrev calm : Runtime
calm = record { lock_throws = false; views_throw = false; new_throws = true; malloc = some 64 }

abbrev image : ℕ → CImage ℕ
image i = record { pixels = i; w = pos 2; h = pos 2; format = pos 1 }

abbrev inputs : CInputs ℕ
inputs = record {
  images = some image;
  n_images = pos 2;
  precomputed_img_emb = 0;
  n_img_views = pos 0;
  lang_tokens = none;
  n_lang = pos 0;
  state = 0;
  noise = 0;
  attention_mask = 0;
  attention_mask_n = pos 0;
  timing_detail = pos 0;
}

abbrev api : Api (List ℕ) ℤ
api = record { engine = 0 ∷ []; buffers = [] }

vla_predict-IsHanded_example :
    IsHanded calm []
      (returned (pos 2 ∷ []))
      (vla_predict counter calm (some (some 0)) (some inputs) (some none) (some (pos 0)) api)
unfolding to_inputs
vla_predict-IsHanded_example = vla_predict-IsHanded counter calm 0 inputs none (pos 0) api
