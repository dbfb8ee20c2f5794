-- ===== src/ModelLoad/Tests.antt =====
-- Loads at concrete inputs: a model is a number, and its answer tells the input and the flags.
use vla_cpp.Common.{
  ℕ, suc, ◌+◌, ◌*◌, ◌≡◌, ◌↔◌, refl, true, false, none, some, [], ◌∷◌, if◌then◌else◌,
}
use vla_cpp.Common.Int.{pos}
use vla_cpp.Common.Text.{bytes_of}
use vla_cpp.HfFetch.Names.{Str}
use vla_cpp.Options.{bf16, Options}
use vla_cpp.ModelLoad.{Files, Flags, Archs, Model, model_load}
use vla_cpp.ModelLoad.Loaded.{Loads, model_load-Loads}

abbrev archs : Archs ℕ ℕ ℕ ℕ
archs = record {
  create = λ arch mmproj ckpt config opts flags. (some 7, flags);
  dims = λ i. record {
    real_state_dim = pos 6;
    max_state_dim = pos 32;
    real_action_dim = pos 7;
    max_action_dim = pos 0;
  };
  predict =
      λ i input flags. (2 * i + 100 * input + (if flags.flash_attn then 1 else 0), suc i, flags);
}

abbrev flags_off : Flags ℕ
flags_off = record {
  flash_attn = false;
  mm_prec_f32 = false;
  fa_views = false;
  fused_ops = false;
  rest = 0;
}

abbrev options : Options
options = record {
  weight_dtype = none;
  act_dtype = some bf16;
  flash_attn = some true;
  mm_prec_f32 = none;
  num_steps = some (pos 4);
}

-- Eight bytes for the header's length, then the header.
abbrev checkpoint : Str
checkpoint =
    69
    ∷ 0
    ∷ 0
    ∷ 0
    ∷ 0
    ∷ 0
    ∷ 0
    ∷ 0
    ∷ bytes_of "{\"paligemma_with_expert.paligemma.x\":1,\"action_time_mlp_in.weight\":2}"

abbrev files : Files
files = record { gguf = λ path. none; bytes = λ path. some checkpoint }

abbrev path : Str
path = bytes_of "pi0.safetensors"

abbrev loaded : Model ℕ
loaded = record { impl = 7; fa = true; mm = true }

model_load_loaded :
    (model_load archs files false false [] path [] options flags_off).0 ≡ some loaded
unfolding model_load
model_load_loaded = refl

model_load-Loads_example :
    ((model_load archs files false false [] path [] options flags_off).0 ≡ some loaded)
    ↔ Loads archs files false [] path [] options flags_off loaded
model_load-Loads_example = model_load-Loads archs files false [] path [] options flags_off loaded

-- It is not vacuous: the model above is one that is loaded.
loaded_fits : Loads archs files false [] path [] options flags_off loaded
loaded_fits =
    (model_load-Loads archs files false [] path [] options flags_off loaded).0 model_load_loaded
