-- ===== src/Serving/Tests.antt =====
-- The server at concrete inputs: floats by their bit patterns, a decoder that knows one image, a
-- model that answers with the state that it is shown.
use vla_cpp.Common.{
  ℕ, ◌+◌, ◌*◌, ◌%◌, ◌/◌, ◌^◌, ◌≡◌, refl, inr, true, false, not, ◌==◌, Option, none, some, List, [],
  ◌∷◌, ◌++◌, ok, if◌then◌else◌, arith, length,
}
use vla_cpp.Common.Int
use vla_cpp.Common.Int.{pos}
use vla_cpp.Serving.Message.{
  Image, PredictRequest, ImageView, u8, jpeg, rgb_u8, f32_rgb_01, untimed, Inputs, Stats, Config,
}
use vla_cpp.Serving.Decode.{
  Floats, Stb, int_dims_bad, dims_bad, size_mul, decode_image, find_non_finite,
}
use vla_cpp.Serving.Decode.Bounds.{IsDecoded, FillsImage, decode_image-IsDecoded}
use vla_cpp.Serving.Validate.{size_add, validate}
use vla_cpp.Serving.Validate.Safe.{IsSmall}
use vla_cpp.Serving.Validate.Sound.{IsSafe, validate-IsSafe}
use vla_cpp.Serving.Validate.Complete.{none_left, next, IsCameraRequest, validate_complete}
use vla_cpp.Serving.Loop.{Engine, Frame, readable, message, Round, Server, send_reply, step, run}
use vla_cpp.Serving.Loop.Lockstep.{IsLockstep, run-IsLockstep}
use vla_cpp.Serving.Loop.Replies.{IsCalm, IsReady, answers, run-answers}
use vla_cpp.Serving.Loop.Safety.{run-agree}

abbrev bits : Floats
bits = record {
  F = ℕ;
  is_finite = λ x. not (x / 2 ^ 23 % 256 == 255);
  of_bytes = λ a b c d. a + b * 2 ^ 8 + c * 2 ^ 16 + d * 2 ^ 24;
}

abbrev one_by_two : List ℕ
one_by_two = 9 ∷ 8 ∷ 7 ∷ 6 ∷ 5 ∷ 4 ∷ []

abbrev decoder : Stb
decoder = record { info = λ _. some (pos 1, pos 2); load = λ _. some (pos 1, pos 2, one_by_two) }

decoder-FillsImage : FillsImage bits decoder
decoder-FillsImage bytes w h px e = ground arith

abbrev photo : Image
photo = record { encoding = jpeg; height = 0; width = 0; bytes = 255 ∷ 216 ∷ [] }

abbrev raw_photo : Image
raw_photo = record { encoding = rgb_u8; height = 2; width = 1; bytes = one_by_two }

-- One pixel, 1.0 in each channel.
abbrev float_photo : Image
float_photo = record {
  encoding = f32_rgb_01;
  height = 1;
  width = 1;
  bytes = 0 ∷ 0 ∷ 128 ∷ 63 ∷ 0 ∷ 0 ∷ 128 ∷ 63 ∷ 0 ∷ 0 ∷ 128 ∷ 63 ∷ [];
}

abbrev view : ImageView ℕ
view = record { pixels = u8 one_by_two; w = 1; h = 2 }

decode_image-IsDecoded_example : IsDecoded bits view
unfolding decode_image int_dims_bad dims_bad size_mul
decode_image-IsDecoded_example =
    decode_image-IsDecoded bits decoder photo view decoder-FillsImage refl

not_finite : find_non_finite bits (1 ∷ 0x7f80_0000 ∷ []) ≡ some 1
unfolding find_non_finite
not_finite = refl

abbrev config : Config
config = record {
  n_img = 64;
  hidden = 8;
  n_lang = 4;
  n_suffix = 2;
  max_state_dim = 1;
  max_action_dim = 1;
}

config-IsSmall : IsSmall config
config-IsSmall = record { lang = omega arith; dims = omega arith; noise = omega arith }

abbrev request : PredictRequest ℕ
request = record {
  images = photo ∷ raw_photo ∷ [];
  lang_tokens = pos 5 ∷ pos 7 ∷ [];
  state = 3 ∷ [];
  noise = 1 ∷ 2 ∷ [];
  request_id = 41;
  precomputed_img_emb = [];
  precomputed_img_emb_n_views = 0;
  attention_mask = 1 ∷ [];
}

abbrev inputs : Inputs ℕ
inputs = record {
  images = view ∷ view ∷ [];
  precomputed_img_emb = [];
  n_img_views = 0;
  lang_tokens = pos 5 ∷ pos 7 ∷ [];
  state = 3 ∷ [];
  noise = some (1 ∷ 2 ∷ []);
  attention_mask = pos 1 ∷ [];
  timing_detail = untimed;
}

request_passes : validate bits decoder config untimed request ≡ ok inputs
unfolding validate decode_image int_dims_bad dims_bad size_mul size_add Int.to_int
request_passes = refl

validate-IsSafe_example : IsSafe bits config inputs
validate-IsSafe_example =
    validate-IsSafe bits decoder decoder-FillsImage config untimed request inputs config-IsSmall
      request_passes

request-IsCamera : IsCameraRequest bits decoder config request (view ∷ view ∷ [])
unfolding decode_image int_dims_bad dims_bad size_mul
request-IsCamera = record {
  no_embedding = refl;
  some_image = omega arith;
  few_images = omega arith;
  decodes = next refl (next refl none_left);
  within_budget = omega arith;
  token_count = inr (omega arith, omega arith);
  tokens = (refl, (refl, tt));
  state_length = refl;
  state_finite = (refl, tt);
  noise_length = inr refl;
  noise_finite = (refl, (refl, tt));
}

validate_complete_example : validate bits decoder config untimed request ≡ ok inputs
unfolding Int.to_int
validate_complete_example =
    validate_complete bits decoder decoder-FillsImage config config-IsSmall request
      (view ∷ view ∷ []) request-IsCamera untimed

abbrev no_time : Stats ℕ
no_time = record { ms_total = 0; ms_vision = 0; ms_inference = 0; ms_prefill = 0; ms_denoise = 0 }

abbrev echo : ℕ → Inputs ℕ → List ℕ × ℕ
echo m inp = (inp.state, m + 1)

abbrev echo_engine : Engine ℕ
echo_engine = record { M = ℕ; predict = echo; last_stats = λ m. no_time }

-- The one frame that parses.
abbrev parser : Frame → Option (PredictRequest ℕ)
parser [] = none
parser (b ∷ bs) = some request

abbrev ready : Server ℕ ℕ
ready = record {
  shutdown = false;
  stopped = false;
  pending = none;
  replies = [];
  served = 0;
  model = 0;
}

abbrev brings : Frame → List Frame → Round
brings first queued = record {
  signalled = false;
  polled = readable;
  received = message first queued;
  sendable = true;
}

-- A good request, one in two frames, one that does not parse, and the good one again.
abbrev traffic : List Round
traffic =
    brings (1 ∷ []) [] ∷ brings (1 ∷ []) ((2 ∷ []) ∷ []) ∷ brings [] [] ∷ brings (1 ∷ []) [] ∷ []

brings-IsCalm : (first : Frame) (queued : List Frame) → IsCalm (brings first queued)
brings-IsCalm first queued = record {
  unsignalled = refl;
  sendable = refl;
  polls = λ e. cc;
  receives = λ e. cc;
}

traffic_served : (run bits decoder config untimed echo_engine parser ready traffic).served ≡ 2
unfolding run decode_image int_dims_bad dims_bad size_mul size_add Int.to_int validate step
    send_reply
traffic_served = refl

run-IsLockstep_example :
    IsLockstep (run bits decoder config untimed echo_engine parser ready traffic)
run-IsLockstep_example =
    run-IsLockstep bits decoder config untimed echo_engine parser ready traffic (inr refl)

run-answers_example :
    ((run bits decoder config untimed echo_engine parser ready traffic).replies
      ≡ [] ++ answers bits decoder config untimed echo_engine parser 0 traffic)
    × IsReady (run bits decoder config untimed echo_engine parser ready traffic)
run-answers_example =
    run-answers bits decoder config untimed echo_engine parser ready traffic
      (record { running = refl; open_ = refl; settled = refl })
      (brings-IsCalm _ _, (brings-IsCalm _ _, (brings-IsCalm _ _, (brings-IsCalm _ _, tt))))

-- A model that answers inputs without tokens differently: no request shows the difference.
abbrev moody : ℕ → Inputs ℕ → List ℕ × ℕ
moody m inp = (if length inp.lang_tokens == 0 then [] else inp.state, m + 1)

moody_agrees : (m : ℕ) (inp : Inputs ℕ) → IsSafe bits config inp → echo m inp ≡ moody m inp
moody_agrees m inp safe = ground (arith, safe.token_count)

run-agree_example :
    run bits decoder config untimed
      (record { M = ℕ; predict = echo; last_stats = λ m. no_time })
      parser
      ready
      traffic
    ≡ run bits decoder config untimed
        (record { M = ℕ; predict = moody; last_stats = λ m. no_time })
        parser
        ready
        traffic
run-agree_example =
    run-agree bits decoder decoder-FillsImage config config-IsSmall untimed parser (λ m. no_time)
      echo moody moody_agrees ready traffic
