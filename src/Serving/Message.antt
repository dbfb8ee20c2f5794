-- ===== src/Serving/Message.antt =====
-- The protobuf messages of src/serving/vla.proto as the server reads and writes them, the inputs and
-- results of the engine (src/model.h), and the reasons for which a request is refused.
-- A float is a value of the parameter `F`; bytes and tokens are numbers.
use vla_cpp.Common.{ℕ, List, Option}
use vla_cpp.Common.Int.{ℤ}

-- proto3 enums are open: a value that the schema does not name is kept.
pub data Encoding : Type 0 where
  jpeg rgb_u8 f32_rgb_01 : Encoding
  unknown : ℕ → Encoding

pub record Image : Type 0 where
  pub encoding : Encoding
  pub height : ℕ
  pub width : ℕ
  pub bytes : List ℕ

pub record PredictRequest (F : Type 0) : Type 0 where
  pub images : List Image
  pub lang_tokens : List ℤ
  pub state : List F
  pub noise : List F
  pub request_id : ℕ
  pub precomputed_img_emb : List F
  pub precomputed_img_emb_n_views : ℕ
  pub attention_mask : List ℕ

-- What an `ImageView` points to, with its `PixelFormat`.
pub data Pixels (F : Type 0) : Type 0 where
  u8 : List ℕ → Pixels F
  f32 : List F → Pixels F

pub record ImageView (F : Type 0) : Type 0 where
  pub pixels : Pixels F
  pub w : ℕ
  pub h : ℕ

pub data TimingDetail : Type 0 where
  untimed phase : TimingDetail

-- A null pointer with its count of 0 is an empty list or `none`.
pub record Inputs (F : Type 0) : Type 0 where
  pub images : List (ImageView F)
  pub precomputed_img_emb : List F
  pub n_img_views : ℕ
  pub lang_tokens : List ℤ
  pub state : List F
  pub noise : Option (List F)
  pub attention_mask : List ℤ
  pub timing_detail : TimingDetail

pub record Stats (F : Type 0) : Type 0 where
  pub ms_total : F
  pub ms_vision : F
  pub ms_inference : F
  pub ms_prefill : F
  pub ms_denoise : F

-- The sizes that the handler reads of a loaded model's configuration.
pub record Config : Type 0 where
  pub n_img : ℕ
  pub hidden : ℕ
  pub n_lang : ℕ
  pub n_suffix : ℕ
  pub max_state_dim : ℕ
  pub max_action_dim : ℕ

-- One constructor for each text that `make_error_response` is given, with the values printed in it.
pub data Refusal : Type 0 where
  several_frames parse_failed no_images too_many_views no_language_taken : Refusal
  lang_length : ℕ → ℕ → Refusal
  lang_negative : ℕ → Refusal
  state_length : ℕ → ℕ → Refusal
  noise_length : ℕ → ℤ → Refusal
  emb_views : ℤ → Refusal
  emb_size : ℕ → ℕ → Refusal
  emb_not_finite state_not_finite noise_not_finite : ℕ → Refusal
  image_decode : ℕ → Refusal
  pixel_budget predict_failed : Refusal

pub record Chunk (F : Type 0) : Type 0 where
  pub action_chunk : List F
  pub chunk_size : ℕ
  pub action_dim : ℕ
  pub latency : Stats F

pub data Body (F : Type 0) : Type 0 where
  error : Refusal → Body F
  actions : Chunk F → Body F

pub record PredictResponse (F : Type 0) : Type 0 where
  pub request_id : ℕ
  pub body : Body F
