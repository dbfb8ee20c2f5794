-- ===== src/Vlm.antt =====
-- The VLM server: src/serving/vlm-server.cpp with the messages of src/serving/vlm.proto, and the chat of
-- src/vlm/engine.cpp. A text is the list of its bytes.
pub mod Utf8
pub mod Envelope
pub mod Request
pub mod Chat
pub mod Serve
mod Tests
use vla_cpp.Common.{ℕ, Bool, Option, List}
use vla_cpp.Common.Int.{ℤ}
use vla_cpp.HfFetch.Names.{Str}

pub record ChatMessage : Type 0 where
  pub role : Str
  pub content : Str

pub data Encoding : Type 0 where
  jpeg rgb_u8 other_encoding : Encoding

pub record Image : Type 0 where
  pub encoding : Encoding
  pub width : ℕ
  pub height : ℕ
  pub bytes : Str

-- `knobs` is the temperature, top_p and top_k, which are passed on as they are.
pub record Sampling (K : Type 0) : Type 0 where
  pub knobs : K
  pub max_tokens : ℤ
  pub seed : ℕ

pub record ChatRequest (K : Type 0) : Type 0 where
  pub messages : List ChatMessage
  pub images : List Image
  pub sampling : Option (Sampling K)
  pub stream : Bool
  pub request_id : ℕ

-- vlm::Image.
pub record Picture : Type 0 where
  pub width : ℕ
  pub height : ℕ
  pub rgb : Str

-- The errors, each for the text that the server or the engine puts in the final message.
pub data Why : Type 0 where
  request_parse no_messages too_many_messages text_too_large too_many_images over_budget : Why
  jpeg_dims jpeg_decode rgb_dims rgb_size unknown_encoding : ℕ → Why
  not_loaded sampler_failed bad_rgb tokenize_failed eval_failed decode_failed : Why
  template_failed : Str → Why
