-- ===== src/Vlm/Tests.antt =====
-- The VLM server at concrete inputs: a model that says "é" in two tokens and stops.
use vla_cpp.Common.{
  ℕ, suc, ◌+◌, ◌≤◌, ◌≡◌, refl, ◌⊎◌, true, false, none, some, List, [], ◌∷◌, ◌++◌, length, All, ◌==◌,
  if◌then◌else◌, ok, arith,
}
use vla_cpp.Common.Int.{pos}
use vla_cpp.HfFetch.Names.{Str}
use vla_cpp.Serving.Decode.{Stb}
use vla_cpp.Serving.Loop.{readable}
use vla_cpp.Vlm.{ChatMessage, Image, Picture, rgb_u8, Sampling, ChatRequest}
use vla_cpp.Vlm.Utf8.{utf8_complete_prefix}
use vla_cpp.Vlm.Utf8.Cut.{joined, utf8_complete_prefix-joined}
use vla_cpp.Vlm.Envelope.{frame, receive}
use vla_cpp.Vlm.Envelope.Boundary.{message_of, is_small, receive-message_of}
use vla_cpp.Vlm.Request.{max_total_pixels, check_request}
use vla_cpp.Vlm.Request.Bounded.{IsFilled, total_pixels, check_request-AreBounded}
use vla_cpp.Vlm.Chat.{Llama, Gen, by_length, cancelled, decode_loop}
use vla_cpp.Vlm.Chat.Streamed.{keeping, IsStreamed, decode_loop-IsStreamed}
use vla_cpp.Vlm.Serve.{Server, Round, run}
use vla_cpp.Vlm.Serve.Answered.{Reply, IsAnswered, envelopes, run-IsAnswered}

-- "aé", and the first byte of another "é".
utf8_complete_prefix-joined_example :
    utf8_complete_prefix (joined ((97 ∷ []) ∷ (195 ∷ 169 ∷ []) ∷ []) ++ 195 ∷ [])
    ≡ length (joined ((97 ∷ []) ∷ (195 ∷ 169 ∷ []) ∷ []))
utf8_complete_prefix-joined_example =
    utf8_complete_prefix-joined ((97 ∷ []) ∷ (195 ∷ 169 ∷ []) ∷ []) (195 ∷ [])
      (ground arith, (((ground arith, ground arith), (ground arith, ground arith)), tt))
      (ground arith, ground arith)

abbrev client : List Str
client = (1 ∷ []) ∷ [] ∷ []

abbrev payload : Str
payload = 2 ∷ []

receive-message_of_example :
    receive (message_of client payload ++ frame (3 ∷ []) true ∷ [])
    ≡ ((if is_small client then some (client, payload) else none), frame (3 ∷ []) true ∷ [])
receive-message_of_example =
    receive-message_of client payload (frame (3 ∷ []) true ∷ []) (ground arith)

abbrev no_jpeg : Stb
no_jpeg = record { info = λ _. none; load = λ _. none }

abbrev pixel : Image
pixel = record { encoding = rgb_u8; width = 1; height = 1; bytes = 9 ∷ 8 ∷ 7 ∷ [] }

abbrev question : ChatMessage
question = record { role = 117 ∷ []; content = 63 ∷ [] }

abbrev request : ChatRequest ℕ
request = record {
  messages = question ∷ [];
  images = pixel ∷ [];
  sampling = some (record { knobs = 0; max_tokens = pos 100000; seed = 0 });
  stream = true;
  request_id = 5;
}

abbrev picture : Picture
picture = record { width = 1; height = 1; rgb = 9 ∷ 8 ∷ 7 ∷ [] }

check_request-AreBounded_example :
    All IsFilled (picture ∷ [])
    × (total_pixels (picture ∷ []) ≤ max_total_pixels)
    × (length (picture ∷ []) ≡ length request.images)
    × (length (picture ∷ []) ≤ 16)
    × (1 ≤ length request.messages)
    × (length request.messages ≤ 512)
unfolding check_request
check_request-AreBounded_example =
    check_request-AreBounded no_jpeg (λ d w h px e. absurd (ground arith)) request (picture ∷ [])
      refl

abbrev asked : Sampling ℕ
asked = record { knobs = 0; max_tokens = pos 100000; seed = 0 }

-- The state counts the tokens.
abbrev speaker : Llama ℕ
speaker = record {
  C = ℕ;
  Chunks = Unit;
  loaded = λ c. true;
  memory_clear = λ c. 0;
  sampler_init = λ knobs seed c. some c;
  marker = 60 ∷ [];
  templates_apply = λ answers messages c. ok [];
  tokenize = λ prompt pictures c. some tt;
  eval_chunks = λ chunks c. (some 1, c);
  n_tokens = λ chunks. 1;
  sample = λ c. (c, suc c);
  is_eog = λ tok. tok == 2;
  token_to_piece = λ c tok. if tok == 0 then 195 ∷ [] else 169 ∷ [];
  decode = λ tok n_past c. (pos 0, c);
  detokenize = λ c generated. 195 ∷ 169 ∷ [];
}

abbrev fresh : Gen ℕ (List Str)
fresh = record {
  ctx = 0;
  client = [];
  n_past = 1;
  text = [];
  pending = [];
  generated = [];
  finish = by_length;
}

decode_loop-IsStreamed_example :
    (((decode_loop speaker (keeping (λ piece. true)) 2 fresh).finish ≡ cancelled)
      ⊎ IsStreamed (decode_loop speaker (keeping (λ piece. true)) 2 fresh))
    × (length (decode_loop speaker (keeping (λ piece. true)) 2 fresh).generated ≤ 0 + 2)
decode_loop-IsStreamed_example =
    decode_loop-IsStreamed speaker (λ piece. true) 2 fresh (refl, omega arith)

abbrev open_server : Server ℕ
open_server = record {
  link = record { replies = []; attempts = 0; shutdown = false };
  stopped = false;
  served = 0;
  ctx = 0;
}

abbrev turn : Round
turn = record {
  signalled = false;
  polled = readable;
  parts = message_of client payload;
  sends = λ n. true;
}

run-IsAnswered_example :
    (replies : List Reply) × ((run speaker no_jpeg 0
        (pos 64)
        (λ p. some request)
        open_server
        (turn ∷ [])).link.replies
      ≡ [] ++ replies)
    × IsAnswered (envelopes (turn ∷ [])) replies
run-IsAnswered_example =
    run-IsAnswered speaker no_jpeg 0 (pos 64) (λ p. some request) open_server (turn ∷ [])
      (refl, refl) ((refl, λ n. refl, λ e. ground arith), tt)
