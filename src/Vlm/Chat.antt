-- ===== src/Vlm/Chat.antt =====
-- Engine::chat of src/vlm/engine.cpp. What llama.cpp and its mtmd do is a parameter; `C` is the state
-- of the context, the sampler and the batch, `T` the state of whoever takes the streamed text.
pub mod Streamed
pub mod Client
use vla_cpp.Common.{
  ℕ, zero, suc, ◌+◌, ◌-◌, ◌*◌, ◌%◌, ◌^◌, Bool, true, false, not, ◌||◌, Option, none, some, List, [],
  ◌∷◌, ◌++◌, length, get_elem?, take, drop, replicate, leb, ◌==◌, if◌then◌else◌, Result, ok, err,
}
use vla_cpp.Common.Int.{ℤ, pos, negsuc, eq_ℤ, to_int}
use vla_cpp.HfFetch.Names.{Str}
use vla_cpp.HfFetch.Names.Match.{str_eq, contains}
use vla_cpp.Serving.Decode.{size_mul}
use vla_cpp.Vlm.{
  ChatMessage, Picture, Sampling, Why, no_messages, not_loaded, sampler_failed, bad_rgb,
  template_failed, tokenize_failed, eval_failed, decode_failed,
}
use vla_cpp.Vlm.Utf8.{utf8_complete_prefix}

pub record Llama (K : Type 0) : Type 1 where
  pub C : Type 0
  pub Chunks : Type 0
  pub loaded : C → Bool
  pub memory_clear : C → C
  pub sampler_init : K → ℕ → C → Option C
  pub marker : Str
  -- The prompt of the messages, or the text of the exception; `true` adds a generation prompt.
  pub templates_apply : Bool → List ChatMessage → C → Result Str Str
  pub tokenize : Str → List Picture → C → Option Chunks
  -- The positions taken, if it succeeds.
  pub eval_chunks : Chunks → C → Option ℕ × C
  pub n_tokens : Chunks → ℕ
  -- common_sampler_sample and common_sampler_accept.
  pub sample : C → ℕ × C
  pub is_eog : ℕ → Bool
  pub token_to_piece : C → ℕ → Str
  -- llama_decode of one token at a position.
  pub decode : ℕ → ℕ → C → ℤ × C
  pub detokenize : C → List ℕ → Str

pub data Finish : Type 0 where
  by_stop by_length cancelled : Finish
  failed : Why → Finish

pub record ChatResult : Type 0 where
  pub text : Str
  pub finish : Finish
  pub prompt_tokens : ℤ
  pub completion_tokens : ℤ

abbrev pub error_result : Why → ChatResult
error_result why = record {
  text = [];
  finish = failed why;
  prompt_tokens = pos 0;
  completion_tokens = pos 0;
}

abbrev pub user : Str
user = 117 ∷ 115 ∷ 101 ∷ 114 ∷ []

abbrev pub assistant : Str
assistant = 97 ∷ 115 ∷ 115 ∷ 105 ∷ 115 ∷ 116 ∷ 97 ∷ 110 ∷ 116 ∷ []

unfoldable pub has_role : Str → Option ChatMessage → Bool
unfolding str_eq
has_role role none = false
has_role role (some m) = str_eq m.role role

-- `for (int i = size - 1; i >= 0; --i)`, with one more than `i`.
unfoldable pub user_from : ℕ → List ChatMessage → Option ℕ
unfolding has_role
user_from zero messages = none
user_from (suc i) messages =
    let earlier = user_from i messages in
    if has_role user (get_elem? messages i) then some i else earlier

-- The message that the images belong to: the last of the user, or the last.
unfoldable pub image_message : List ChatMessage → ℕ
unfolding user_from
image_message messages = elim (user_from (length messages) messages) [
  | none ↦ length messages - 1
  | some i ↦ i
]

unfoldable pub repeated : ℕ → Str → Str
repeated zero marker = []
repeated (suc n) marker = marker ++ repeated n marker

-- The content gets a marker for each image, unless it has one.
unfoldable pub mark_content : Str → ℕ → ChatMessage → ChatMessage
unfolding repeated contains
mark_content marker n m =
    if contains marker m.content then m else (record m { content = repeated n marker ++ m.content })

unfoldable pub mark_message : Str → ℕ → ℕ → List ChatMessage → List ChatMessage
unfolding mark_content
mark_message marker n i [] = []
mark_message marker n zero (m ∷ messages) = mark_content marker n m ∷ messages
mark_message marker n (suc i) (m ∷ messages) = m ∷ mark_message marker n i messages

unfoldable pub mark_images : Str → List Picture → List ChatMessage → List ChatMessage
unfolding mark_message image_message
mark_images marker [] messages = messages
mark_images marker (p ∷ ps) messages =
    mark_message marker (length (p ∷ ps)) (image_message messages) messages

-- `im.rgb.size() != (size_t) im.width*im.height*3`
unfoldable pub any_bad_rgb : List Picture → Bool
unfolding size_mul
any_bad_rgb [] = false
any_bad_rgb (p ∷ ps) =
    not (length p.rgb == size_mul (size_mul p.width p.height) 3) || any_bad_rgb ps

-- The state of the decode loop.
pub record Gen (C T : Type 0) : Type 0 where
  pub ctx : C
  pub client : T
  pub n_past : ℕ
  pub text : Str
  pub pending : Str
  pub generated : List ℕ
  pub finish : Finish

abbrev pub int_max : ℕ
int_max = 2 ^ 31 - 1

module _ {K T : Type 0} (llama : Llama K) (on_token : Option (Str → T → Bool × T)) where
  open llama use {C}

  -- `on_token && n > 0 && !on_token(pending.substr(0, n))` is the negation of the answer.
  unfoldable pub offer : ℕ → Str → T → Bool × T
  offer zero pending t = (true, t)
  offer (suc n) pending t = elim on_token [ none ↦ (true, t) | some f ↦ f (take (suc n) pending) t ]

  -- The batch with the token, and the end of a round.
  unfoldable pub advance : ℕ → Gen C T → Bool × Gen C T
  advance tok g =
      let (rc, ctx) = llama.decode tok g.n_past g.ctx in
      let g' : Gen C T = record g { ctx = ctx; n_past = suc g.n_past } in
      if eq_ℤ rc (pos 1)
      then (false, g')
      else (if eq_ℤ rc (pos 0)
          then (true, g')
          else (false, record g' { finish = failed decode_failed }))

  -- A round of the loop, and whether it goes on.
  unfoldable pub round : Gen C T → Bool × Gen C T
  unfolding offer advance
  round g =
      let (tok, ctx) = llama.sample g.ctx in
      let sampled : Gen C T = record g { ctx = ctx; generated = g.generated ++ tok ∷ [] } in
      if llama.is_eog tok
      then (false, record sampled { finish = by_stop })
      else (let piece = llama.token_to_piece ctx tok in
          let pending = g.pending ++ piece in
          let n = utf8_complete_prefix pending in
          let (taken, client) = offer n pending g.client in
          let shown : Gen C T = record sampled { text = g.text ++ piece; client = client } in
          if not taken
          then (false, record shown { pending = pending; finish = cancelled })
          else advance tok (record shown { pending = drop n pending }))

  unfoldable pub decode_loop : ℕ → Gen C T → Gen C T
  unfolding round
  decode_loop zero g = g
  decode_loop (suc left) g =
      let (goes_on, g') = round g in elim goes_on [ true ↦ decode_loop left g' | false ↦ g' ]

  unfoldable pub is_failed : Finish → Bool
  is_failed (failed why) = true
  is_failed _ = false

  unfoldable pub n_predict : ℤ → ℕ
  n_predict (pos zero) = int_max
  n_predict (pos (suc n)) = suc n
  n_predict (negsuc n) = int_max

  -- From the prefill on.
  unfoldable pub generate : ℤ → llama.Chunks → ℕ → C → T → ChatResult × C × T
  unfolding n_predict decode_loop is_failed
  generate max_tokens chunks n_past ctx client =
      let first : Gen C T = record {
        ctx = ctx;
        client = client;
        n_past = n_past;
        text = [];
        pending = [];
        generated = [];
        finish = by_length;
      } in
      let g = decode_loop (n_predict max_tokens) first in
      let text = if is_failed g.finish then g.text else llama.detokenize g.ctx g.generated in
      (
        record {
          text = take (utf8_complete_prefix text) text;
          finish = g.finish;
          prompt_tokens = to_int (llama.n_tokens chunks);
          completion_tokens = to_int (length g.generated);
        },
        g.ctx,
        g.client,
      )

  -- From the sampler to the evaluated prompt: its chunks and the positions that they take.
  unfoldable pub prefill : List ChatMessage → List Picture → C → Result Why (llama.Chunks × ℕ) × C
  unfolding mark_images any_bad_rgb has_role
  prefill messages pictures ctx =
      let marked = mark_images llama.marker pictures messages in
      let answers = not (has_role assistant (get_elem? messages (length messages - 1))) in
      if any_bad_rgb pictures
      then (err bad_rgb, ctx)
      else (elim (llama.templates_apply answers marked ctx) [
        | err what ↦ (err (template_failed what), ctx)
        | ok prompt ↦ elim (llama.tokenize prompt pictures ctx) [
          | none ↦ (err tokenize_failed, ctx)
          | some chunks ↦
              let (n_past, ctx') = llama.eval_chunks chunks ctx in
              elim n_past [ none ↦ (err eval_failed, ctx') | some n ↦ (ok (chunks, n), ctx') ]
        ]
      ])

  unfoldable pub chat : List ChatMessage → List Picture → Sampling K → C → T → ChatResult × C × T
  unfolding prefill generate
  chat [] pictures sampling ctx client =
      (error_result (if llama.loaded ctx then no_messages else not_loaded), ctx, client)
  chat (m ∷ messages) pictures sampling ctx client =
      let cleared = llama.memory_clear ctx in
      if not (llama.loaded ctx)
      then (error_result not_loaded, ctx, client)
      else (elim (llama.sampler_init sampling.knobs sampling.seed cleared) [
        | none ↦ (error_result sampler_failed, cleared, client)
        | some ready ↦
            let (filled, ctx') = prefill (m ∷ messages) pictures ready in
            elim filled [
              | err why ↦ (error_result why, ctx', client)
              | ok start ↦ generate sampling.max_tokens start.0 start.1 ctx' client
            ]
      ])
