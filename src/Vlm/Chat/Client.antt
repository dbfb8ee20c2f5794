-- ===== src/Vlm/Chat/Client.antt =====
-- What the engine of src/vlm/engine.cpp does to whoever takes the streamed text: it only calls the
-- callback.
use vla_cpp.Common.{
  ℕ, zero, suc, ◌++◌, ◌∷◌, [], ◌≡◌, inl, inr, Bool, Option, some, List, take, drop, Bool-cases,
  Option-cases, Result-cases,
}
use vla_cpp.Common.Int.{ℤ, pos, eq_ℤ}
use vla_cpp.HfFetch.Names.{Str}
use vla_cpp.Vlm.{ChatMessage, Picture, Sampling}
use vla_cpp.Vlm.Utf8.{utf8_complete_prefix}
use vla_cpp.Vlm.Chat.{
  Llama, Gen, offer, advance, round, decode_loop, n_predict, generate, prefill, chat,
}

module _ {K T : Type 0} (llama : Llama K) (on_token : Option (Str → T → Bool × T)) (P : T → Type 0)
    (keeps : (f : Str → T → Bool × T)
      → on_token ≡ some f
      → (piece : Str) (t : T) → P t
      → P (f piece t).1) where
  open llama use {C}

  offer-P : (n : ℕ) (pending : Str) (t : T) → P t → P (offer llama on_token n pending t).1
  unfolding offer
  offer-P zero pending t p = p
  offer-P (suc n) pending t p = elim (Option-cases on_token) [
    | inl silent ↦ rw (silent, offer) p
    | inr (f, called) ↦ rw (called, offer) (keeps f called (take (suc n) pending) t p)
  ]

  advance-P : (tok : ℕ) (g : Gen C T) → P g.client → P (advance llama on_token tok g).1.client
  unfolding advance
  advance-P tok g p = elim (Bool-cases (eq_ℤ (llama.decode tok g.n_past g.ctx).0 (pos 1))) [
    | inl full ↦ rw (full, advance) p
    | inr room ↦ elim (Bool-cases (eq_ℤ (llama.decode tok g.n_past g.ctx).0 (pos 0))) [
      | inl fine ↦ rw (room, fine, advance) p
      | inr bad ↦ rw (room, bad, advance) p
    ]
  ]

  round-P : (g : Gen C T) → P g.client → P (round llama on_token g).1.client
  unfolding round
  round-P g p =
      let (tok, ctx) = llama.sample g.ctx in
      let piece = llama.token_to_piece ctx tok in
      let pending = g.pending ++ piece in
      let n = utf8_complete_prefix pending in
      let kept = offer-P n pending g.client p in
      let shown : Gen C T = record {
        ctx = ctx;
        client = (offer llama on_token n pending g.client).1;
        n_past = g.n_past;
        text = g.text ++ piece;
        pending = drop n pending;
        generated = g.generated ++ tok ∷ [];
        finish = g.finish;
      } in
      elim (Bool-cases (llama.is_eog tok)) [
        | inl end ↦ rw (end, round) p
        | inr word ↦ elim (Bool-cases (offer llama on_token n pending g.client).0) [
          | inr refused ↦ rw (word, refused, round) kept
          | inl taken ↦ rw (word, taken, round) (advance-P tok shown kept)
        ]
      ]

  decode_loop-P :
      (rounds : ℕ) (g : Gen C T) → P g.client → P (decode_loop llama on_token rounds g).client
  unfolding decode_loop
  decode_loop-P zero g p = p
  decode_loop-P (suc rounds) g p = elim (Bool-cases (round llama on_token g).0) [
    | inl goes_on ↦
        rw (goes_on, decode_loop) (decode_loop-P rounds (round llama on_token g).1 (round-P g p))
    | inr ends ↦ rw (ends, decode_loop) (round-P g p)
  ]

  generate-P :
      (max_tokens : ℤ) (chunks : llama.Chunks) (n_past : ℕ) (ctx : C) (t : T)
      → P t
      → P (generate llama on_token max_tokens chunks n_past ctx t).2
  unfolding generate
  generate-P max_tokens chunks n_past ctx t p =
      decode_loop-P (n_predict llama on_token max_tokens) _ p

  -- What the callback keeps is kept by a chat.
  pub chat-P :
      (messages : List ChatMessage) (pictures : List Picture) (sampling : Sampling K) (ctx : C)
      (t : T)
      → P t
      → P (chat llama on_token messages pictures sampling ctx t).2
  unfolding chat
  chat-P [] pictures sampling ctx t p = p
  chat-P (m ∷ messages) pictures sampling ctx t p = elim (Bool-cases (llama.loaded ctx)) [
    | inr empty ↦ rw (empty, chat) p
    | inl ready ↦
        elim (Option-cases
          (llama.sampler_init sampling.knobs sampling.seed (llama.memory_clear ctx))) [
            | inl bad ↦ rw (ready, bad, chat) p
            | inr (c, made) ↦
                elim (Result-cases (prefill llama on_token (m ∷ messages) pictures c).0) [
                  | inl (why, bad) ↦ rw (ready, made, bad, chat) p
                  | inr (start, good) ↦
                      rw (ready, made, good, chat)
                        (generate-P sampling.max_tokens start.0 start.1 _ t p)
                ]
          ]
  ]
