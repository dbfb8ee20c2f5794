-- ===== src/Vlm/Serve/Answered.antt =====
-- What clients of src/serving/vlm-server.cpp get: each accepted message has its pieces and then one final
-- response.
use vla_cpp.Common.{
  ℕ, ◌≡◌, ◌≢◌, refl, sym, ap, ◌∙◌, inl, inr, Bool, true, false, ◌||◌, Option, none, some, List, [],
  ◌∷◌, ◌++◌, map, All, Option-cases, Result-cases, arith,
}
use mathlib.Core.Option.{some-injective}
use mathlib.Core.Path.{subst}
use mathlib.Core.List.{append-nil, append_assoc}
use vla_cpp.Common.Int.{ℤ}
use vla_cpp.HfFetch.Names.{Str}
use vla_cpp.Serving.Decode.{Stb}
use vla_cpp.Serving.Loop.{interrupted, terminated, other, Polled, poll_error, idle, readable}
use vla_cpp.Vlm.{ChatRequest, Picture}
use vla_cpp.Vlm.Envelope.{Part, receive}
use vla_cpp.Vlm.Request.{check_request, sampling_params}
use vla_cpp.Vlm.Chat.{Llama, ChatResult, chat}
use vla_cpp.Vlm.Chat.Client.{chat-P}
use vla_cpp.Vlm.Serve.{
  StreamMessage, delta, final, Link, Server, Round, send_reply, make_error_stream, token_callback,
  respond, serve_payload, serve_parts, on_polled, step, run,
}

abbrev pub Reply : Type 0
Reply = List Str × StreamMessage

-- One message's replies: its pieces, then the final response, all to its envelope with one id.
abbrev pub turn_of : List Str → ℕ → List Str → ChatResult → List Reply
turn_of env rid pieces result = map (λ p. (env, delta rid p)) pieces ++ (env, final rid result) ∷ []

-- The replies are one turn for each envelope, in order.
abbrev pub IsAnswered : List (List Str) → List Reply → Type 0
IsAnswered [] replies = replies ≡ []
IsAnswered (env ∷ envs) replies =
    (rid : ℕ) × (pieces : List Str) × (result : ChatResult) × (rest : List Reply) × (replies
      ≡ turn_of env rid pieces result ++ rest)
    × IsAnswered envs rest

-- The envelope of the message that a turn of the loop accepts.
abbrev pub envelope_of : Polled → List Part → Option (List Str)
envelope_of readable parts = elim (receive parts).0 [ none ↦ none | some message ↦ some message.0 ]
envelope_of idle parts = none
envelope_of (poll_error e) parts = none

abbrev pub envelopes : List Round → List (List Str)
envelopes [] = []
envelopes (r ∷ rs) = elim (envelope_of r.polled r.parts) [
  | none ↦ envelopes rs
  | some env ↦ env ∷ envelopes rs
]

-- A turn without a signal, in which every send succeeds and the context is not terminated.
abbrev pub IsCalm : Round → Type 0
IsCalm r = (r.signalled ≡ false) × ((n : ℕ) → r.sends n ≡ true) × (r.polled ≢ poll_error terminated)

abbrev pub IsOpen : {C : Type 0} → Server C → Type 0
IsOpen s = (s.stopped ≡ false) × (s.link.shutdown ≡ false)

-- Some pieces were sent since the replies were `base`.
abbrev IsStreaming : List Reply → List Str → ℕ → Link → Type 0
IsStreaming base env rid link =
    (pieces : List Str) × (link.replies ≡ base ++ map (λ p. (env, delta rid p)) pieces)
    × (link.shutdown ≡ false)

send_lem :
    (sends : ℕ → Bool) (env : List Str) (link : Link) (body : StreamMessage)
    → ((n : ℕ) → sends n ≡ true)
    → link.shutdown ≡ false
    → ((send_reply sends env link body).replies ≡ link.replies ++ (env, body) ∷ [])
      × ((send_reply sends env link body).shutdown ≡ false)
unfolding send_reply
send_lem sends env link body all open_ = rw (all link.attempts, send_reply) (refl, open_)

map-append :
    {A B : Type 0} (f : A → B) (xs : List A) (x : A) → map f xs ++ f x ∷ [] ≡ map f (xs ++ x ∷ [])
map-append f [] x = refl
map-append f (y ∷ xs) x = ap (λ l. f y ∷ l) (map-append f xs x)

streams_lem :
    (sends : ℕ → Bool) (env : List Str) (rid : ℕ) (base : List Reply) (link : Link) (piece : Str)
    → ((n : ℕ) → sends n ≡ true)
    → IsStreaming base env rid link
    → IsStreaming base env rid (send_reply sends env link (delta rid piece))
streams_lem sends env rid base link piece all (pieces, e, open_) =
    let (sent, still) = send_lem sends env link (delta rid piece) all open_ in
    (
      pieces ++ piece ∷ [],
      sent
          ∙ ap (λ l. l ++ (env, delta rid piece) ∷ []) e
          ∙ append_assoc base _ _
          ∙ ap (λ l. base ++ l) (map-append (λ p. (env, delta rid p)) pieces piece),
      still,
    )

callback_lem :
    (stream : Bool) (sends : ℕ → Bool) (env : List Str) (rid : ℕ) (base : List Reply)
    → ((n : ℕ) → sends n ≡ true)
    → (f : Str → Link → Bool × Link) → token_callback stream sends env rid ≡ some f
    → (piece : Str) (link : Link) → IsStreaming base env rid link
    → IsStreaming base env rid (f piece link).1
unfolding token_callback
callback_lem false sends env rid base all f e piece link h = absurd (ground arith)
callback_lem true sends env rid base all f e piece link h =
    subst (λ g. IsStreaming base env rid (g piece link).1) (some-injective _ _ e)
      (streams_lem sends env rid base link piece all h)

-- After a turn for `env`.
abbrev IsTurn : {C : Type 0} → List Str → Server C → Server C → Type 0
IsTurn env s s' =
    (rid : ℕ) × (pieces : List Str) × (result : ChatResult) × (s'.link.replies
      ≡ s.link.replies ++ turn_of env rid pieces result)
    × IsOpen s'

module _ {K : Type 0} (llama : Llama K) (stb : Stb) (defaults : K) (n_ctx : ℤ)
    (parse : Str → Option (ChatRequest K)) where
  open llama use {C}

  respond-IsTurn :
      (sends : ℕ → Bool) (env : List Str) (s : Server C) (req : ChatRequest K)
      (pictures : List Picture)
      → ((n : ℕ) → sends n ≡ true)
      → IsOpen s
      → IsTurn env s (respond llama stb defaults n_ctx parse sends env s req pictures)
  unfolding respond
  respond-IsTurn sends env s req pictures all (running, open_) =
      let callback = token_callback req.stream sends env req.request_id in
      let said =
        chat llama callback req.messages pictures (sampling_params defaults n_ctx req.sampling)
          s.ctx s.link in
      let (pieces, e, still) =
        chat-P llama callback (IsStreaming s.link.replies env req.request_id)
          (callback_lem req.stream sends env req.request_id s.link.replies all) req.messages
          pictures (sampling_params defaults n_ctx req.sampling) s.ctx s.link
          ([], sym (append-nil s.link.replies), open_) in
      let (sent, after) = send_lem sends env said.2 (final req.request_id said.0) all still in
      (
        req.request_id,
        pieces,
        said.0,
        sent
            ∙ ap (λ l. l ++ (env, final req.request_id said.0) ∷ []) e
            ∙ append_assoc s.link.replies _ _,
        (running, after),
      )

  error_lem :
      (sends : ℕ → Bool) (env : List Str) (s : Server C) (rid : ℕ) (result : ChatResult)
      → ((n : ℕ) → sends n ≡ true)
      → IsOpen s
      → IsTurn env s (record s { link = send_reply sends env s.link (final rid result) })
  error_lem sends env s rid result all (running, open_) =
      let (sent, after) = send_lem sends env s.link (final rid result) all open_ in
      (rid, [], result, sent, (running, after))

  serve_payload-IsTurn :
      (sends : ℕ → Bool) (env : List Str) (s : Server C) (payload : Str)
      → ((n : ℕ) → sends n ≡ true)
      → IsOpen s
      → IsTurn env s (serve_payload llama stb defaults n_ctx parse sends env s payload)
  unfolding serve_payload make_error_stream
  serve_payload-IsTurn sends env s payload all h = elim (Option-cases (parse payload)) [
    | inl bad ↦ rw (bad, serve_payload) (error_lem sends env s 0 _ all h)
    | inr (req, good) ↦ elim (Result-cases (check_request stb req)) [
      | inl (why, refused) ↦
          rw (good, refused, serve_payload) (error_lem sends env s req.request_id _ all h)
      | inr (pictures, fine) ↦
          rw (good, fine, serve_payload) (respond-IsTurn sends env s req pictures all h)
    ]
  ]

  -- A round brings an envelope and its turn, or neither.
  abbrev IsStep : Option (List Str) → Server C → Server C → Type 0
  IsStep none s s' = (s'.link.replies ≡ s.link.replies) × IsOpen s'
  IsStep (some env) s s' = IsTurn env s s'

  on_polled-IsStep :
      (s : Server C) (polled : Polled) (parts : List Part) (sends : ℕ → Bool)
      → polled ≢ poll_error terminated
      → ((n : ℕ) → sends n ≡ true)
      → IsOpen s
      → IsStep
          (envelope_of polled parts)
          s
          (on_polled llama stb defaults n_ctx parse s polled parts sends)
  unfolding on_polled serve_parts
  on_polled-IsStep s (poll_error interrupted) parts sends p all h = (refl, h)
  on_polled-IsStep s (poll_error terminated) parts sends p all h = absurd (p refl)
  on_polled-IsStep s (poll_error other) parts sends p all h = (refl, h)
  on_polled-IsStep s idle parts sends p all h = (refl, h)
  on_polled-IsStep s readable parts sends p all h = elim (Option-cases (receive parts).0) [
    | inl dropped ↦ rw (dropped, serve_parts, envelope_of) (refl, h)
    | inr ((env, payload), taken) ↦
        rw (taken, serve_parts, envelope_of) (serve_payload-IsTurn sends env s payload all h)
  ]

  step-IsStep :
      (s : Server C) (r : Round)
      → IsCalm r
      → IsOpen s
      → IsStep (envelope_of r.polled r.parts) s (step llama stb defaults n_ctx parse s r)
  unfolding step
  step-IsStep s r (quiet, all, p) (running, open_) =
      let live : (s.stopped || s.link.shutdown) ≡ false = rw (running, open_) refl in
      rw (live, quiet, step) (on_polled-IsStep s r.polled r.parts r.sends p all (running, open_))

  -- Every message that is accepted is answered by its pieces and one final response, in the order
  -- of the messages and to the envelope that it came with, and nothing else is sent. It assumes
  -- rounds without a signal in which sends succeed and ZeroMQ is not terminated.
  pub run-IsAnswered :
      (s : Server C) (rs : List Round)
      → IsOpen s
      → All IsCalm rs
      → (replies : List Reply) × ((run llama stb defaults n_ctx parse s rs).link.replies
          ≡ s.link.replies ++ replies)
        × IsAnswered (envelopes rs) replies
  unfolding run
  run-IsAnswered s [] h k = ([], sym (append-nil s.link.replies), refl)
  run-IsAnswered s (r ∷ rs) h (calm, k) =
      let one = step-IsStep s r calm h in
      let s' = step llama stb defaults n_ctx parse s r in
      elim (Option-cases (envelope_of r.polled r.parts)) [
        | inl nothing ↦
            let (same, open_) = rw nothing at one in
            let (replies, e, a) = run-IsAnswered s' rs open_ k in
            let none_more : envelopes (r ∷ rs) ≡ envelopes rs = rw (nothing, envelopes) refl in
            (
              replies,
              e ∙ ap (λ l. l ++ replies) same,
              subst (λ es. IsAnswered es replies) (sym none_more) a,
            )
        | inr (env, brings) ↦
            let (rid, pieces, result, more, open_) = rw brings at one in
            let (replies, e, a) = run-IsAnswered s' rs open_ k in
            let one_more : envelopes (r ∷ rs) ≡ env ∷ envelopes rs = rw (brings, envelopes) refl in
            (
              turn_of env rid pieces result ++ replies,
              e ∙ ap (λ l. l ++ replies) more ∙ append_assoc s.link.replies _ replies,
              subst (λ es. IsAnswered es (turn_of env rid pieces result ++ replies)) (sym one_more)
                  (rid, pieces, result, replies, refl, a),
            )
      ]
