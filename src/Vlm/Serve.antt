-- ===== src/Vlm/Serve.antt =====
-- The request loop of src/serving/vlm-server.cpp on its ZeroMQ ROUTER socket. A round is what the poll and
-- the receives of one turn of the loop meet, and which of its sends succeed.
pub mod Answered
pub mod Pictures
use vla_cpp.Common.{
  ℕ, suc, ◌+◌, Bool, true, false, ◌||◌, Option, none, some, List, [], ◌∷◌, ◌++◌, if◌then◌else◌,
  Result, ok, err,
}
use vla_cpp.Common.Int.{ℤ, pos}
use vla_cpp.HfFetch.Names.{Str}
use vla_cpp.Serving.Decode.{Stb}
use vla_cpp.Serving.Loop.{
  Failure, interrupted, terminated, other, Polled, poll_error, idle, readable,
}
use vla_cpp.Vlm.{ChatRequest, Picture, Why, request_parse}
use vla_cpp.Vlm.Envelope.{Part, receive}
use vla_cpp.Vlm.Request.{check_request, sampling_params}
use vla_cpp.Vlm.Chat.{Llama, ChatResult, error_result, chat}

-- StreamMessage: a delta or the final response, each with the request's id. The times are left out.
pub data StreamMessage : Type 0 where
  delta : (request_id : ℕ) (piece : Str) → StreamMessage
  final : (request_id : ℕ) → ChatResult → StreamMessage

-- The socket and the shutdown flag: the messages that were sent with the envelope in front, and how
-- many sends were tried.
pub record Link : Type 0 where
  pub replies : List (List Str × StreamMessage)
  pub attempts : ℕ
  pub shutdown : Bool

pub record Server (C : Type 0) : Type 0 where
  pub link : Link
  pub stopped : Bool
  pub served : ℕ
  pub ctx : C

-- `signalled` says that a signal came since the last test of `g_shutdown`; `sends n` whether the `n`th
-- send succeeds.
pub record Round : Type 0 where
  pub signalled : Bool
  pub polled : Polled
  pub parts : List Part
  pub sends : ℕ → Bool

-- A send that throws sets `g_shutdown`.
unfoldable pub send_reply : (ℕ → Bool) → List Str → Link → StreamMessage → Link
send_reply sends env link body =
    let tried : Link = record link { attempts = suc link.attempts } in
    if sends link.attempts
    then (record tried { replies = link.replies ++ (env, body) ∷ [] })
    else (record tried { shutdown = true })

unfoldable pub make_error_stream : ℕ → Why → StreamMessage
make_error_stream rid why = final rid (error_result why)

-- The callback of a request that streams: it always goes on.
unfoldable pub token_callback : Bool → (ℕ → Bool) → List Str → ℕ → Option (Str → Link → Bool × Link)
unfolding send_reply
token_callback false sends env rid = none
token_callback true sends env rid =
    some (λ piece link. (true, send_reply sends env link (delta rid piece)))

module _ {K : Type 0} (llama : Llama K) (stb : Stb) (defaults : K) (n_ctx : ℤ)
    (parse : Str → Option (ChatRequest K)) where
  open llama use {C}

  -- From the call of the engine to the end of the turn.
  unfoldable pub respond :
      (ℕ → Bool) → List Str → Server C → ChatRequest K → List Picture → Server C
  unfolding token_callback chat sampling_params send_reply
  respond sends env s req pictures =
      let callback = token_callback req.stream sends env req.request_id in
      let (result, ctx, link) =
        chat llama callback req.messages pictures (sampling_params defaults n_ctx req.sampling)
          s.ctx s.link in
      record s {
        link = send_reply sends env link (final req.request_id result);
        served = suc s.served;
        ctx = ctx;
      }

  unfoldable pub serve_payload : (ℕ → Bool) → List Str → Server C → Str → Server C
  unfolding respond make_error_stream send_reply check_request
  serve_payload sends env s payload = elim (parse payload) [
    | none ↦ record s { link = send_reply sends env s.link (make_error_stream 0 request_parse) }
    | some req ↦ elim (check_request stb req) [
      | err why ↦ record s {
        link = send_reply sends env s.link (make_error_stream req.request_id why);
      }
      | ok pictures ↦ respond sends env s req pictures
    ]
  ]

  unfoldable pub serve_parts : (ℕ → Bool) → Server C → List Part → Server C
  unfolding receive serve_payload
  serve_parts sends s parts = elim (receive parts).0 [
    | none ↦ s
    | some (env, payload) ↦ serve_payload sends env s payload
  ]

  unfoldable pub on_polled : Server C → Polled → List Part → (ℕ → Bool) → Server C
  unfolding serve_parts
  on_polled s (poll_error interrupted) parts sends = s
  on_polled s (poll_error terminated) parts sends = record s { stopped = true }
  on_polled s (poll_error other) parts sends = s
  on_polled s idle parts sends = s
  on_polled s readable parts sends = serve_parts sends s parts

  unfoldable pub shut : Server C → Server C
  shut s = record s { link = record s.link { shutdown = true } }

  -- One turn of the loop; a server that has left the loop stays as it is.
  unfoldable pub step : Server C → Round → Server C
  unfolding on_polled shut
  step s r =
      if s.stopped || s.link.shutdown
      then s
      else (if r.signalled then shut s else on_polled s r.polled r.parts r.sends)

  unfoldable pub run : Server C → List Round → Server C
  unfolding step
  run s [] = s
  run s (r ∷ rs) = run (step s r) rs
