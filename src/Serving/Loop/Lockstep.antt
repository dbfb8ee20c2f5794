-- ===== src/Serving/Loop/Lockstep.antt =====
-- The alternation of receive and reply on the REP socket.
use vla_cpp.Common.{
  ℕ, ◌≡◌, refl, ◌⊎◌, inl, inr, Bool, true, false, ◌||◌, Option, none, List, [], ◌∷◌, arith,
  Bool-cases, Option-cases, Result-cases,
}
use vla_cpp.Serving.Message.{PredictRequest, PredictResponse, TimingDetail, Inputs, Config}
use vla_cpp.Serving.Decode.{Floats, Stb}
use vla_cpp.Serving.Validate.{is_empty, validate}
use vla_cpp.Serving.Loop.{
  Engine, Frame, Failure, interrupted, terminated, other, Polled, poll_error, idle, readable,
  Received, nothing, recv_error, message, Round, Server, drain_frames, send_reply, zmq_failed,
  respond, serve_request, serve_message, on_readable, on_polled, step, run,
}

-- While the loop runs no reply is owed at the head of a round.
abbrev pub IsLockstep : {F M : Type 0} → Server F M → Type 0
IsLockstep s = ((s.stopped || s.shutdown) ≡ true) ⊎ (s.pending ≡ none)

pub drain_frames-all : (queued : List Frame) (extra : Bool) → (drain_frames queued extra).0 ≡ []
unfolding drain_frames
drain_frames-all [] extra = refl
drain_frames-all (f ∷ fs) extra = drain_frames-all fs true

module _ {F M : Type 0} where
  send_reply-IsLockstep :
      (b : Bool) (s : Server F M) (body : PredictResponse F) → IsLockstep (send_reply b s body)
  unfolding send_reply
  send_reply-IsLockstep b s body = ground arith

  zmq_failed-IsLockstep :
      (e : Failure) (s : Server F M) → IsLockstep s → IsLockstep (zmq_failed e s)
  unfolding zmq_failed
  zmq_failed-IsLockstep interrupted s h = h
  zmq_failed-IsLockstep terminated s h = inl refl
  zmq_failed-IsLockstep other s h = h

module _ (fl : Floats) (stb : Stb) (cfg : Config) (timing : TimingDetail) (engine : Engine fl.F)
    (parse : Frame → Option (PredictRequest fl.F)) where
  open fl use {F}
  open engine use {M}

  respond-IsLockstep :
      (b : Bool) (s : Server F M) (rid : ℕ) (inp : Inputs F)
      → IsLockstep (respond fl stb cfg timing engine parse b s rid inp)
  unfolding respond
  respond-IsLockstep b s rid inp = elim (Bool-cases (is_empty (engine.predict s.model inp).0)) [
    | inl e ↦ rw e (send_reply-IsLockstep b _ _)
    | inr e ↦ rw e (send_reply-IsLockstep b _ _)
  ]

  serve_request-IsLockstep :
      (b : Bool) (s : Server F M) (req : PredictRequest F)
      → IsLockstep (serve_request fl stb cfg timing engine parse b s req)
  unfolding serve_request
  serve_request-IsLockstep b s req = elim (Result-cases (validate fl stb cfg timing req)) [
    | inl (why, e) ↦ rw (e, serve_request) (send_reply-IsLockstep b _ _)
    | inr (inp, e) ↦ rw (e, serve_request) (respond-IsLockstep b s req.request_id inp)
  ]

  serve_message-IsLockstep :
      (b : Bool) (s : Server F M) (first : Frame) (queued : List Frame)
      → IsLockstep (serve_message fl stb cfg timing engine parse b s first queued)
  unfolding serve_message
  serve_message-IsLockstep b s first queued = elim (Bool-cases (drain_frames queued false).1) [
    | inl several ↦ rw several (send_reply-IsLockstep b _ _)
    | inr single ↦ rw single (elim (Option-cases (parse first)) [
      | inl e ↦ rw (e, serve_message) (send_reply-IsLockstep b _ _)
      | inr (req, e) ↦ rw (e, serve_message) (serve_request-IsLockstep b _ req)
    ])
  ]

  on_readable-IsLockstep :
      (s : Server F M) (rec : Received) (b : Bool)
      → IsLockstep s
      → IsLockstep (on_readable fl stb cfg timing engine parse s rec b)
  unfolding on_readable
  on_readable-IsLockstep s nothing b h = h
  on_readable-IsLockstep s (recv_error e) b h = zmq_failed-IsLockstep e s h
  on_readable-IsLockstep s (message f fs) b h = serve_message-IsLockstep b s f fs

  on_polled-IsLockstep :
      (s : Server F M) (p : Polled) (rec : Received) (b : Bool)
      → IsLockstep s
      → IsLockstep (on_polled fl stb cfg timing engine parse s p rec b)
  unfolding on_polled
  on_polled-IsLockstep s (poll_error e) rec b h = zmq_failed-IsLockstep e s h
  on_polled-IsLockstep s idle rec b h = h
  on_polled-IsLockstep s readable rec b h = on_readable-IsLockstep s rec b h

  step-IsLockstep :
      (s : Server F M) (r : Round)
      → IsLockstep s
      → IsLockstep (step fl stb cfg timing engine parse s r)
  unfolding step
  step-IsLockstep s r h = ground (arith, on_polled-IsLockstep s r.polled r.received r.sendable h)

  -- Whatever the clients send and the network does, at the head of each round either no reply is
  -- owed or the loop is over: every message that is received is answered before the next receive,
  -- or the server shuts down.
  pub run-IsLockstep :
      (s : Server F M) (rs : List Round)
      → IsLockstep s
      → IsLockstep (run fl stb cfg timing engine parse s rs)
  unfolding run
  run-IsLockstep s [] h = h
  run-IsLockstep s (r ∷ rs) h =
      run-IsLockstep (step fl stb cfg timing engine parse s r) rs (step-IsLockstep s r h)
