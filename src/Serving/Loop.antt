-- ===== src/Serving/Loop.antt =====
-- The request loop of src/serving/server.cpp on its ZeroMQ REP socket.
-- The environment is a list of rounds: what the poll, the receive and the send of each round meet.
-- The socket keeps the frames that are still queued of a message whose reply is owed; a reply is
-- refused by the socket while frames are queued, or when no reply is owed (EFSM).
pub mod Lockstep
pub mod Replies
pub mod Safety
use vla_cpp.Common.{
  ℕ, ◌+◌, ◌%◌, ◌^◌, Bool, true, false, ◌||◌, Option, none, some, List, [], ◌∷◌, ◌++◌, ok, err,
  if◌then◌else◌,
}
use vla_cpp.Serving.Message.{
  PredictRequest, TimingDetail, Inputs, Stats, Config, Refusal, several_frames, parse_failed,
  predict_failed, error, actions, PredictResponse,
}
use vla_cpp.Serving.Decode.{Floats, Stb}
use vla_cpp.Serving.Validate.{is_empty, validate}

-- A loaded model behind the calls of src/model.h: its state, a prediction and the last timings.
pub record Engine (F : Type 0) : Type 1 where
  pub M : Type 0
  pub predict : M → Inputs F → List F × M
  pub last_stats : M → Stats F

abbrev pub Frame : Type 0
Frame = List ℕ

-- EINTR, ETERM and the other errors of ZeroMQ.
pub data Failure : Type 0 where
  interrupted terminated other : Failure

pub data Polled : Type 0 where
  poll_error : Failure → Polled
  idle readable : Polled

-- `recv` has nothing, fails, or takes the first frame of a message and leaves the others queued.
pub data Received : Type 0 where
  nothing : Received
  recv_error : Failure → Received
  message : Frame → List Frame → Received

-- `signalled` says that SIGINT or SIGTERM came since the loop's last test of `g_shutdown`.
pub record Round : Type 0 where
  pub signalled : Bool
  pub polled : Polled
  pub received : Received
  pub sendable : Bool

pub record Server (F M : Type 0) : Type 0 where
  pub shutdown : Bool
  pub stopped : Bool
  pub pending : Option (List Frame)
  pub replies : List (PredictResponse F)
  pub served : ℕ
  pub model : M

-- The loop of drain_extra_frames: the frames left, and whether there were any.
unfoldable pub drain_frames : List Frame → Bool → List Frame × Bool
drain_frames [] extra = ([], extra)
drain_frames (junk ∷ queued) extra = drain_frames queued true

unfoldable pub make_error_response : {F : Type 0} → ℕ → Refusal → PredictResponse F
make_error_response rid why = record { request_id = rid; body = error why }

module _ {F M : Type 0} where
  -- A reply that the socket refuses sets `g_shutdown`.
  unfoldable pub send_reply : Bool → Server F M → PredictResponse F → Server F M
  send_reply sendable s body = elim s.pending [
    | none ↦ record s { shutdown = true }
    | some [] ↦
        if sendable
        then (record s { pending = none; replies = s.replies ++ body ∷ [] })
        else (record s { shutdown = true })
    | some (f ∷ fs) ↦ record s { shutdown = true }
  ]

  -- `if (e.num() == EINTR) continue; if (e.num() == ETERM) break; ... continue;`
  unfoldable pub zmq_failed : Failure → Server F M → Server F M
  zmq_failed interrupted s = s
  zmq_failed terminated s = record s { stopped = true }
  zmq_failed other s = s

module _ (fl : Floats) (stb : Stb) (cfg : Config) (timing : TimingDetail) (engine : Engine fl.F)
    (parse : Frame → Option (PredictRequest fl.F)) where
  open fl use {F}
  open engine use {M, predict, last_stats}

  -- The response to an action chunk; the sizes become `uint32_t`.
  unfoldable pub action_response : ℕ → List F → Stats F → PredictResponse F
  action_response rid chunk st = record {
    request_id = rid;
    body = actions (record {
      action_chunk = chunk;
      chunk_size = cfg.n_suffix % 2 ^ 32;
      action_dim = cfg.max_action_dim % 2 ^ 32;
      latency = st;
    });
  }

  -- From `predict` to the end of the round, and `++served`.
  unfoldable pub respond : Bool → Server F M → ℕ → Inputs F → Server F M
  unfolding action_response make_error_response
  respond sendable s rid inp =
      let (chunk, model) = predict s.model inp in
      let s' : Server F M = record s { model = model } in
      if is_empty chunk
      then send_reply sendable s' (make_error_response rid predict_failed)
      else (let sent = send_reply sendable s' (action_response rid chunk (last_stats model)) in
          record sent { served = sent.served + 1 })

  unfoldable pub serve_request : Bool → Server F M → PredictRequest F → Server F M
  unfolding respond make_error_response
  serve_request sendable s req = elim (validate fl stb cfg timing req) [
    | err why ↦ send_reply sendable s (make_error_response req.request_id why)
    | ok inp ↦ respond sendable s req.request_id inp
  ]

  unfoldable pub serve_message : Bool → Server F M → Frame → List Frame → Server F M
  unfolding serve_request make_error_response drain_frames
  serve_message sendable s first queued =
      let (left, extra) = drain_frames queued false in
      let s' : Server F M = record s { pending = some left } in
      if extra
      then send_reply sendable s' (make_error_response 0 several_frames)
      else (elim (parse first) [
        | none ↦ send_reply sendable s' (make_error_response 0 parse_failed)
        | some req ↦ serve_request sendable s' req
      ])

  unfoldable pub on_readable : Server F M → Received → Bool → Server F M
  unfolding serve_message zmq_failed
  on_readable s nothing sendable = s
  on_readable s (recv_error e) sendable = zmq_failed e s
  on_readable s (message first queued) sendable = serve_message sendable s first queued

  unfoldable pub on_polled : Server F M → Polled → Received → Bool → Server F M
  unfolding on_readable zmq_failed
  on_polled s (poll_error e) received sendable = zmq_failed e s
  on_polled s idle received sendable = s
  on_polled s readable received sendable = on_readable s received sendable

  -- One round of the loop; a server that has left the loop stays as it is.
  unfoldable pub step : Server F M → Round → Server F M
  unfolding on_polled
  step s r =
      if s.stopped || s.shutdown
      then s
      else (if r.signalled
          then (record s { shutdown = true })
          else (on_polled s r.polled r.received r.sendable))

  unfoldable pub run : Server F M → List Round → Server F M
  run s [] = s
  run s (r ∷ rs) = run (step s r) rs
