-- ===== src/Serving/Loop/Safety.antt =====
-- The engine is only run on safe inputs: what it does on others cannot be observed.
use vla_cpp.Common.{
  ◌≡◌, refl, inl, inr, Bool, Option, List, [], ◌∷◌, Bool-cases, Option-cases, Result-cases,
}
use vla_cpp.Serving.Message.{PredictRequest, TimingDetail, Inputs, Stats, Config}
use vla_cpp.Serving.Decode.{Floats, Stb}
use vla_cpp.Serving.Decode.Bounds.{FillsImage}
use vla_cpp.Serving.Validate.{validate}
use vla_cpp.Serving.Validate.Safe.{IsSmall}
use vla_cpp.Serving.Validate.Sound.{IsSafe, validate-IsSafe}
use vla_cpp.Serving.Loop.{
  Engine, Frame, Polled, poll_error, idle, readable, Received, nothing, recv_error, message, Round,
  Server, drain_frames, respond, serve_request, serve_message, on_readable, on_polled, step, run,
}

module _ (fl : Floats) (stb : Stb) (fills : FillsImage fl stb) (cfg : Config) (small : IsSmall cfg)
    (timing : TimingDetail) (parse : Frame → Option (PredictRequest fl.F)) where
  open fl use {F}

  module _ {M : Type 0} (last_stats : M → Stats F) (p q : M → Inputs F → List F × M)
      (agree : (m : M) (inp : Inputs F) → IsSafe fl cfg inp → p m inp ≡ q m inp) where
    abbrev engine_of : (M → Inputs F → List F × M) → Engine F
    engine_of predict = record { M = M; predict = predict; last_stats = last_stats }

    serve_request-agree :
        (b : Bool) (s : Server F M) (req : PredictRequest F)
        → serve_request fl stb cfg timing (engine_of p) parse b s req
          ≡ serve_request fl stb cfg timing (engine_of q) parse b s req
    unfolding serve_request respond
    serve_request-agree b s req = elim (Result-cases (validate fl stb cfg timing req)) [
      | inl (why, e) ↦ rw (e, serve_request)
      | inr (inp, e) ↦
          let safe = validate-IsSafe fl stb fills cfg timing req inp small e in
          rw (e, serve_request) (rw (agree s.model inp safe))
    ]

    serve_message-agree :
        (b : Bool) (s : Server F M) (first : Frame) (queued : List Frame)
        → serve_message fl stb cfg timing (engine_of p) parse b s first queued
          ≡ serve_message fl stb cfg timing (engine_of q) parse b s first queued
    unfolding serve_message
    serve_message-agree b s first queued = elim (Bool-cases (drain_frames queued Bool.false).1) [
      | inl several ↦ rw several
      | inr single ↦ elim (Option-cases (parse first)) [
        | inl e ↦ rw (e, serve_message)
        | inr (req, e) ↦ rw (e, serve_message) (rw (serve_request-agree b _ req))
      ]
    ]

    on_polled-agree :
        (s : Server F M) (polled : Polled) (received : Received) (b : Bool)
        → on_polled fl stb cfg timing (engine_of p) parse s polled received b
          ≡ on_polled fl stb cfg timing (engine_of q) parse s polled received b
    unfolding on_polled on_readable
    on_polled-agree s (poll_error e) received b = refl
    on_polled-agree s idle received b = refl
    on_polled-agree s readable nothing b = refl
    on_polled-agree s readable (recv_error e) b = refl
    on_polled-agree s readable (message first queued) b = serve_message-agree b s first queued

    step-agree :
        (s : Server F M) (r : Round)
        → step fl stb cfg timing (engine_of p) parse s r
          ≡ step fl stb cfg timing (engine_of q) parse s r
    unfolding step
    step-agree s r = rw (on_polled-agree s r.polled r.received r.sendable)

    -- Two engines that predict alike on safe inputs give the same server, whatever the clients send
    -- and the network does: unsafe inputs never reach the engine. It assumes that `int` holds the
    -- sizes of the configuration, and that the JPEG decoder fills the image that it reports.
    pub run-agree :
        (s : Server F M) (rs : List Round)
        → run fl stb cfg timing (engine_of p) parse s rs
          ≡ run fl stb cfg timing (engine_of q) parse s rs
    unfolding run
    run-agree s [] = refl
    run-agree s (r ∷ rs) =
        rw (step-agree s r) (run-agree (step fl stb cfg timing (engine_of q) parse s r) rs)
