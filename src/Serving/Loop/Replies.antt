-- ===== src/Serving/Loop/Replies.antt =====
-- What the server answers, as a function of the messages alone, and that the loop implements it.
use mathlib.Core.List.{append_assoc, append-nil}
use vla_cpp.Common.{
  ℕ, ◌≡◌, ◌≢◌, inl, inr, refl, sym, ◌∙◌, true, false, Option, none, some, List, [], ◌∷◌, ◌++◌, ok,
  err, Bool-cases, Option-cases, Result-cases, if◌then◌else◌,
}
use vla_cpp.Serving.Message.{
  PredictRequest, PredictResponse, TimingDetail, Inputs, Config, several_frames, parse_failed,
  predict_failed,
}
use vla_cpp.Serving.Decode.{Floats, Stb}
use vla_cpp.Serving.Validate.{is_empty, validate}
use vla_cpp.Serving.Loop.{
  Engine, Frame, interrupted, terminated, other, Polled, poll_error, idle, readable, Received,
  nothing, recv_error, message, Round, Server, drain_frames, send_reply, zmq_failed,
  make_error_response, action_response, respond, serve_request, serve_message, on_readable,
  on_polled, step, run,
}

-- A round without a signal, in which a reply can be sent and the context is not terminated.
pub record IsCalm (r : Round) : Type 0 where
  pub unsignalled : r.signalled ≡ false
  pub sendable : r.sendable ≡ true
  pub polls : r.polled ≢ poll_error terminated
  pub receives : r.received ≢ recv_error terminated

abbrev pub AllCalm : List Round → Type 0
AllCalm [] = Unit
AllCalm (r ∷ rs) = IsCalm r × AllCalm rs

-- The message that a round brings.
abbrev pub message_of : Polled → Received → Option (Frame × List Frame)
message_of readable (message first queued) = some (first, queued)
message_of readable nothing = none
message_of readable (recv_error e) = none
message_of idle _ = none
message_of (poll_error e) _ = none

-- A server in its loop that owes no reply.
pub record IsReady {F M : Type 0} (s : Server F M) : Type 0 where
  pub running : s.stopped ≡ false
  pub open_ : s.shutdown ≡ false
  pub settled : s.pending ≡ none

module _ (fl : Floats) (stb : Stb) (cfg : Config) (timing : TimingDetail) (engine : Engine fl.F)
    (parse : Frame → Option (PredictRequest fl.F)) where
  open fl use {F}
  open engine use {M, predict, last_stats}

  -- The answer to inputs, to a request and to a message, with the model's next state.
  unfoldable pub answer_inputs : M → ℕ → Inputs F → PredictResponse F × M
  answer_inputs m rid inp =
      let (chunk, m') = predict m inp in
      (
        if is_empty chunk
            then make_error_response rid predict_failed
            else (action_response fl stb cfg timing engine parse rid chunk (last_stats m')),
        m',
      )

  unfoldable pub answer_request : M → PredictRequest F → PredictResponse F × M
  unfolding answer_inputs
  answer_request m req = elim (validate fl stb cfg timing req) [
    | err why ↦ (make_error_response req.request_id why, m)
    | ok inp ↦ answer_inputs m req.request_id inp
  ]

  unfoldable pub answer : M → Frame × List Frame → PredictResponse F × M
  unfolding answer_request
  answer m (first, queued ∷ more) = (make_error_response 0 several_frames, m)
  answer m (first, []) = elim (parse first) [
    | none ↦ (make_error_response 0 parse_failed, m)
    | some req ↦ answer_request m req
  ]

  unfoldable pub answers : M → List Round → List (PredictResponse F)
  answers m [] = []
  answers m (r ∷ rs) = elim (message_of r.polled r.received) [
    | none ↦ answers m rs
    | some msg ↦ (answer m msg).0 ∷ answers (answer m msg).1 rs
  ]

  -- `s` has sent one more reply than `old`.
  record Replied (old : List (PredictResponse F)) (s : Server F M) (a : PredictResponse F × M)
      : Type 0 where
    ready : IsReady s
    replies : s.replies ≡ old ++ a.0 ∷ []
    model : s.model ≡ a.1

  served-Replied :
      {old : List (PredictResponse F)} {s : Server F M} {a : PredictResponse F × M} (n : ℕ)
      → Replied old s a
      → Replied old (record s { served = n }) a
  served-Replied n r = record {
    ready = record { running = r.ready.running; open_ = r.ready.open_; settled = r.ready.settled };
    replies = r.replies;
    model = r.model;
  }

  send_reply-Replied :
      (s : Server F M) (body : PredictResponse F)
      → s.stopped ≡ false
      → s.shutdown ≡ false
      → s.pending ≡ some []
      → Replied s.replies (send_reply true s body) (body, s.model)
  unfolding send_reply
  send_reply-Replied s body a b c =
      rw (c, send_reply)
        (record {
          ready = record { running = a; open_ = b; settled = refl };
          replies = refl;
          model = refl;
        })

  -- A server that owes the reply to a message of which no frame is queued.
  record IsOwing (s : Server F M) : Type 0 where
    running : s.stopped ≡ false
    open_ : s.shutdown ≡ false
    owed : s.pending ≡ some []

  respond-Replied :
      (s : Server F M) (rid : ℕ) (inp : Inputs F)
      → IsOwing s
      → Replied s.replies
          (respond fl stb cfg timing engine parse true s rid inp)
          (answer_inputs s.model rid inp)
  unfolding respond answer_inputs
  respond-Replied s rid inp o = elim (Bool-cases (is_empty (predict s.model inp).0)) [
    | inl e ↦ rw e (send_reply-Replied _ _ o.running o.open_ o.owed)
    | inr e ↦ rw e (served-Replied _ (send_reply-Replied _ _ o.running o.open_ o.owed))
  ]

  serve_request-Replied :
      (s : Server F M) (req : PredictRequest F)
      → IsOwing s
      → Replied s.replies
          (serve_request fl stb cfg timing engine parse true s req)
          (answer_request s.model req)
  unfolding serve_request answer_request
  serve_request-Replied s req o = elim (Result-cases (validate fl stb cfg timing req)) [
    | inl (why, e) ↦
        rw (e, serve_request, answer_request) (send_reply-Replied s _ o.running o.open_ o.owed)
    | inr (inp, e) ↦ rw (e, serve_request, answer_request) (respond-Replied s req.request_id inp o)
  ]

  drain_frames-true : (queued : List Frame) → drain_frames queued true ≡ ([], true)
  unfolding drain_frames
  drain_frames-true [] = refl
  drain_frames-true (f ∷ fs) = drain_frames-true fs

  drained : (s : Server F M) → IsReady s → IsOwing (record s { pending = some [] })
  drained s h = record { running = h.running; open_ = h.open_; owed = refl }

  serve_message-Replied :
      (s : Server F M) (first : Frame) (queued : List Frame)
      → IsReady s
      → Replied s.replies
          (serve_message fl stb cfg timing engine parse true s first queued)
          (answer s.model (first, queued))
  unfolding serve_message answer drain_frames
  serve_message-Replied s first (junk ∷ queued) h =
      rw (drain_frames-true queued, serve_message) (send_reply-Replied _ _ h.running h.open_ refl)
  serve_message-Replied s first [] h = elim (Option-cases (parse first)) [
    | inl e ↦ rw (e, serve_message, answer) (send_reply-Replied _ _ h.running h.open_ refl)
    | inr (req, e) ↦ rw (e, serve_message, answer) (serve_request-Replied _ req (drained s h))
  ]

  -- What a calm round does to a ready server: nothing, or the reply to its message.
  abbrev After : Server F M → Server F M → Option (Frame × List Frame) → Type 0
  After s s' none = s' ≡ s
  After s s' (some msg) = Replied s.replies s' (answer s.model msg)

  on_polled-After :
      (s : Server F M) (p : Polled) (rec : Received)
      → IsReady s
      → p ≢ poll_error terminated
      → rec ≢ recv_error terminated
      → After s (on_polled fl stb cfg timing engine parse s p rec true) (message_of p rec)
  unfolding on_polled on_readable zmq_failed
  on_polled-After s (poll_error interrupted) rec h a b = refl
  on_polled-After s (poll_error terminated) rec h a b = absurd (a refl)
  on_polled-After s (poll_error other) rec h a b = refl
  on_polled-After s idle rec h a b = refl
  on_polled-After s readable nothing h a b = refl
  on_polled-After s readable (recv_error interrupted) h a b = refl
  on_polled-After s readable (recv_error terminated) h a b = absurd (b refl)
  on_polled-After s readable (recv_error other) h a b = refl
  on_polled-After s readable (message first queued) h a b = serve_message-Replied s first queued h

  step-calm :
      (s : Server F M) (r : Round)
      → IsReady s
      → IsCalm r
      → step fl stb cfg timing engine parse s r
        ≡ on_polled fl stb cfg timing engine parse s r.polled r.received true
  unfolding step
  step-calm s r h c = simp (h.running, h.open_, c.unsignalled, c.sendable)

  step-After :
      (s : Server F M) (r : Round)
      → IsReady s
      → IsCalm r
      → After s (step fl stb cfg timing engine parse s r) (message_of r.polled r.received)
  step-After s r h c =
      rw (step-calm s r h c) (on_polled-After s r.polled r.received h c.polls c.receives)

  answers-none :
      (m : M) (r : Round) (rs : List Round)
      → message_of r.polled r.received ≡ none
      → answers m (r ∷ rs) ≡ answers m rs
  unfolding answers
  answers-none m r rs e = rw (e, answers)

  answers-some :
      (m : M) (r : Round) (rs : List Round) {msg : Frame × List Frame}
      → message_of r.polled r.received ≡ some msg
      → answers m (r ∷ rs) ≡ (answer m msg).0 ∷ answers (answer m msg).1 rs
  unfolding answers
  answers-some m r rs e = rw (e, answers)

  -- Over any rounds without a signal, a failed send or a terminated context, whatever the messages
  -- hold, the replies of the loop are the answers to the messages in their order, each exactly one,
  -- and the server stays ready.
  pub run-answers :
      (s : Server F M) (rs : List Round)
      → IsReady s
      → AllCalm rs
      → ((run fl stb cfg timing engine parse s rs).replies ≡ s.replies ++ answers s.model rs)
        × IsReady (run fl stb cfg timing engine parse s rs)
  unfolding run answers
  run-answers s [] h c = (sym (append-nil _), h)
  run-answers s (r ∷ rs) h (c, cs) = elim (Option-cases (message_of r.polled r.received)) [
    | inl e ↦
        let quiet = rw e at (step-After s r h c) in
        let (ih, ready) =
          run-answers (step fl stb cfg timing engine parse s r) rs (rw quiet h) cs in
        (ih ∙ rw (quiet, answers-none s.model r rs e), ready)
    | inr (msg, e) ↦
        let sent = rw e at (step-After s r h c) in
        let (ih, ready) = run-answers (step fl stb cfg timing engine parse s r) rs sent.ready cs in
        (
          ih
              ∙ rw (sent.replies, sent.model, answers-some s.model r rs e)
                  (append_assoc s.replies _ _),
          ready,
        )
  ]
