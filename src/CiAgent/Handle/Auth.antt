-- ===== src/CiAgent/Handle/Auth.antt =====
-- The token of ci/agent/agent.cpp: what a client without it can do.
use vla_cpp.Common.{
  suc, length, ap, ◌∙◌, ◌≡◌, refl, inl, inr, ◌⊎◌, false, Option, none, some, List, [], ◌∷◌, ◌++◌,
  All, ok,
}
use mathlib.Core.List.{append-nil, append_assoc}
use vla_cpp.HfFetch.Names.{Str}
use vla_cpp.HfFetch.Names.Match.{str_eq}
use vla_cpp.CiAgent.{Request, Reply, refused, malformed, auth_failed, Os}
use vla_cpp.CiAgent.Handle.{Agent, is_empty_text, answer, serve}

-- Not a request, or one with another token.
abbrev pub IsForeign : Str → (Str → Option Request) → Str → Type 0
IsForeign token parse msg =
    (parse msg ≡ none)
    ⊎ ((req : Request) × (parse msg ≡ some req) × (str_eq req.token token ≡ false))

abbrev pub IsRefusal : Reply → Type 0
IsRefusal reply = (reply ≡ refused malformed) ⊎ (reply ≡ refused auth_failed)

module _ (os : Os) (token : Str) (parse : Str → Option Request) where
  answer-IsRefusal :
      (msg : Str) (s : Agent os.W)
      → is_empty_text token ≡ false
      → IsForeign token parse msg
      → (reply : Reply) × (answer os token parse msg s ≡ ok (reply, s)) × IsRefusal reply
  unfolding answer
  answer-IsRefusal msg s set (inl bad) = (refused malformed, rw (bad, answer) refl, inl refl)
  answer-IsRefusal msg s set (inr (req, e, differs)) =
      (refused auth_failed, rw (e, set, differs, answer) refl, inr refl)

  -- If a token is set, messages without it change neither the machine nor the list of processes,
  -- and each of them gets one reply, an error.
  pub serve-IsRefusal :
      (msgs : List Str) (before : List Reply) (s : Agent os.W)
      → is_empty_text token ≡ false
      → All (IsForeign token parse) msgs
      → (replies : List Reply) × (serve os token parse msgs before s ≡ ok (before ++ replies, s))
        × (length replies ≡ length msgs)
        × All IsRefusal replies
  unfolding serve
  serve-IsRefusal [] before s set h = ([], rw (append-nil before) refl, refl, tt)
  serve-IsRefusal (msg ∷ msgs) before s set (m, h) =
      let (reply, e, bad) = answer-IsRefusal msg s set m in
      let (replies, e', same, bads) = serve-IsRefusal msgs (before ++ reply ∷ []) s set h in
      (
        reply ∷ replies,
        rw e (e' ∙ rw (append_assoc before (reply ∷ []) replies) refl),
        ap suc same,
        (bad, bads),
      )
