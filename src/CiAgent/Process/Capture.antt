-- ===== src/CiAgent/Process/Capture.antt =====
-- What run_capture of ci/agent/agent.cpp captures, and when it stops.
use vla_cpp.Common.{◌≡◌, refl, sym, ◌∙◌, true, false, List, [], ◌∷◌, ◌++◌, All, ok}
use mathlib.Core.List.{append-nil, append_assoc}
use vla_cpp.Common.Int.{ℤ, eq_ℤ}
use vla_cpp.HfFetch.Names.{Str}
use vla_cpp.CiAgent.{Status, Pass}
use vla_cpp.CiAgent.Process.{append_pieces, capture_loop}

abbrev pub concat : List Str → Str
concat [] = []
concat (piece ∷ pieces) = piece ++ concat pieces

abbrev pub all_pieces : List Pass → Str
all_pieces [] = []
all_pieces (pass ∷ passes) = concat pass.pieces ++ all_pieces passes

append_pieces-concat :
    (out : Str) (pieces : List Str) → append_pieces out pieces ≡ out ++ concat pieces
unfolding append_pieces
append_pieces-concat out [] = sym (append-nil out)
append_pieces-concat out (piece ∷ pieces) =
    append_pieces-concat (out ++ piece) pieces ∙ append_assoc out piece (concat pieces)

-- If waitpid reports the child in some pass and not before, the capture ends with the next pass,
-- whatever the pipe still brings later: it gives the status that was reported, and all that was
-- read in these passes, in order.
pub capture_loop-ends :
    (pid : ℤ) (before : List Pass) (reaping final : Pass) (later : List Pass) (st : Status)
    (out : Str)
    → All (λ pass. eq_ℤ pass.waited pid ≡ false) before
    → eq_ℤ reaping.waited pid ≡ true
    → capture_loop pid (before ++ reaping ∷ final ∷ later) false st out
      ≡ ok (reaping.status, out ++ all_pieces (before ++ reaping ∷ final ∷ []))
unfolding capture_loop
capture_loop-ends pid [] reaping final later st out h r =
    rw
      (
        r,
        capture_loop,
        append_pieces-concat out reaping.pieces,
        append_pieces-concat (out ++ concat reaping.pieces) final.pieces,
        append-nil (concat final.pieces),
        append_assoc out (concat reaping.pieces) (concat final.pieces),
      )
      refl
capture_loop-ends pid (pass ∷ before) reaping final later st out (d, h) r =
    rw
      (
        d,
        capture_loop,
        capture_loop-ends pid before reaping final later pass.status (append_pieces out pass.pieces)
            h r,
        append_pieces-concat out pass.pieces,
        append_assoc out (concat pass.pieces) (all_pieces (before ++ reaping ∷ final ∷ [])),
      )
      refl
