-- ===== src/CiAgent/Tests.antt =====
-- The agent at concrete inputs: a machine that can run one background process, 7, and has a small
-- tree of files.
use vla_cpp.Common.{
  ◌++◌, All, length, ◌≡◌, refl, inl, inr, Bool, true, false, Option, none, some, List, [], ◌∷◌, ok,
  if◌then◌else◌, arith,
}
use vla_cpp.Common.Int.{ℤ, pos, negsuc, eq_ℤ}
use vla_cpp.HfFetch.Names.{Str}
use vla_cpp.HfFetch.Names.Match.{str_eq}
use vla_cpp.CiAgent.{
  Reply, started, spawn, Request, exited, Pass, Entries, entry, none_left, and_then, Os,
}
use vla_cpp.CiAgent.Process.{capture_loop}
use vla_cpp.CiAgent.Process.Capture.{all_pieces, capture_loop-ends}
use vla_cpp.CiAgent.Archive.{prune_walk, strip_dot_slash, ends_in_slash, members}
use vla_cpp.CiAgent.Archive.Prune.{files, sweep, prune_walk-sweep}
use vla_cpp.CiAgent.Archive.Listing.{listing_of, file_names, members-listing_of}
use vla_cpp.CiAgent.Handle.{Agent, serve, is_empty_text}
use vla_cpp.CiAgent.Handle.Auth.{IsRefusal, serve-IsRefusal}
use vla_cpp.CiAgent.Handle.Orphans.{Reaps}
use vla_cpp.CiAgent.Handle.Tracked.{IsTracked, serve-IsTracked}

abbrev tree : Entries
tree = and_then (entry (97 ∷ []) false true none_left) (
    and_then
      (entry (98 ∷ []) true false
        (and_then (entry (98 ∷ 47 ∷ 99 ∷ []) false true none_left) none_left))
      none_left)

abbrev one_process : Os
one_process = record {
  W = Bool;
  uname = λ w. ([], []);
  getcwd = λ w. none;
  temp_file = λ w. [];
  write_file = λ path text w. w;
  read_file = λ path w. none;
  create_directories = λ path w. w;
  remove = λ path w. (true, w);
  listing = λ path w. tree;
  relative = λ path dst. path;
  fork_capture = λ cwd argv env w. (none, w);
  fork_detached = λ cwd argv env logfile w. (pos 7, true);
  parent_path = λ path. [];
  killpg = λ pid sig w. w;
  poll_child = λ pid w. if eq_ℤ pid (pos 7) then (pid, false) else (pid, w);
  wait_child = λ pid w. if eq_ℤ pid (pos 7) then false else w;
  sleep = λ w. w;
}

abbrev IsSeven : ℤ → Bool → Type 0
IsSeven q w = (w ≡ true) × (q ≡ pos 7)

one_process-Reaps : Reaps one_process IsSeven
one_process-Reaps = record {
  write_file = λ p t q w r. r;
  create_directories = λ p q w r. r;
  remove = λ p q w r. r;
  fork_capture = λ cwd argv env q w r. r;
  fork_detached = λ cwd argv env logfile q w r. inr (r.1, ground arith);
  killpg = λ p sig q w r. r;
  sleep = λ q w r. r;
  poll_child = λ p q w r. ground arith;
  poll_reaps = λ p w e r. ground arith;
  wait_child = λ p q w r. ground arith;
}

abbrev idle : Agent Bool
idle = record { spawned = []; world = false }

abbrev token : Str
token = 115 ∷ []

-- Two requests of the owner.
abbrev parse : Str → Option Request
parse [] = none
parse (c ∷ s) = some (record { token = token; op = spawn (c ∷ []) [] (token ∷ []) [] s })

abbrev busy : Agent Bool
busy = record { spawned = (97 ∷ [], pos 7) ∷ []; world = true }

serve-IsTracked_example : IsTracked one_process IsSeven one_process-Reaps busy
unfolding serve
serve-IsTracked_example =
    serve-IsTracked one_process IsSeven one_process-Reaps token parse ((97 ∷ []) ∷ []) [] idle
      (tt, λ q r. ground arith) (started (pos 7) ∷ [], busy) refl

serve-IsRefusal_example :
    (replies : List Reply) × (serve one_process (116 ∷ []) parse ([] ∷ (97 ∷ []) ∷ []) [] busy
      ≡ ok ([] ++ replies, busy))
    × (length replies ≡ 2)
    × All IsRefusal replies
unfolding is_empty_text str_eq
serve-IsRefusal_example =
    serve-IsRefusal one_process (116 ∷ []) parse ([] ∷ (97 ∷ []) ∷ []) [] busy refl (
      inl refl,
      (inr (record { token = token; op = spawn (97 ∷ []) [] (token ∷ []) [] [] }, refl, refl), tt),
    )

prune_walk-sweep_example :
    prune_walk one_process [] ((98 ∷ []) ∷ []) [] tree (false, 0)
    ≡ sweep one_process [] ((98 ∷ []) ∷ []) [] (files tree) (false, 0)
prune_walk-sweep_example =
    prune_walk-sweep one_process [] ((98 ∷ []) ∷ []) [] tree (false, 0)
      (tt, (((99 ∷ [], refl), tt, tt), tt))

-- "./", "./a", "./b/" and "./b/c", as `tar czf - -C src .` makes them, and one name without "./".
abbrev names : List (Bool × Str)
names =
    (true, [])
    ∷ (true, 97 ∷ [])
    ∷ (true, 98 ∷ 47 ∷ [])
    ∷ (true, 98 ∷ 47 ∷ 99 ∷ [])
    ∷ (false, 100 ∷ [])
    ∷ []

listed : file_names names ≡ (97 ∷ []) ∷ (98 ∷ 47 ∷ 99 ∷ []) ∷ (100 ∷ []) ∷ []
unfolding ends_in_slash
listed = refl

members-listing_of_example : members [] (listing_of names) ≡ file_names names
unfolding strip_dot_slash
members-listing_of_example = members-listing_of names (
  tt,
  (
    (ground arith, tt),
    (
      (ground arith, (ground arith, tt)),
      ((ground arith, (ground arith, (ground arith, tt))), (((ground arith, tt), refl), tt)),
    ),
  ),
)

abbrev waiting : Pass
waiting = record { pieces = (104 ∷ []) ∷ (105 ∷ []) ∷ []; waited = pos 0; status = exited 0 }

abbrev reaping : Pass
reaping = record { pieces = []; waited = pos 7; status = exited 3 }

abbrev final : Pass
final = record { pieces = (33 ∷ []) ∷ []; waited = negsuc 0; status = exited 0 }

capture_loop-ends_example :
    capture_loop (pos 7) (waiting ∷ reaping ∷ final ∷ waiting ∷ []) false (exited 0) []
    ≡ ok (exited 3, [] ++ all_pieces (waiting ∷ reaping ∷ final ∷ []))
capture_loop-ends_example =
    capture_loop-ends (pos 7) (waiting ∷ []) reaping final (waiting ∷ []) (exited 0) [] (refl, tt)
      refl
