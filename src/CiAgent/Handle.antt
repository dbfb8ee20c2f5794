-- ===== src/CiAgent/Handle.antt =====
-- handle and the request loop of ci/agent/agent.cpp.
pub mod Auth
pub mod Orphans
pub mod Starts
pub mod Tracked
pub mod Table
use vla_cpp.Common.{
  ℕ, Bool, true, false, not, ◌&&◌, ◌||◌, Option, none, some, List, [], ◌∷◌, ◌++◌, ◌==◌,
  if◌then◌else◌, Result, ok, err, ◌>>=◌,
}
use vla_cpp.Common.Int.{ℤ, pos, eq_ℤ, is_negative}
use vla_cpp.HfFetch.Names.{Str}
use vla_cpp.HfFetch.Names.Match.{str_eq}
use vla_cpp.CiAgent.{
  Op, ping, put, exec, spawn, stop, get, rev, no_op, Request, Why, malformed, auth_failed,
  empty_argv, fork_failed, no_op_set, cannot_open, not_a_repo, Reply, refused, pinged, unpacked,
  executed, started, stopped, not_running, fetched, revision, Hang, hung, Os,
}
use vla_cpp.Common.Text.{bytes_of}
use vla_cpp.CiAgent.Process.{run_capture, spawn_detached, kill_group}
use vla_cpp.CiAgent.Archive.{pop_back_while, extract_and_prune}

-- `g_spawned`, each name once.
abbrev pub Spawned : Type 0
Spawned = List (Str × ℤ)

unfoldable pub find : Str → Spawned → Option ℤ
unfolding str_eq
find name [] = none
find name ((n, pid) ∷ m) = if str_eq n name then some pid else find name m

unfoldable pub erase : Str → Spawned → Spawned
unfolding str_eq
erase name [] = []
erase name ((n, pid) ∷ m) = if str_eq n name then m else (n, pid) ∷ erase name m

-- `g_spawned[name] = pid`
unfoldable pub assign : Str → ℤ → Spawned → Spawned
unfolding str_eq
assign name new [] = (name, new) ∷ []
assign name new ((n, pid) ∷ m) =
    if str_eq n name then (n, new) ∷ m else (n, pid) ∷ assign name new m

unfoldable pub is_space : ℕ → Bool
is_space c = c == 10 || c == 13 || c == 32

unfoldable pub is_empty_text : Str → Bool
is_empty_text [] = true
is_empty_text (c ∷ s) = false

pub record Agent (W : Type 0) : Type 0 where
  pub spawned : Spawned
  pub world : W

module _ (os : Os) where
  open os use {W}

  unfoldable pub handle_put : Str → Str → Bool → List Str → Agent W → Result Hang (Reply × Agent W)
  unfolding extract_and_prune
  handle_put dst targz prune protect s = do
    let tmp = os.temp_file s.world
    done ← extract_and_prune os tmp dst prune protect (os.write_file tmp targz s.world)
    let s' : Agent W = record s { world = (os.remove tmp done.1).1 }
    elim done.0 [ err why ↦ ok (refused why, s') | ok counts ↦ ok (unpacked counts.0 counts.1, s') ]

  unfoldable pub handle_exec : Str → List Str → List Str → Agent W → Result Hang (Reply × Agent W)
  unfolding run_capture
  handle_exec cwd [] env s = ok (refused empty_argv, s)
  handle_exec cwd (a ∷ argv) env s = do
    ran ← run_capture os cwd (a ∷ argv) env s.world
    ok (executed ran.0.0 ran.0.1, record s { world = ran.1 })

  -- `kill_group(prev->second); g_spawned.erase(prev);`
  unfoldable pub kill_named : Str → Agent W → Agent W
  unfolding find erase kill_group
  kill_named name s = elim (find name s.spawned) [
    | none ↦ s
    | some pid ↦ record { spawned = erase name s.spawned; world = kill_group os pid s.world }
  ]

  unfoldable pub handle_spawn : Str → Str → List Str → List Str → Str → Agent W → Reply × Agent W
  unfolding kill_named spawn_detached assign
  handle_spawn name cwd [] env logfile s = (refused empty_argv, s)
  handle_spawn name cwd (a ∷ argv) env logfile s =
      let s1 = kill_named name s in
      let (pid, w) = spawn_detached os cwd (a ∷ argv) env logfile s1.world in
      if is_negative pid
      then (refused fork_failed, record s1 { world = w })
      else (started pid, record { spawned = assign name pid s1.spawned; world = w })

  unfoldable pub handle_stop : Str → Agent W → Reply × Agent W
  unfolding find erase kill_group
  handle_stop name s = elim (find name s.spawned) [
    | none ↦ (not_running, s)
    | some pid ↦
        (stopped pid, record { spawned = erase name s.spawned; world = kill_group os pid s.world })
  ]

  unfoldable pub handle_rev : Str → Agent W → Result Hang (Reply × Agent W)
  unfolding run_capture pop_back_while is_space is_empty_text
  handle_rev path s = do
    let git_at = bytes_of "git" ∷ bytes_of "-C" ∷ path ∷ []
    ran ← run_capture os [] (git_at ++ bytes_of "rev-parse" ∷ bytes_of "HEAD" ∷ []) [] s.world
    let sha = pop_back_while is_space ran.0.1
    if not (eq_ℤ ran.0.0 (pos 0)) || is_empty_text sha
        then ok (refused (not_a_repo path sha), record s { world = ran.1 })
        else (do
          st ←
              run_capture os [] (git_at ++ bytes_of "status" ∷ bytes_of "--porcelain" ∷ []) [] ran.1
          ok (revision sha (not (is_empty_text st.0.1)), record s { world = st.1 }))

  unfoldable pub handle : Op → Agent W → Result Hang (Reply × Agent W)
  unfolding handle_put handle_exec handle_spawn handle_stop handle_rev
  handle ping s =
      let (sysname, machine) = os.uname s.world in
      let cwd : Str = elim (os.getcwd s.world) [ none ↦ [] | some dir ↦ dir ] in
      ok (pinged sysname machine cwd, s)
  handle (put dst targz prune protect) s = handle_put dst targz prune protect s
  handle (exec cwd argv env) s = handle_exec cwd argv env s
  handle (spawn name cwd argv env logfile) s = ok (handle_spawn name cwd argv env logfile s)
  handle (stop name) s = ok (handle_stop name s)
  handle (get path) s = elim (os.read_file path s.world) [
    | none ↦ ok (refused (cannot_open path), s)
    | some content ↦ ok (fetched content, s)
  ]
  handle (rev path) s = handle_rev path s
  handle no_op s = ok (refused no_op_set, s)

  module _ (token : Str) (parse : Str → Option Request) where
    unfoldable pub answer : Str → Agent W → Result Hang (Reply × Agent W)
    unfolding is_empty_text handle
    answer msg s = elim (parse msg) [
      | none ↦ ok (refused malformed, s)
      | some req ↦
          if not (is_empty_text token) && not (str_eq req.token token)
          then ok (refused auth_failed, s)
          else handle req.op s
    ]

    -- The loop over the messages that are received: the replies so far and the state after the last.
    unfoldable pub serve : List Str → List Reply → Agent W → Result Hang (List Reply × Agent W)
    unfolding answer
    serve [] replies s = ok (replies, s)
    serve (msg ∷ msgs) replies s = do
      sent ← answer msg s
      serve msgs (replies ++ sent.0 ∷ []) sent.1
