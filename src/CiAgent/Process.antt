-- ===== src/CiAgent/Process.antt =====
-- The processes of ci/agent/agent.cpp: run_capture, spawn_detached and kill_group.
pub mod Capture
use vla_cpp.Common.{
  ℕ, zero, suc, ◌+◌, Bool, true, false, Option, none, some, List, [], ◌∷◌, ◌++◌, ◌==◌, Result, ok,
  err, ◌>>=◌, if◌then◌else◌,
}
use vla_cpp.Common.Int.{ℤ, pos, negsuc, eq_ℤ}
use vla_cpp.HfFetch.Names.{Str}
use vla_cpp.CiAgent.{
  Hang, hung, Status, exited, signalled, neither, Pass, Child, sigint, sigterm, sigkill, Os,
}
use vla_cpp.Common.Text.{bytes_of}

-- `kv.substr(0, kv.find('='))` and the rest behind it.
unfoldable pub split_at : ℕ → Str → Option (Str × Str)
split_at sep [] = none
split_at sep (c ∷ s) =
    let rest = split_at sep s in
    if c == sep then some ([], s) else elim rest [ none ↦ none | some (k, v) ↦ some (c ∷ k, v) ]

-- The variables that are set, in order.
unfoldable pub apply_env : List Str → List (Str × Str)
unfolding split_at
apply_env [] = []
apply_env (kv ∷ env) = elim (split_at 61 kv) [
  | none ↦ apply_env env
  | some setting ↦ setting ∷ apply_env env
]

-- `while ((n = read(...)) > 0) out.append(buf, n);`
unfoldable pub append_pieces : Str → List Str → Str
append_pieces out [] = out
append_pieces out (piece ∷ pieces) = append_pieces (out ++ piece) pieces

-- The loop that reads until the child is gone, and once more: hung if the child never ends.
unfoldable pub capture_loop : ℤ → List Pass → Bool → Status → Str → Result Hang (Status × Str)
unfolding append_pieces
capture_loop pid [] reaped st out = err hung
capture_loop pid (pass ∷ passes) true st out = ok (st, append_pieces out pass.pieces)
capture_loop pid (pass ∷ passes) false st out =
    capture_loop pid passes (eq_ℤ pass.waited pid) pass.status (append_pieces out pass.pieces)

unfoldable pub exit_code : Status → ℤ
exit_code (exited code) = pos code
exit_code (signalled sig) = pos (128 + sig)
exit_code neither = negsuc 0

module _ (os : Os) where
  open os use {W}

  -- The exit code, the output and the machine.
  unfoldable pub run_capture : Str → List Str → List Str → W → Result Hang ((ℤ × Str) × W)
  unfolding apply_env capture_loop exit_code
  run_capture cwd argv env w =
      let (forked, w') = os.fork_capture cwd argv (apply_env env) w in
      elim forked [
        | none ↦ ok ((negsuc 0, bytes_of "pipe() failed"), w')
        | some child ↦ do
          ended ← capture_loop child.pid child.passes false (exited 0) []
          ok ((exit_code ended.0, ended.1), w')
      ]

  unfoldable pub spawn_detached : Str → List Str → List Str → Str → W → ℤ × W
  unfolding apply_env
  spawn_detached cwd argv env [] w = os.fork_detached cwd argv (apply_env env) [] w
  spawn_detached cwd argv env (c ∷ logfile) w =
      os.fork_detached cwd argv (apply_env env) (c ∷ logfile)
        (os.create_directories (os.parent_path (c ∷ logfile)) w)

  -- `for (...) { if (gone()) return; usleep(500000); }`, and whether it returned.
  unfoldable pub poll_loop : ℕ → ℤ → W → Bool × W
  poll_loop zero pid w = (false, w)
  poll_loop (suc n) pid w =
      let (reported, w') = os.poll_child pid w in
      elim (eq_ℤ reported pid) [ true ↦ (true, w') | false ↦ poll_loop n pid (os.sleep w') ]

  unfoldable pub kill_group : ℤ → W → W
  unfolding poll_loop
  kill_group pid w =
      let (gone, w1) = poll_loop 20 pid (os.killpg pid sigint w) in
      elim gone [
        | true ↦ w1
        | false ↦
            let (gone', w2) = poll_loop 10 pid (os.killpg pid sigterm w1) in
            elim gone' [ true ↦ w2 | false ↦ os.wait_child pid (os.killpg pid sigkill w2) ]
      ]
