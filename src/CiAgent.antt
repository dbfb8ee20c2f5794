-- ===== src/CiAgent.antt =====
-- The control-plane daemon src/ci/agent/agent.cpp of the repository's ci directory (ci/agent) and the
-- messages of its vla_ctl.proto. The operating system is an `Os`: what a call gives and the machine
-- after it. A text is the list of its bytes.
pub mod Process
pub mod Archive
pub mod Handle
mod Tests
use vla_cpp.Common.{ℕ, Bool, Option, List, [], ◌∷◌}
use vla_cpp.Common.Int.{ℤ}
use vla_cpp.HfFetch.Names.{Str}

pub data Op : Type 0 where
  ping : Op
  put : (dst targz : Str) (prune : Bool) (protect : List Str) → Op
  exec : (cwd : Str) (argv env : List Str) → Op
  spawn : (name cwd : Str) (argv env : List Str) (logfile : Str) → Op
  stop : (name : Str) → Op
  get : (path : Str) → Op
  rev : (path : Str) → Op
  no_op : Op

pub record Request : Type 0 where
  pub token : Str
  pub op : Op

-- The errors, each for the text that main, handle or extract_and_prune puts in the reply.
pub data Why : Type 0 where
  malformed auth_failed empty_argv fork_failed no_op_set : Why
  tar_failed : Str → Why
  cannot_open : Str → Why
  not_a_repo : (path output : Str) → Why

pub data Reply : Type 0 where
  refused : Why → Reply
  pinged : (os machine cwd : Str) → Reply
  unpacked : (files pruned : ℕ) → Reply
  executed : (exit_code : ℤ) (output : Str) → Reply
  started : (pid : ℤ) → Reply
  stopped : (pid : ℤ) → Reply
  not_running : Reply
  fetched : Str → Reply
  revision : (commit : Str) (dirty : Bool) → Reply

-- What WIFEXITED and WIFSIGNALED say of a wait status.
pub data Status : Type 0 where
  exited : ℕ → Status
  signalled : ℕ → Status
  neither : Status

-- One pass of the loop of run_capture: the pieces that the reads give, what
-- `waitpid(pid, &st, WNOHANG)` returns, and `st` after it.
pub record Pass : Type 0 where
  pub pieces : List Str
  pub waited : ℤ
  pub status : Status

pub record Child : Type 0 where
  pub pid : ℤ
  pub passes : List Pass

pub data Signal : Type 0 where
  sigint sigterm sigkill : Signal

-- A child that never ends: the agent waits for it for ever.
pub data Hang : Type 0 where
  hung : Hang

-- What recursive_directory_iterator meets under a directory: the path, what `is_directory` and
-- `is_regular_file` say, and the entries below. An error of the iterator ends the walk, so that the
-- tree holds what it met before.
mutual
  pub data Entry : Type 0 where
    entry : (path : Str) (is_directory is_regular : Bool) → Entries → Entry

  pub data Entries : Type 0 where
    none_left : Entries
    and_then : Entry → Entries → Entries

pub record Os : Type 1 where
  pub W : Type 0
  pub uname : W → Str × Str
  pub getcwd : W → Option Str
  -- The name that handle gives the uploaded archive.
  pub temp_file : W → Str
  pub write_file : Str → Str → W → W
  pub read_file : Str → W → Option Str
  pub create_directories : Str → W → W
  pub remove : Str → W → Bool × W
  pub listing : Str → W → Entries
  -- `fs::relative(path, dst).generic_string()`
  pub relative : Str → Str → Str
  -- pipe, and fork with the child's part of run_capture; nothing if pipe fails.
  pub fork_capture : Str → List Str → List (Str × Str) → W → Option Child × W
  -- fork with the child's part of spawn_detached: -1 if it fails.
  pub fork_detached : Str → List Str → List (Str × Str) → Str → W → ℤ × W
  pub parent_path : Str → Str
  pub killpg : ℤ → Signal → W → W
  -- `waitpid(pid, nullptr, WNOHANG)`, `waitpid(pid, nullptr, 0)` and `usleep(500000)`.
  pub poll_child : ℤ → W → ℤ × W
  pub wait_child : ℤ → W → W
  pub sleep : W → W
