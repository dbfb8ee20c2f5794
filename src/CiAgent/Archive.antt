-- ===== src/CiAgent/Archive.antt =====
-- extract_and_prune and is_protected of ci/agent/agent.cpp: an uploaded archive is unpacked by tar, and
-- the files that it does not have are removed.
pub mod Prune
pub mod Listing
use vla_cpp.Common.{
  ℕ, zero, suc, ◌+◌, Bool, true, false, not, ◌&&◌, ◌||◌, Option, none, some, List, [], ◌∷◌, ◌++◌,
  length, ◌==◌, if◌then◌else◌, Result, ok, err, ◌>>=◌,
}
use vla_cpp.Common.Int.{ℤ, pos, eq_ℤ}
use vla_cpp.HfFetch.Names.{Str, slash}
use vla_cpp.HfFetch.Names.Match.{str_eq, starts}
use vla_cpp.CiAgent.{Hang, Why, tar_failed, Entry, entry, Entries, none_left, and_then, Os}
use vla_cpp.Common.Text.{bytes_of}
use vla_cpp.CiAgent.Process.{run_capture}

abbrev pub git : Str
git = 46 ∷ 103 ∷ 105 ∷ 116 ∷ []

abbrev pub newline : ℕ
newline = 10

-- `rel == p || rel.rfind(p + "/", 0) == 0`
unfoldable pub is_under : Str → Str → Bool
unfolding str_eq starts
is_under p rel = str_eq rel p || starts (p ++ slash ∷ []) rel

unfoldable pub any_under : List Str → Str → Bool
unfolding is_under
any_under [] rel = false
any_under ([] ∷ prot) rel = any_under prot rel
any_under ((c ∷ p) ∷ prot) rel = is_under (c ∷ p) rel || any_under prot rel

unfoldable pub is_protected : Str → List Str → Bool
unfolding is_under any_under
is_protected rel prot = is_under git rel || any_under prot rel

-- `while (!s.empty() && drop(s.back())) s.pop_back();`
unfoldable pub pop_back_while : (ℕ → Bool) → Str → Str
pop_back_while drop [] = []
pop_back_while drop (c ∷ s) = elim (pop_back_while drop s) [
  | [] ↦ if drop c then [] else c ∷ []
  | d ∷ rest ↦ c ∷ d ∷ rest
]

unfoldable pub ends_in_slash : Str → Bool
ends_in_slash [] = false
ends_in_slash (c ∷ []) = c == slash
ends_in_slash (c ∷ d ∷ s) = ends_in_slash (d ∷ s)

-- `if (m.rfind("./", 0) == 0) m = m.substr(2);`
unfoldable pub strip_dot_slash : Str → Str
strip_dot_slash (a ∷ b ∷ m) = if a == 46 && b == slash then m else a ∷ b ∷ m
strip_dot_slash m = m

-- What one line of the list adds to `keep`.
unfoldable pub keep_member : Str → List Str → List Str
unfolding strip_dot_slash pop_back_while ends_in_slash
keep_member line keep =
    let m = pop_back_while (λ c. c == newline) (strip_dot_slash line) in
    elim m [ [] ↦ keep | c ∷ s ↦ if ends_in_slash (c ∷ s) then keep else (c ∷ s) ∷ keep ]

-- The loop over the lines of tar's list; `line` is what was read of the line.
unfoldable pub members : Str → Str → List Str
unfolding keep_member
members line [] = keep_member line []
members line (c ∷ list) =
    let after = members [] list in
    let along = members (line ++ c ∷ []) list in
    if c == newline then keep_member line after else along

unfoldable pub in_keep : List Str → Str → Bool
unfolding str_eq
in_keep [] r = false
in_keep (k ∷ keep) r = str_eq k r || in_keep keep r

module _ (os : Os) where
  open os use {W}

  -- `if (fs::remove(path, rmec)) ++n_pruned;`
  unfoldable pub remove_counted : Str → W × ℕ → W × ℕ
  remove_counted path (w, n) =
      let (gone, w') = os.remove path w in if gone then (w', suc n) else (w', n)

  module _ (dst : Str) (protect keep : List Str) where
    -- The loop over the tree below `dst`.
    unfoldable mutual
      unfolding is_protected in_keep remove_counted

      pub prune_entry : Entry → W × ℕ → W × ℕ
      prune_entry (entry path is_directory is_regular below) state =
          let rel = os.relative path dst in
          if is_directory
          then (if is_protected rel protect then state else prune_walk below state)
          else (if not is_regular || is_protected rel protect || in_keep keep rel
              then state
              else remove_counted path state)

      pub prune_walk : Entries → W × ℕ → W × ℕ
      prune_walk none_left state = state
      prune_walk (and_then e es) state = prune_walk es (prune_entry e state)

  unfoldable pub prune_members : Str → Bool → List Str → List Str → W → Result Why (ℕ × ℕ) × W
  unfolding prune_walk
  prune_members dst prune protect keep w =
      if not prune
      then (ok (length keep, 0), w)
      else (let (w', n_pruned) = prune_walk dst protect keep (os.listing dst w) (w, 0) in
          (ok (length keep, n_pruned), w'))

  -- The numbers of files and of removed files, or why tar failed.
  unfoldable pub extract_and_prune :
      Str → Str → Bool → List Str → W → Result Hang (Result Why (ℕ × ℕ) × W)
  unfolding run_capture members prune_members
  extract_and_prune tarfile dst prune protect w = do
    let unpack = bytes_of "tar" ∷ bytes_of "xzf" ∷ tarfile ∷ bytes_of "-C" ∷ dst ∷ []
    let list_all = bytes_of "tar" ∷ bytes_of "tzf" ∷ tarfile ∷ []
    ran ← run_capture os [] unpack [] (os.create_directories dst w)
    if not (eq_ℤ ran.0.0 (pos 0)) then ok (err (tar_failed ran.0.1), ran.1) else (do
      listed ← run_capture os [] list_all [] ran.1
      ok (prune_members dst prune protect (members [] listed.0.1) listed.1))
