-- ===== src/HfFetch/Resolve.antt =====
-- hf_resolve of src/serving/hf_fetch.h, with hf_remote_ggufs: the commands that it gives to the shell
-- are part of the result.
pub mod Safe
use vla_cpp.Common.{
  ℕ, zero, suc, Bool, true, false, not, ◌&&◌, ◌||◌, Option, none, some, List, [], ◌∷◌, ◌++◌, ◌==◌,
  if◌then◌else◌,
}
use vla_cpp.Common.{Result, ok, err}
use vla_cpp.HfFetch.Names.{Str, slash, in_range, hf_token_ok}
use vla_cpp.HfFetch.Names.Match.{hf_match}

-- `hf download <repo> --include "*.gguf" --dry-run -q`, and
-- `hf download <repo> <file> --local-dir '<dir>'`.
pub data Command : Type 0 where
  list_remote : Str → Command
  download : Str → Str → Str → Command

pub data HfError : Type 0 where
  bad_spec : HfError
  several_cached : List Str → HfError
  bad_cache_path : HfError
  cannot_list : HfError
  no_gguf : HfError
  no_match : List Str → HfError
  several_remote : List Str → HfError
  cannot_create : HfError
  download_failed : HfError
  not_downloaded : HfError

pub data Found : Type 0 where
  found : Str → Found
  failed : HfError → Found

-- The host: the cache's root, paths as std::filesystem joins and reads them, the GGUF files below a
-- directory, the lines that the listing command prints, and what the other calls answer.
pub record Host : Type 0 where
  pub cache_root : Str
  pub join : Str → Str → Str
  pub is_gguf : Str → Bool
  pub local_ggufs : Str → List Str
  pub listing : Str → Option (List Str)
  pub create : Str → Bool
  pub run : Command → Bool
  pub is_file : Str → Bool

unfoldable pub has_quote : Str → Bool
has_quote [] = false
has_quote (c ∷ s) = c == 39 || has_quote s

unfoldable pub has_slash : Str → Bool
has_slash [] = false
has_slash (c ∷ s) = c == slash || has_slash s

-- `spec.substr(0, colon)`, and what is behind the colon if there is one.
unfoldable pub split_spec : Str → Str × Option Str
split_spec [] = ([], none)
split_spec (c ∷ s) =
    let (repo, want) = split_spec s in if c == 58 then ([], some s) else (c ∷ repo, want)

abbrev pub want_of : Option Str → Str
want_of none = []
want_of (some w) = w

abbrev pub want_ok : Option Str → Bool
want_ok none = true
want_ok (some w) = hf_token_ok true w

-- `std::isspace` in the C locale.
abbrev pub is_space : ℕ → Bool
is_space c = c == 32 || in_range 9 13 c

-- `while (!s.empty() && isspace(s.back())) s.pop_back()`
unfoldable pub trim_end : Str → Str
trim_end [] = []
trim_end (c ∷ s) =
    let rest = trim_end s in
    elim rest [ [] ↦ if is_space c then [] else c ∷ [] | d ∷ t ↦ c ∷ d ∷ t ]

module _ (h : Host) where
  open h use {join, is_gguf, run, listing}

  -- The printed lines that hf_remote_ggufs keeps, without the white space at their ends.
  unfoldable pub keep_ggufs : List Str → List Str
  unfolding hf_token_ok trim_end
  keep_ggufs [] = []
  keep_ggufs (l ∷ ls) =
      let s = trim_end l in
      if is_gguf s && hf_token_ok true s then s ∷ keep_ggufs ls else keep_ggufs ls

  -- From the creation of the directory to the end.
  unfoldable pub fetch : Str → Str → Str → List Command × Found
  fetch repo file dir =
      if not (h.create dir)
      then ([], failed cannot_create)
      else (let cmd = download repo file dir in
          let got = join dir file in
          if not (run cmd)
          then (cmd ∷ [], failed download_failed)
          else (cmd ∷ [], if h.is_file got then found got else failed not_downloaded))

  -- The file among the remote ones that the tag stands for.
  unfoldable pub one_hit : List Str → List Str → Result HfError Str
  one_hit files [] = err (no_match files)
  one_hit files (f ∷ []) = ok f
  one_hit files (f ∷ g ∷ gs) = err (several_remote (f ∷ g ∷ gs))

  unfoldable pub pick_remote : Str → List Str → Result HfError Str
  unfolding hf_match one_hit
  pick_remote want [] = err no_gguf
  pick_remote want (r ∷ rs) = one_hit (r ∷ rs) (hf_match is_gguf (r ∷ rs) want)

  unfoldable pub fetch_tag : Str → Str → Str → List Command × Found
  unfolding keep_ggufs pick_remote fetch
  fetch_tag repo want dir = elim (listing repo) [
    | none ↦ (list_remote repo ∷ [], failed cannot_list)
    | some lines ↦ elim (pick_remote want (keep_ggufs lines)) [
      | err why ↦ (list_remote repo ∷ [], failed why)
      | ok file ↦ let (cmds, result) = fetch repo file dir in (list_remote repo ∷ cmds, result)
    ]
  ]

  -- The cache does not have the file.
  unfoldable pub fetch_missing : Str → Str → Str → List Command × Found
  unfolding has_quote fetch_tag
  fetch_missing repo want dir =
      if has_quote dir
      then ([], failed bad_cache_path)
      else (if is_gguf want then fetch repo want dir else fetch_tag repo want dir)

  -- With the files of the cache that match.
  unfoldable pub resolve_hits : Str → Str → Str → List Str → List Command × Found
  unfolding fetch_missing
  resolve_hits repo want dir [] = fetch_missing repo want dir
  resolve_hits repo want dir (f ∷ []) = ([], found (join dir f))
  resolve_hits repo want dir (f ∷ g ∷ gs) = ([], failed (several_cached (f ∷ g ∷ gs)))

  unfoldable pub hf_resolve : Str → List Command × Found
  unfolding split_spec has_slash resolve_hits hf_match
  hf_resolve spec =
      let (repo, want) = split_spec spec in
      let dir = join h.cache_root repo in
      if not (has_slash repo) || not (hf_token_ok true repo) || not (want_ok want)
      then ([], failed bad_spec)
      else (resolve_hits repo (want_of want) dir
          (hf_match is_gguf (h.local_ggufs dir) (want_of want)))
