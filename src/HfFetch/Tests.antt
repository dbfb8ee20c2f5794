-- ===== src/HfFetch/Tests.antt =====
-- A repository with one listed file, at a host whose cache is empty.
use vla_cpp.Common.{◌≡◌, refl, Bool, true, false, some, [], ◌∷◌, ◌++◌, All}
use vla_cpp.HfFetch.Names.{Str, slash}
use vla_cpp.HfFetch.Names.Match.{contains}
use vla_cpp.HfFetch.Resolve.{list_remote, download, found, failed, bad_spec, Host, hf_resolve}
use vla_cpp.HfFetch.Resolve.Safe.{IsSafe, hf_resolve-IsSafe}

-- `m.g`, `a/b` and `a/b:m`.
abbrev file : Str
file = 109 ∷ 46 ∷ 103 ∷ []

abbrev repo : Str
repo = 97 ∷ 47 ∷ 98 ∷ []

abbrev spec : Str
spec = repo ++ 58 ∷ 109 ∷ []

abbrev ends_g : Str → Bool
ends_g s = contains (46 ∷ 103 ∷ []) s

abbrev host : Host
host = record {
  cache_root = 99 ∷ [];
  join = λ a b. a ++ slash ∷ b;
  is_gguf = ends_g;
  local_ggufs = λ dir. [];
  listing = λ r. some ((file ++ 10 ∷ []) ∷ (59 ∷ file) ∷ []);
  create = λ dir. true;
  run = λ cmd. true;
  is_file = λ path. true;
}

resolve_test : hf_resolve host spec ≡ (
  list_remote repo ∷ download repo file (99 ∷ 47 ∷ repo) ∷ [],
  found (99 ∷ 47 ∷ repo ++ 47 ∷ file),
)
unfolding hf_resolve contains
resolve_test = refl

injection_test : hf_resolve host (repo ++ 59 ∷ 114 ∷ []) ≡ ([], failed bad_spec)
unfolding hf_resolve
injection_test = refl

empty_path : host.is_gguf [] ≡ false
unfolding contains
empty_path = refl

hf_resolve-IsSafe_example : All IsSafe (hf_resolve host spec).0
hf_resolve-IsSafe_example = hf_resolve-IsSafe host spec empty_path
