-- ===== src/HfFetch/Resolve/Safe.antt =====
-- What hf_resolve of src/serving/hf_fetch.h gives to the shell.
use vla_cpp.Common.{
  ◌≡◌, inl, inr, true, false, not, ◌&&◌, ◌||◌, Option, none, some, List, [], ◌∷◌, All, ok,
  Result-cases, ok-injective, err-ne-ok, arith, Bool-cases, Option-cases,
}
use vla_cpp.HfFetch.Names.{Str, hf_token_ok, IsToken, hf_token_ok-IsToken}
use vla_cpp.HfFetch.Names.Match.{match-All}
use vla_cpp.HfFetch.Resolve.{
  Command, list_remote, download, Host, has_quote, has_slash, split_spec, want_of, want_ok,
  trim_end, keep_ggufs, fetch, one_hit, resolve_hits, pick_remote, fetch_tag, fetch_missing,
  hf_resolve,
}

-- The words of a command are tokens, and its quoted directory has no quote.
abbrev pub IsSafe : Command → Type 0
IsSafe (list_remote repo) = IsToken repo
IsSafe (download repo file dir) = IsToken repo × IsToken file × (has_quote dir ≡ false)

module _ (h : Host) where
  keep_ggufs-IsToken : (lines : List Str) → All IsToken (keep_ggufs h lines)
  unfolding keep_ggufs
  keep_ggufs-IsToken [] = tt
  keep_ggufs-IsToken (l ∷ ls) =
      elim (Bool-cases (h.is_gguf (trim_end l) && hf_token_ok true (trim_end l))) [
        | inl kept ↦
            rw kept (hf_token_ok-IsToken true (trim_end l) (ground arith), keep_ggufs-IsToken ls)
        | inr dropped ↦ rw dropped (keep_ggufs-IsToken ls)
      ]

  one_hit-IsToken :
      (file : Str) (files hits : List Str)
      → All IsToken hits
      → one_hit h files hits ≡ ok file
      → IsToken file
  unfolding one_hit
  one_hit-IsToken file files [] ts e = absurd (err-ne-ok e)
  one_hit-IsToken file files (f ∷ []) (t, ts) e = rw (ok-injective e) at t
  one_hit-IsToken file files (f ∷ g ∷ gs) ts e = absurd (err-ne-ok e)

  pick_remote-IsToken :
      (want file : Str) (files : List Str)
      → All IsToken files
      → pick_remote h want files ≡ ok file
      → IsToken file
  unfolding pick_remote
  pick_remote-IsToken want file [] ts e = absurd (err-ne-ok e)
  pick_remote-IsToken want file (r ∷ rs) ts e =
      one_hit-IsToken file (r ∷ rs) _ (match-All IsToken h.is_gguf (r ∷ rs) want ts) e

  fetch-IsSafe :
      (repo file dir : Str)
      → IsToken repo
      → IsToken file
      → has_quote dir ≡ false
      → All IsSafe (fetch h repo file dir).0
  unfolding fetch
  fetch-IsSafe repo file dir p q r = elim (Bool-cases (h.create dir)) [
    | inl created ↦ elim (Bool-cases (h.run (download repo file dir))) [
      | inl ran ↦ rw (created, ran) ((p, q, r), tt)
      | inr broke ↦ rw (created, broke) ((p, q, r), tt)
    ]
    | inr refused ↦ rw refused tt
  ]

  fetch_tag-IsSafe :
      (repo want dir : Str)
      → IsToken repo
      → has_quote dir ≡ false
      → All IsSafe (fetch_tag h repo want dir).0
  unfolding fetch_tag
  fetch_tag-IsSafe repo want dir p q = elim (Option-cases (h.listing repo)) [
    | inl silent ↦ rw (silent, All) (p, tt)
    | inr (lines, printed) ↦ elim (Result-cases (pick_remote h want (keep_ggufs h lines))) [
      | inl (why, refused) ↦ rw (printed, refused, All) (p, tt)
      | inr (file, picked) ↦
          rw (printed, picked, All)
            (
              p,
              fetch-IsSafe repo file dir p
                  (pick_remote-IsToken want file _ (keep_ggufs-IsToken lines) picked) q,
            )
    ]
  ]

  fetch_missing-IsSafe :
      (repo want dir : Str)
      → IsToken repo
      → (h.is_gguf want ≡ true → IsToken want)
      → All IsSafe (fetch_missing h repo want dir).0
  unfolding fetch_missing
  fetch_missing-IsSafe repo want dir p q = elim (Bool-cases (has_quote dir)) [
    | inl quoted ↦ rw quoted tt
    | inr plain ↦ elim (Bool-cases (h.is_gguf want)) [
      | inl named ↦ rw (plain, named) (fetch-IsSafe repo want dir p (q named) plain)
      | inr tag ↦ rw (plain, tag) (fetch_tag-IsSafe repo want dir p plain)
    ]
  ]

  hits-IsSafe :
      (repo want dir : Str) (hits : List Str)
      → IsToken repo
      → (h.is_gguf want ≡ true → IsToken want)
      → All IsSafe (resolve_hits h repo want dir hits).0
  unfolding resolve_hits
  hits-IsSafe repo want dir [] p q = fetch_missing-IsSafe repo want dir p q
  hits-IsSafe repo want dir (f ∷ []) p q = tt
  hits-IsSafe repo want dir (f ∷ g ∷ gs) p q = tt

  want-IsToken :
      (want : Option Str)
      → h.is_gguf [] ≡ false
      → want_ok want ≡ true
      → h.is_gguf (want_of want) ≡ true
      → IsToken (want_of want)
  want-IsToken none empty good named = ground (arith, empty, named)
  want-IsToken (some w) empty good named = hf_token_ok-IsToken true w good

  -- Where the empty path has no extension: whatever the command line names, whatever the listing
  -- prints and wherever the cache lies, each command that reaches the shell is made of tokens, which
  -- no shell reads as anything but themselves and which are no options, no absolute paths and no steps
  -- out of a directory, and of a directory without the quote that encloses it.
  pub hf_resolve-IsSafe : (spec : Str) → h.is_gguf [] ≡ false → All IsSafe (hf_resolve h spec).0
  unfolding hf_resolve
  hf_resolve-IsSafe spec empty =
      let (repo, want) = split_spec spec in
      elim (Bool-cases
        (not (has_slash repo) || not (hf_token_ok true repo) || not (want_ok want))) [
          | inl bad ↦ rw bad tt
          | inr good ↦ rw good (
              hits-IsSafe repo (want_of want) (h.join h.cache_root repo) _
                (hf_token_ok-IsToken true repo (ground arith))
                (λ named. want-IsToken want empty (ground arith) named))
        ]
