-- ===== src/CiAgent/Archive/Prune.antt =====
-- The pruning of ci/agent/agent.cpp against a sweep over all files: that it does not enter protected
-- directories makes no difference.
use vla_cpp.Common.{
  ℕ, ◌≡◌, refl, sym, ap, ◌∙◌, inl, inr, true, false, ◌||◌, List, [], ◌∷◌, ◌++◌, if◌then◌else◌,
  arith, Bool-cases,
}
use vla_cpp.HfFetch.Names.{Str, slash}
use vla_cpp.HfFetch.Names.Match.{str_eq, str_eq_iff, starts}
use vla_cpp.CiAgent.{Entry, entry, Entries, none_left, and_then, Os}
use vla_cpp.CiAgent.Archive.{
  git, is_under, any_under, is_protected, in_keep, remove_counted, prune_entry, prune_walk,
}

starts-append : (p s x : Str) → starts p s ≡ true → starts p (s ++ x) ≡ true
unfolding starts
starts-append [] s x h = refl
starts-append (a ∷ p) [] x h = ground arith
starts-append (a ∷ p) (c ∷ s) x h = ground (arith, starts-append p s x)

starts_self : (p x : Str) → starts (p ++ slash ∷ []) (p ++ slash ∷ x) ≡ true
unfolding starts
starts_self [] x = refl
starts_self (a ∷ p) x = ground (arith, starts_self p x)

is_under-append : (p r x : Str) → is_under p r ≡ true → is_under p (r ++ slash ∷ x) ≡ true
unfolding is_under
is_under-append p r x h = elim (Bool-cases (str_eq r p)) [
  | inl same ↦
      let from : starts (p ++ slash ∷ []) (r ++ slash ∷ x) ≡ true =
        rw (str_eq_iff r p same) (starts_self p x) in
      ground (arith, from)
  | inr other ↦
      let from : starts (p ++ slash ∷ []) r ≡ true = rw other at h in
      ground (arith, starts-append (p ++ slash ∷ []) r (slash ∷ x) from)
]

any_under-append :
    (prot : List Str) (r x : Str) → any_under prot r ≡ true → any_under prot (r ++ slash ∷ x) ≡ true
unfolding any_under
any_under-append [] r x h = h
any_under-append ([] ∷ prot) r x h = any_under-append prot r x h
any_under-append ((c ∷ p) ∷ prot) r x h = elim (Bool-cases (is_under (c ∷ p) r)) [
  | inl here ↦ ground (arith, is_under-append (c ∷ p) r x here)
  | inr other ↦ ground (arith, any_under-append prot r x (rw other at h))
]

pub is_protected-append :
    (prot : List Str) (r x : Str)
    → is_protected r prot ≡ true
    → is_protected (r ++ slash ∷ x) prot ≡ true
unfolding is_protected
is_protected-append prot r x h = elim (Bool-cases (is_under git r)) [
  | inl here ↦ ground (arith, is_under-append git r x here)
  | inr other ↦ ground (arith, any_under-append prot r x (rw other at h))
]

-- All regular files of a tree, protected or not.
unfoldable mutual
  pub files_of : Entry → List Str
  files_of (entry path true is_regular below) = files below
  files_of (entry path false true below) = path ∷ []
  files_of (entry path false false below) = []

  pub files : Entries → List Str
  files none_left = []
  files (and_then e es) = files_of e ++ files es

module _ (os : Os) (dst : Str) (protect keep : List Str) where
  -- One test for each file: protected, or in the archive.
  unfoldable pub sweep : List Str → os.W × ℕ → os.W × ℕ
  sweep [] state = state
  sweep (path ∷ paths) state =
      let rel = os.relative path dst in
      sweep paths (
        if is_protected rel protect || in_keep keep rel
        then state
        else remove_counted os path state)

  -- What stands in a directory has the directory's relative path, a slash and a name.
  abbrev mutual
    pub IsNested : Entry → Type 0
    IsNested (entry path is_directory is_regular below) = IsBelow (os.relative path dst) below

    pub IsBelow : Str → Entries → Type 0
    IsBelow r none_left = Unit
    IsBelow r (and_then (entry path d f below) es) =
        ((name : Str) × (os.relative path dst ≡ r ++ slash ∷ name))
        × IsNested (entry path d f below)
        × IsBelow r es

  abbrev pub IsTree : Entries → Type 0
  IsTree none_left = Unit
  IsTree (and_then e es) = IsNested e × IsTree es

  sweep-append :
      (xs ys : List Str) (state : os.W × ℕ) → sweep (xs ++ ys) state ≡ sweep ys (sweep xs state)
  unfolding sweep
  sweep-append [] ys state = refl
  sweep-append (x ∷ xs) ys state = sweep-append xs ys _

  mutual
    unfolding files sweep

    sweep-skips_of :
        (r : Str) (e : Entry) (state : os.W × ℕ)
        → is_protected r protect ≡ true
        → IsBelow r (and_then e none_left)
        → sweep (files_of e) state ≡ state
    sweep-skips_of r (entry path true f below) state p ((name, e), n, t) =
        sweep-skips (os.relative path dst) below state (rw e (is_protected-append protect r name p))
          n
    sweep-skips_of r (entry path false true below) state p ((name, e), n, t) =
        rw (e, is_protected-append protect r name p) refl
    sweep-skips_of r (entry path false false below) state p h = refl

    sweep-skips :
        (r : Str) (es : Entries) (state : os.W × ℕ)
        → is_protected r protect ≡ true
        → IsBelow r es
        → sweep (files es) state ≡ state
    sweep-skips r none_left state p h = refl
    sweep-skips r (and_then (entry path d f below) es) state p (s, n, h) =
        sweep-append (files_of (entry path d f below)) (files es) state
        ∙ ap (sweep (files es)) (sweep-skips_of r (entry path d f below) state p (s, n, tt))
        ∙ sweep-skips r es state p h

  IsBelow-IsTree : (r : Str) (es : Entries) → IsBelow r es → IsTree es
  IsBelow-IsTree r none_left h = tt
  IsBelow-IsTree r (and_then (entry path d f below) es) (s, n, h) = (n, IsBelow-IsTree r es h)

  mutual
    unfolding files sweep prune_walk

    prune_entry-sweep :
        (e : Entry) (state : os.W × ℕ)
        → IsNested e
        → prune_entry os dst protect keep e state ≡ sweep (files_of e) state
    prune_entry-sweep (entry path true f below) state h =
        elim (Bool-cases (is_protected (os.relative path dst) protect)) [
          | inl kept ↦
              rw (kept, prune_entry) (sym (sweep-skips (os.relative path dst) below state kept h))
          | inr open_dir ↦
              rw (open_dir, prune_entry)
                (walk_sweeps below state (IsBelow-IsTree (os.relative path dst) below h))
        ]
    prune_entry-sweep (entry path false true below) state h = refl
    prune_entry-sweep (entry path false false below) state h = refl

    walk_sweeps :
        (es : Entries) (state : os.W × ℕ)
        → IsTree es
        → prune_walk os dst protect keep es state ≡ sweep (files es) state
    walk_sweeps none_left state h = refl
    walk_sweeps (and_then e es) state (n, h) =
        walk_sweeps es (prune_entry os dst protect keep e state) h
        ∙ ap (sweep (files es)) (prune_entry-sweep e state n)
        ∙ sym (sweep-append (files_of e) (files es) state)

  -- Pruning removes exactly what one test on each regular file of the tree removes, in that order:
  -- the files that are not protected and not in the archive. It assumes of the tree that what stands
  -- in a directory has the directory's relative path with a slash and a name behind it.
  pub prune_walk-sweep :
      (es : Entries) (state : os.W × ℕ)
      → IsTree es
      → prune_walk os dst protect keep es state ≡ sweep (files es) state
  prune_walk-sweep = walk_sweeps
