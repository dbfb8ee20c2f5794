-- ===== src/CiAgent/Archive/Listing.antt =====
-- The list of an archive's members that ci/agent/agent.cpp reads from `tar tzf`, one name a line.
use vla_cpp.Common.{
  ◌≡◌, ◌≢◌, refl, ap, ◌∙◌, Bool, true, false, List, [], ◌∷◌, ◌++◌, ◌==◌, if◌then◌else◌, All, arith,
}
use mathlib.Core.List.{append-nil, append_assoc}
use vla_cpp.HfFetch.Names.{Str, slash}
use vla_cpp.CiAgent.Archive.{
  newline, pop_back_while, ends_in_slash, strip_dot_slash, keep_member, members,
}

-- A list of names, one a line, each with or without "./" in front. The directory that is packed is "./"
-- itself. tar writes a name so if it needs no escape.
abbrev pub listing_of : List (Bool × Str) → Str
listing_of [] = []
listing_of ((dotted, name) ∷ rest) =
    (if dotted then 46 ∷ slash ∷ name else name) ++ newline ∷ listing_of rest

-- A name is one line, and does not start with "./" of its own where none is put in front.
abbrev pub IsLine : Bool × Str → Type 0
IsLine (true, name) = All (λ c. c ≢ newline) name
IsLine (false, name) = All (λ c. c ≢ newline) name × (strip_dot_slash name ≡ name)

-- The members that are no directories.
abbrev pub file_names : List (Bool × Str) → List Str
file_names [] = []
file_names ((dotted, []) ∷ rest) = file_names rest
file_names ((dotted, c ∷ name) ∷ rest) =
    if ends_in_slash (c ∷ name) then file_names rest else (c ∷ name) ∷ file_names rest

pop_back_while-stays :
    (m : Str) → All (λ c. c ≢ newline) m → pop_back_while (λ c. c == newline) m ≡ m
unfolding pop_back_while
pop_back_while-stays [] h = refl
pop_back_while-stays (c ∷ []) (d, h) = ground arith
pop_back_while-stays (c ∷ e ∷ m) (d, h) = rw (pop_back_while-stays (e ∷ m) h) refl

members-line :
    (line s rest : Str)
    → All (λ c. c ≢ newline) s
    → members line (s ++ newline ∷ rest) ≡ keep_member (line ++ s) (members [] rest)
unfolding members
members-line line [] rest h = rw (append-nil line) refl
members-line line (c ∷ s) rest (d, h) =
    let other : (c == newline) ≡ false = ground arith in
    rw (other, members-line (line ++ c ∷ []) s rest h, append_assoc line (c ∷ []) s) refl

-- What is kept of a name, after "./".
abbrev kept : Str → List Str → List Str
kept [] keep = keep
kept (c ∷ m) keep = if ends_in_slash (c ∷ m) then keep else (c ∷ m) ∷ keep

keep_member-kept :
    (line name : Str) (keep : List Str)
    → All (λ c. c ≢ newline) name
    → strip_dot_slash line ≡ name
    → keep_member line keep ≡ kept name keep
unfolding keep_member
keep_member-kept line [] keep l s = rw (keep_member, s) refl
keep_member-kept line (c ∷ m) keep l s = rw (keep_member, s, pop_back_while-stays (c ∷ m) l) refl

file_names-kept :
    (dotted : Bool) (name : Str) (rest : List (Bool × Str))
    → kept name (file_names rest) ≡ file_names ((dotted, name) ∷ rest)
file_names-kept dotted [] rest = refl
file_names-kept dotted (c ∷ name) rest = refl

-- From a list of names, one a line and with or without "./", the agent reads back exactly the names
-- of the files, in order: the packed directory itself and the directories below it are left out. The
-- names have no newline, and one without "./" in front does not start with "./".
pub members-listing_of :
    (names : List (Bool × Str))
    → All IsLine names
    → members [] (listing_of names) ≡ file_names names
unfolding members strip_dot_slash
members-listing_of [] h = refl
members-listing_of ((true, name) ∷ rest) (l, h) =
    members-line [] (46 ∷ slash ∷ name) (listing_of rest) (ground arith, (ground arith, l))
    ∙ keep_member-kept (46 ∷ slash ∷ name) name (members [] (listing_of rest)) l refl
    ∙ ap (kept name) (members-listing_of rest h)
    ∙ file_names-kept true name rest
members-listing_of ((false, name) ∷ rest) ((l, s), h) =
    members-line [] name (listing_of rest) l
    ∙ keep_member-kept name name (members [] (listing_of rest)) l s
    ∙ ap (kept name) (members-listing_of rest h)
    ∙ file_names-kept false name rest
