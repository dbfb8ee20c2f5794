-- ===== src/HfFetch/Names/Match.antt =====
-- hf_match of src/serving/hf_fetch.h: the files that a name or a tag stands for. `is_gguf` is the
-- test of a path's extension by std::filesystem.
use vla_cpp.Common.{
  ◌+◌, ◌≡◌, refl, inl, inr, Bool, true, false, not, ◌&&◌, ◌||◌, List, [], ◌∷◌, map, All, ◌==◌,
  if◌then◌else◌, arith, Bool-cases,
}
use vla_cpp.HfFetch.Names.{Str, slash, in_range}

-- `std::tolower` in the C locale.
unfoldable pub hf_lower : Str → Str
hf_lower s = map (λ c. if in_range 65 90 c then c + 32 else c) s

unfoldable pub str_eq : Str → Str → Bool
str_eq [] [] = true
str_eq (a ∷ s) (b ∷ t) = a == b && str_eq s t
str_eq _ _ = false

-- `s.rfind(prefix, 0) == 0`
unfoldable pub starts : Str → Str → Bool
starts [] s = true
starts (p ∷ ps) (c ∷ s) = p == c && starts ps s
starts (p ∷ ps) [] = false

-- `s.find(w) != npos`
unfoldable pub contains : Str → Str → Bool
unfolding starts
contains w [] = starts w []
contains w (c ∷ s) = starts w (c ∷ s) || contains w s

-- `f.substr(f.find_last_of('/') + 1)`, with the name since the last slash that was seen.
unfoldable pub base_from : Str → Str → Str
base_from seen [] = seen
base_from seen (c ∷ s) = if c == slash then base_from s s else base_from seen s

unfoldable pub base : Str → Str
unfolding base_from
base f = base_from f f

abbrev pub mmproj : Str
mmproj = 109 ∷ 109 ∷ 112 ∷ 114 ∷ 111 ∷ 106 ∷ []

unfoldable pub is_listed : Str → List Str → Bool
unfolding str_eq
is_listed want [] = false
is_listed want (f ∷ fs) = str_eq f want || is_listed want fs

module _ (is_gguf : Str → Bool) where
  unfoldable pub fits : Str → Str → Bool
  unfolding base str_eq starts hf_lower contains
  fits want f =
      if is_gguf want
      then str_eq (base f) want
      else not (starts mmproj (base f)) && contains (hf_lower want) (hf_lower f)

  unfoldable pub filter_fits : Str → List Str → List Str
  unfolding fits
  filter_fits want [] = []
  filter_fits want (f ∷ fs) = if fits want f then f ∷ filter_fits want fs else filter_fits want fs

  unfoldable pub hf_match : List Str → Str → List Str
  unfolding is_listed filter_fits
  hf_match files want = if is_listed want files then want ∷ [] else filter_fits want files

pub str_eq_iff : (s t : Str) → str_eq s t ≡ true → s ≡ t
unfolding str_eq
str_eq_iff [] [] h = refl
str_eq_iff [] (b ∷ t) h = ground arith
str_eq_iff (a ∷ s) [] h = ground arith
str_eq_iff (a ∷ s) (b ∷ t) h =
    let heads : a ≡ b = ground arith in
    let tails = str_eq_iff s t (ground arith) in rw (heads, tails) refl

module _ (P : Str → Type 0) where
  listed-All : (want : Str) (files : List Str) → All P files → is_listed want files ≡ true → P want
  unfolding is_listed
  listed-All want [] ps h = ground arith
  listed-All want (f ∷ fs) (p, ps) h = elim (Bool-cases (str_eq f want)) [
    | inl same ↦ rw (str_eq_iff f want same) at p
    | inr other ↦ listed-All want fs ps (ground arith)
  ]

  filter-All :
      (is_gguf : Str → Bool) (want : Str) (files : List Str)
      → All P files
      → All P (filter_fits is_gguf want files)
  unfolding filter_fits
  filter-All is_gguf want [] ps = tt
  filter-All is_gguf want (f ∷ fs) (p, ps) = elim (Bool-cases (fits is_gguf want f)) [
    | inl kept ↦ rw kept (p, filter-All is_gguf want fs ps)
    | inr dropped ↦ rw dropped (filter-All is_gguf want fs ps)
  ]

  -- What holds of all files holds of those that match.
  pub match-All :
      (is_gguf : Str → Bool) (files : List Str) (want : Str)
      → All P files
      → All P (hf_match is_gguf files want)
  unfolding hf_match
  match-All is_gguf files want ps = elim (Bool-cases (is_listed want files)) [
    | inl listed ↦ rw listed (listed-All want files ps listed, tt)
    | inr other ↦ rw other (filter-All is_gguf want files ps)
  ]
