-- ===== src/HfFetch/Names.antt =====
-- The tests on names of src/serving/hf_fetch.h: hf_token_ok, hf_lower and hf_match. A string is the
-- list of its bytes.
pub mod Match
use vla_cpp.Common.{
  ℕ, zero, suc, ◌+◌, ◌≤◌, ◌<◌, ◌≡◌, ◌≢◌, refl, ap, ◌⊎◌, inl, inr, Bool, true, false, not, ◌&&◌,
  ◌||◌, Option, none, some, List, [], ◌∷◌, map, length, All, ltb, leb, ◌==◌, if◌then◌else◌, arith,
  Bool-cases,
}

abbrev pub Str : Type 0
Str = List ℕ

abbrev pub dot : ℕ
dot = 46

abbrev pub dash : ℕ
dash = 45

abbrev pub slash : ℕ
slash = 47

abbrev pub in_range : ℕ → ℕ → ℕ → Bool
in_range lo hi c = leb lo c && leb c hi

-- a-z, A-Z, 0-9, '.', '_', '-', and '/' where it is allowed.
unfoldable pub char_ok : Bool → ℕ → Bool
char_ok allow_slash c =
    in_range 97 122 c
    || in_range 65 90 c
    || in_range 48 57 c
    || c == dot
    || c == 95
    || c == dash
    || (allow_slash && c == slash)

unfoldable pub all_ok : Bool → Str → Bool
unfolding char_ok
all_ok allow_slash [] = true
all_ok allow_slash (c ∷ s) = char_ok allow_slash c && all_ok allow_slash s

-- `s.find("..") != npos`
unfoldable pub has_dots : Str → Bool
has_dots (a ∷ b ∷ s) = (a == dot && b == dot) || has_dots (b ∷ s)
has_dots _ = false

unfoldable pub hf_token_ok : Bool → Str → Bool
unfolding all_ok has_dots
hf_token_ok allow_slash [] = false
hf_token_ok allow_slash (c ∷ s) =
    if ltb 200 (length (c ∷ s))
    then false
    else (if c == dash || c == slash || has_dots (c ∷ s) then false else all_ok allow_slash (c ∷ s))

-- What a shell and a path may be given: bytes that no shell reads as anything but themselves, not an
-- option, not an absolute path, and no step out of a directory.
abbrev pub IsPlain : ℕ → Type 0
IsPlain c = ((97 ≤ c) × (c ≤ 122)) ⊎ ((65 ≤ c) × (c ≤ 90)) ⊎ ((45 ≤ c) × (c ≤ 57)) ⊎ (c ≡ 95)

abbrev pub NoDots : Str → Type 0
NoDots (a ∷ b ∷ s) = ((a ≢ dot) ⊎ (b ≢ dot)) × NoDots (b ∷ s)
NoDots _ = Unit

abbrev pub IsToken : Str → Type 0
IsToken [] = ⊥
IsToken (c ∷ s) = (c ≢ dash) × (c ≢ slash) × NoDots (c ∷ s) × All IsPlain (c ∷ s)

char_ok-IsPlain : (b : Bool) (c : ℕ) → char_ok b c ≡ true → IsPlain c
unfolding char_ok
char_ok-IsPlain b c h = ground arith

all_ok-IsPlain : (b : Bool) (s : Str) → all_ok b s ≡ true → All IsPlain s
unfolding all_ok
all_ok-IsPlain b [] h = tt
all_ok-IsPlain b (c ∷ s) h = (char_ok-IsPlain b c (ground arith), all_ok-IsPlain b s (ground arith))

has_dots-NoDots : (s : Str) → has_dots s ≡ false → NoDots s
unfolding has_dots
has_dots-NoDots [] h = tt
has_dots-NoDots (a ∷ []) h = tt
has_dots-NoDots (a ∷ b ∷ s) h = (ground arith, has_dots-NoDots (b ∷ s) (ground arith))

pub hf_token_ok-IsToken : (b : Bool) (s : Str) → hf_token_ok b s ≡ true → IsToken s
unfolding hf_token_ok
hf_token_ok-IsToken b [] h = ground arith
hf_token_ok-IsToken b (c ∷ s) h = (
  ground arith,
  ground arith,
  has_dots-NoDots (c ∷ s) (ground arith),
  all_ok-IsPlain b (c ∷ s) (ground arith),
)
