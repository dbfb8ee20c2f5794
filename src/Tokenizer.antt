-- ===== src/Tokenizer.antt =====
-- src/tokenizer.cpp: the prompt of an architecture and its tokens. SentencePiece and the float tests are
-- parameters, with the build that has SentencePiece.
pub mod Prompt
pub mod Tokens
pub mod Encode
mod Tests
use vla_cpp.Common.{
  ℕ, zero, suc, ◌+◌, ◌-◌, ◌/◌, ◌%◌, Bool, true, false, not, ◌||◌, ◌&&◌, Option, none, some, List,
  [], ◌∷◌, ◌++◌, length, take, replicate, ltb, leb, ◌==◌, if◌then◌else◌,
}
use vla_cpp.Common.Int.{ℤ, pos, negsuc, eq_ℤ, to_int}
use vla_cpp.Common.Text.{bytes_of}
use vla_cpp.HfFetch.Names.{Str, in_range}
use vla_cpp.HfFetch.Names.Match.{str_eq, hf_lower}

-- What the prompt asks of floats: `-1.0 + b/128.0 <= (double) x` for
-- x = 2*(state - q01)/(q99 - q01) - 1, and whether that x is NaN.
pub record Bins (F : Type 0) : Type 0 where
  pub at_least : ℕ → F → F → F → Bool
  pub is_nan : F → F → F → Bool

-- The loop over the bins from the `b`th, with the last one that fits.
unfoldable pub bin_loop : (ℕ → Bool) → ℕ → ℕ → ℤ → ℤ
bin_loop at_least zero b bin = bin
bin_loop at_least (suc left) b bin =
    bin_loop at_least left (suc b) (if at_least b then pos b else bin)

unfoldable pub state_bin : {F : Type 0} → Bins F → F → F → F → ℤ
unfolding bin_loop
state_bin bins x q01 q99 =
    bin_loop (λ b. bins.at_least b x q01 q99) 256 0
      (if bins.is_nan x q01 q99 then pos 255 else negsuc 0)

-- std::to_string, for numbers below 1000 and their negations.
unfoldable pub digits : ℕ → Str
digits n =
    if ltb n 10
    then (n + 48) ∷ []
    else (if ltb n 100
        then (n / 10 + 48) ∷ (n % 10 + 48) ∷ []
        else (n / 100 + 48) ∷ (n / 10 % 10 + 48) ∷ (n % 10 + 48) ∷ [])

unfoldable pub to_string : ℤ → Str
unfolding digits
to_string (pos n) = digits n
to_string (negsuc n) = 45 ∷ digits (suc n)

-- The bins of the state, with a space before each but the first; nothing if the state is shorter.
unfoldable pub bins_from : {F : Type 0} → Bins F → Bool → List F → List F → List F → Str
unfolding state_bin to_string
bins_from bins first (x ∷ state) (lo ∷ q01) (hi ∷ q99) =
    (if first then [] else 32 ∷ [])
    ++ to_string (state_bin bins x lo hi)
    ++ bins_from bins false state q01 q99
bins_from bins first _ _ _ = []

unfoldable pub is_blank : ℕ → Bool
is_blank c = c == 32 || in_range 9 13 c

-- `find_first_not_of` and `find_last_not_of` of blanks, and the text between them.
unfoldable pub drop_blanks : Str → Str
unfolding is_blank
drop_blanks [] = []
drop_blanks (c ∷ s) = if is_blank c then drop_blanks s else c ∷ s

unfoldable pub drop_last_blanks : Str → Str
unfolding is_blank
drop_last_blanks [] = []
drop_last_blanks (c ∷ s) = elim (drop_last_blanks s) [
  | [] ↦ if is_blank c then [] else c ∷ []
  | d ∷ rest ↦ c ∷ d ∷ rest
]

-- `if (c == '_' || c == '\n') c = ' ';`
unfoldable pub spaced : Str → Str
spaced [] = []
spaced (c ∷ s) = (if c == 95 || c == 10 then 32 else c) ∷ spaced s

unfoldable pub clean : Str → Str
unfolding drop_blanks drop_last_blanks spaced
clean text = spaced (drop_last_blanks (drop_blanks text))

unfoldable pub ends_in_newline : Str → Bool
ends_in_newline [] = false
ends_in_newline (c ∷ []) = c == 10
ends_in_newline (c ∷ d ∷ s) = ends_in_newline (d ∷ s)

unfoldable pub pi0_prompt : Str → Str
unfolding ends_in_newline
pi0_prompt text = if ends_in_newline text then text else text ++ 10 ∷ []

unfoldable pub oft_prompt : Str → Str
unfolding hf_lower
oft_prompt text =
    bytes_of "In: What action should the robot take to "
    ++ hf_lower text
    ++ 63 ∷ 10 ∷ bytes_of "Out:"

unfoldable pub is_empty_list : {A : Type 0} → List A → Bool
is_empty_list [] = true
is_empty_list (x ∷ xs) = false

unfoldable pub pi05_prompt : {F : Type 0} → Bins F → Str → List F → List F → List F → Option Str
unfolding bins_from clean is_empty_list
pi05_prompt bins text state q01 q99 =
    if is_empty_list q01 || not (length q01 == length q99)
    then none
    else (if ltb (length state) (length q01)
        then none
        else some (
            bytes_of "Task: "
            ++ clean text
            ++ bytes_of ", State: "
            ++ bins_from bins true state q01 q99
            ++ 59 ∷ 10 ∷ bytes_of "Action: "))

abbrev pub pi0 : Str
pi0 = bytes_of "pi0"

abbrev pub pi05 : Str
pi05 = bytes_of "pi05"

abbrev pub openvla_oft : Str
openvla_oft = bytes_of "openvla_oft"

unfoldable pub prompt_text :
    {F : Type 0} → Bins F → Str → Str → List F → List F → List F → Option Str
unfolding str_eq pi0_prompt oft_prompt pi05_prompt
prompt_text bins arch text state q01 q99 =
    if str_eq arch pi0
    then some (pi0_prompt text)
    else (if str_eq arch openvla_oft
        then some (oft_prompt text)
        else (if str_eq arch pi05 then pi05_prompt bins text state q01 q99 else none))

-- `ids.resize(n, value)`
unfoldable pub resize : {A : Type 0} → ℕ → A → List A → List A
resize n value xs = take n xs ++ replicate (n - length xs) value

-- The tokens and the mask for Octo's encoder of 16 tokens.
unfoldable pub octo_tokens : ℤ → ℤ → List ℤ → List ℤ × List ℤ
unfolding resize
octo_tokens eos_id pad_id ids =
    let cut = if ltb 15 (length ids) then resize 15 (pos 0) ids else ids in
    let ended = cut ++ eos_id ∷ [] in
    (resize 16 pad_id ended, resize 16 (pos 0) (replicate (length ended) (pos 1)))

unfoldable pub last_is : ℤ → List ℤ → Bool
last_is want [] = false
last_is want (x ∷ []) = eq_ℤ x want
last_is want (x ∷ y ∷ xs) = last_is want (y ∷ xs)

abbrev pub space_token : ℤ
space_token = pos 29871

-- The end of tokenize_prompt: at most `max_length` tokens if it is set, and OpenVLA's last token.
unfoldable pub finish_tokens : Bool → ℕ → List ℤ → List ℤ
unfolding last_is resize
finish_tokens is_oft max_length ids =
    let cut =
      if ltb 0 max_length && ltb max_length (length ids)
      then resize max_length (pos 0) ids
      else ids in
    if is_oft && not (last_is space_token cut) then cut ++ space_token ∷ [] else cut
