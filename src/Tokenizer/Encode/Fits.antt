-- ===== src/Tokenizer/Encode/Fits.antt =====
-- How many tokens src/tokenizer.cpp gives.
use vla_cpp.Common.{
  ℕ, suc, ◌-◌, ◌≤◌, ◌<◌, ◌≡◌, ◌≢◌, inl, inr, Bool, true, false, not, ◌&&◌, Option, none, some, List,
  [], ◌∷◌, ◌++◌, length, length-append, length-take, length-replicate, take, replicate, ltb,
  if◌then◌else◌, Bool-cases, Option-cases, arith,
}
use mathlib.Core.Option.{some-injective}
use mathlib.Core.Path.{subst}
use vla_cpp.Common.Int.{ℤ, pos}
use vla_cpp.Common.Text.{bytes_of}
use vla_cpp.HfFetch.Names.{Str}
use vla_cpp.HfFetch.Names.Match.{str_eq}
use vla_cpp.Gguf.{Reader, u32}
use vla_cpp.Tokenizer.{Bins, prompt_text, resize, finish_tokens, last_is, space_token, openvla_oft}
use vla_cpp.Tokenizer.Encode.{Processor, spm_encode, state_stats, tokenize_text}

length-resize : {A : Type 0} (n : ℕ) (value : A) (xs : List A) → length (resize n value xs) ≡ n
unfolding resize
length-resize n value xs = omega (
  arith,
  length-append (take n xs) (replicate (n - length xs) value),
  length-take n xs,
  length-replicate (n - length xs) value,
)

none-ne-some : {A : Type 0} {a : A} → none ≢ some a
none-ne-some e = cc

with_space :
    (is_oft : Bool) (n : ℕ) (cut : List ℤ)
    → length cut ≤ n
    → length (if is_oft && not (last_is space_token cut) then cut ++ space_token ∷ [] else cut)
      ≤ (if is_oft then suc n else n)
with_space false n cut h = h
with_space true n cut h = elim (Bool-cases (last_is space_token cut)) [
  | inl there ↦ rw there (omega (arith, h))
  | inr missing ↦ rw missing (omega (arith, h, length-append cut (space_token ∷ [])))
]

finish_tokens_fits :
    (is_oft : Bool) (max_length : ℕ) (ids : List ℤ)
    → 0 < max_length
    → length (finish_tokens is_oft max_length ids) ≤ (if is_oft then suc max_length else max_length)
unfolding finish_tokens
finish_tokens_fits is_oft max_length ids some_length =
    let cut =
      if ltb 0 max_length && ltb max_length (length ids)
      then resize max_length (pos 0) ids
      else ids in
    let fits : length cut ≤ max_length =
      elim (Bool-cases (ltb 0 max_length && ltb max_length (length ids))) [
        | inl long ↦ rw long (omega (arith, length-resize max_length (pos 0) ids))
        | inr short ↦ rw short (ground arith)
      ] in
    with_space is_oft max_length cut fits

-- A text of another architecture than Octo gives at most as many tokens as the file says, if it says a
-- number; OpenVLA-OFT gives at most one more, its last token.
pub tokenize_text-fits :
    {F : Type 0} (load : Str → Option Processor) (bins : Bins F) (g : Reader F) (arch text : Str)
    (state : List F) (ids : List ℤ)
    → 0 < u32 g (arch ++ bytes_of ".tokenizer_max_length")
    → tokenize_text load bins g arch text state ≡ some ids
    → length ids ≤ (
        if str_eq arch openvla_oft
        then suc (u32 g (arch ++ bytes_of ".tokenizer_max_length"))
        else u32 g (arch ++ bytes_of ".tokenizer_max_length"))
unfolding tokenize_text
tokenize_text-fits load bins g arch text state ids some_length e =
    let bound : ℕ =
      if str_eq arch openvla_oft
      then suc (u32 g (arch ++ bytes_of ".tokenizer_max_length"))
      else u32 g (arch ++ bytes_of ".tokenizer_max_length") in
    elim (Option-cases (state_stats load bins g arch)) [
      | inl missing ↦ absurd (none-ne-some (rw (missing, tokenize_text) at e))
      | inr ((q01, q99), found) ↦ elim (Option-cases (prompt_text bins arch text state q01 q99)) [
        | inl bad ↦ absurd (none-ne-some (rw (found, tokenize_text, bad) at e))
        | inr (prompt, good) ↦ elim (Option-cases (spm_encode load bins g arch prompt true)) [
          | inl failed ↦ absurd (none-ne-some (rw (found, tokenize_text, good, failed) at e))
          | inr (raw, encoded) ↦
              subst (λ l. length l ≤ bound)
                (some-injective _ _ (rw (found, tokenize_text, good, encoded) at e))
                (finish_tokens_fits (str_eq arch openvla_oft)
                  (u32 g (arch ++ bytes_of ".tokenizer_max_length")) raw some_length)
        ]
      ]
    ]
