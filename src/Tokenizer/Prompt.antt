-- ===== src/Tokenizer/Prompt.antt =====
-- The prompt of pi0.5 in src/tokenizer.cpp is two lines, whatever the text is.
use vla_cpp.Common.{
  ℕ, suc, ◌≡◌, ◌≢◌, sym, inl, inr, Bool, true, false, not, ◌||◌, some, List, [], ◌∷◌, ◌++◌, length,
  All, All-append, ltb, ◌==◌, Bool-cases, arith,
}
use mathlib.Core.Option.{some-injective}
use vla_cpp.Common.Int.{ℤ, pos, negsuc}
use vla_cpp.Common.Text.{bytes_of}
use vla_cpp.HfFetch.Names.{Str}
use vla_cpp.Tokenizer.{
  Bins, state_bin, digits, to_string, bins_from, spaced, clean, is_empty_list, pi05_prompt,
}

abbrev pub IsOneLine : Str → Type 0
IsOneLine s = All (λ c. c ≢ 10) s

digits-IsOneLine : (n : ℕ) → IsOneLine (digits n)
unfolding digits
digits-IsOneLine n = elim (Bool-cases (ltb n 10)) [
  | inl small ↦ rw (small, digits) (ground arith, tt)
  | inr more ↦ elim (Bool-cases (ltb n 100)) [
    | inl two ↦ rw (more, two, digits) (ground arith, (ground arith, tt))
    | inr three ↦ rw (more, three, digits) (ground arith, (ground arith, (ground arith, tt)))
  ]
]

to_string-IsOneLine : (b : ℤ) → IsOneLine (to_string b)
unfolding to_string
to_string-IsOneLine (pos n) = digits-IsOneLine n
to_string-IsOneLine (negsuc n) = (ground arith, digits-IsOneLine (suc n))

spaced-IsOneLine : (s : Str) → IsOneLine (spaced s)
unfolding spaced
spaced-IsOneLine [] = tt
spaced-IsOneLine (c ∷ s) = (ground arith, spaced-IsOneLine s)

bins_from-IsOneLine :
    {F : Type 0} (bins : Bins F) (first : Bool) (state q01 q99 : List F)
    → IsOneLine (bins_from bins first state q01 q99)
unfolding bins_from
bins_from-IsOneLine bins first [] q01 q99 = tt
bins_from-IsOneLine bins first (x ∷ state) [] q99 = tt
bins_from-IsOneLine bins first (x ∷ state) (lo ∷ q01) [] = tt
bins_from-IsOneLine bins true (x ∷ state) (lo ∷ q01) (hi ∷ q99) =
    All-append (λ c. c ≢ 10) (to_string (state_bin bins x lo hi)) _
      (to_string-IsOneLine (state_bin bins x lo hi)) (bins_from-IsOneLine bins false state q01 q99)
bins_from-IsOneLine bins false (x ∷ state) (lo ∷ q01) (hi ∷ q99) = (
  ground arith,
  All-append (λ c. c ≢ 10) (to_string (state_bin bins x lo hi)) _
      (to_string-IsOneLine (state_bin bins x lo hi)) (bins_from-IsOneLine bins false state q01 q99),
)

line_lem :
    (text bins : Str)
    → IsOneLine bins
    → IsOneLine (bytes_of "Task: " ++ clean text ++ bytes_of ", State: " ++ bins)
unfolding clean
line_lem text bins h =
    let P : ℕ → Type 0 = λ c. c ≢ 10 in
    let task : IsOneLine (bytes_of "Task: ") = (
      ground arith,
      (ground arith, (ground arith, (ground arith, (ground arith, (ground arith, tt))))),
    ) in
    let state : IsOneLine (bytes_of ", State: ") = (
      ground arith,
      (
        ground arith,
        (
          ground arith,
          (
            ground arith,
            (ground arith, (ground arith, (ground arith, (ground arith, (ground arith, tt))))),
          ),
        ),
      ),
    ) in
    All-append P (bytes_of "Task: " ++ clean text ++ bytes_of ", State: ") bins
      (All-append P (bytes_of "Task: " ++ clean text) (bytes_of ", State: ")
        (All-append P (bytes_of "Task: ") (clean text) task (spaced-IsOneLine _)) state)
      h

-- Whatever the text and the state are, a prompt of pi0.5 is one line, a semicolon and a newline, and
-- the line that asks for the action: no text of a client can add a line to it.
pub pi05_prompt-IsOneLine :
    {F : Type 0} (bins : Bins F) (text : Str) (state q01 q99 : List F) (out : Str)
    → pi05_prompt bins text state q01 q99 ≡ some out
    → (line : Str) × (out ≡ line ++ 59 ∷ 10 ∷ bytes_of "Action: ") × IsOneLine line
unfolding pi05_prompt
pi05_prompt-IsOneLine bins text state q01 q99 out e =
    elim (Bool-cases (is_empty_list q01 || not (length q01 == length q99))) [
      | inl bad ↦ absurd (ground (arith, rw (bad, pi05_prompt) at e))
      | inr fine ↦ elim (Bool-cases (ltb (length state) (length q01))) [
        | inl short ↦ absurd (ground (arith, rw (fine, short, pi05_prompt) at e))
        | inr long ↦
            let said = some-injective _ _ (rw (fine, long, pi05_prompt) at e) in
            let line =
              bytes_of "Task: "
              ++ clean text
              ++ bytes_of ", State: "
              ++ bins_from bins true state q01 q99 in
            (
              line,
              sym said,
              line_lem text (bins_from bins true state q01 q99)
                  (bins_from-IsOneLine bins true state q01 q99),
            )
      ]
    ]
