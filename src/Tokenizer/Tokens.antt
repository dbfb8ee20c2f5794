-- ===== src/Tokenizer/Tokens.antt =====
-- The tokens of src/tokenizer.cpp that do not depend on the vocabulary: Octo's padding, and the bins of
-- the state.
use vla_cpp.Common.{
  ℕ, zero, suc, ◌+◌, ◌-◌, ◌≤◌, ◌<◌, min, ◌≡◌, refl, sym, ap, ◌∙◌, inl, inr, ◌⊎◌, Bool, true, false,
  List, [], ◌∷◌, ◌++◌, length, length-append, length-take, length-replicate, take, replicate, ltb,
  if◌then◌else◌, Bool-cases, arith,
}
use mathlib.Core.List.{append-nil, append_assoc}
use vla_cpp.Common.Int.{ℤ, pos, negsuc}
use vla_cpp.Tokenizer.{Bins, bin_loop, state_bin, resize, octo_tokens}

-- The last bin from `lo` to below `hi` that the test holds of; `start` if there is none.
abbrev pub IsLast : (ℕ → Bool) → ℕ → ℕ → ℤ → ℤ → Type 0
IsLast test lo hi start bin =
    ((bin ≡ start) × ((c : ℕ) → lo ≤ c → c < hi → test c ≡ false))
    ⊎ ((n : ℕ) × (bin ≡ pos n)
        × (lo ≤ n)
        × (n < hi)
        × (test n ≡ true)
        × ((c : ℕ) → n < c → c < hi → test c ≡ false))

from_next :
    (test : ℕ → Bool) (b hi : ℕ)
    → test b ≡ false
    → ((c : ℕ) → suc b ≤ c → c < hi → test c ≡ false)
    → (c : ℕ) → b ≤ c
    → c < hi
    → test c ≡ false
from_next test b hi here later c p q = elim (Bool-cases (ltb b c)) [
  | inl above ↦ later c (ground arith) q
  | inr level ↦ let same : c ≡ b = ground arith in ap test same ∙ here
]

bin_loop-IsLast :
    (test : ℕ → Bool) (left b hi : ℕ) (start : ℤ)
    → hi ≡ b + left
    → IsLast test b hi start (bin_loop test left b start)
unfolding bin_loop
bin_loop-IsLast test zero b hi start e = inl (refl, λ c p q. absurd (omega (arith, e, p, q)))
bin_loop-IsLast test (suc left) b hi start e = elim (Bool-cases (test b)) [
  | inl here ↦
      let rest = bin_loop-IsLast test left (suc b) hi (pos b) (omega (arith, e)) in
      rw (bin_loop, here)
        (inr (elim rest [
          | inl (same, none_later) ↦ (
            b,
            same,
            omega arith,
            omega (arith, e),
            here,
            λ c p q. none_later c (omega (arith, p)) q,
          )
          | inr (n, same, lo, below, found, none_later) ↦
              (n, same, omega (arith, lo), below, found, none_later)
        ]))
  | inr not_here ↦
      let rest = bin_loop-IsLast test left (suc b) hi start (omega (arith, e)) in
      rw (bin_loop, not_here)
        (elim rest [
          | inl (same, none_later) ↦ inl (same, from_next test b hi not_here none_later)
          | inr (n, same, lo, below, found, none_later) ↦
              inr (n, same, omega (arith, lo), below, found, none_later)
        ])
]

-- The bin of a state value is the last of the 256 that the value reaches; -1 for a value below them
-- all, and 255 for a value that is not a number.
pub state_bin-IsLast :
    {F : Type 0} (bins : Bins F) (x q01 q99 : F)
    → IsLast
        (λ b. bins.at_least b x q01 q99)
        0
        256
        (if bins.is_nan x q01 q99 then pos 255 else negsuc 0)
        (state_bin bins x q01 q99)
unfolding state_bin
state_bin-IsLast bins x q01 q99 = bin_loop-IsLast (λ b. bins.at_least b x q01 q99) 256 0 256 _ refl

take_all : (n : ℕ) (xs : List ℤ) → length xs ≤ n → take n xs ≡ xs
take_all zero [] h = refl
take_all (suc n) [] h = refl
take_all zero (x ∷ xs) h = absurd (omega (arith, h))
take_all (suc n) (x ∷ xs) h = ap (λ l. x ∷ l) (take_all n xs (omega (arith, h)))

resize_long : (n : ℕ) (value : ℤ) (xs : List ℤ) → n ≤ length xs → resize n value xs ≡ take n xs
unfolding resize
resize_long n value xs h =
    let none_more : n - length xs ≡ 0 = omega (arith, h) in
    ap (λ k. take n xs ++ replicate k value) none_more ∙ append-nil (take n xs)

resize_short :
    (n : ℕ) (value : ℤ) (xs : List ℤ)
    → length xs ≤ n
    → resize n value xs ≡ xs ++ replicate (n - length xs) value
unfolding resize
resize_short n value xs h = ap (λ l. l ++ replicate (n - length xs) value) (take_all n xs h)

cut_to_fifteen :
    (ids : List ℤ) → (if ltb 15 (length ids) then resize 15 (pos 0) ids else ids) ≡ take 15 ids
cut_to_fifteen ids = elim (Bool-cases (ltb 15 (length ids))) [
  | inl long ↦ rw (long, resize_long 15 (pos 0) ids (ground arith)) refl
  | inr short ↦ rw short (sym (take_all 15 ids (ground arith)))
]

-- Octo's encoder always gets 16 tokens and a mask of 16: the first tokens of the text, at most 15, the
-- end token right behind them and the padding after it; and the mask marks the tokens with the end
-- token, and nothing behind it.
pub octo_tokens-min :
    (eos_id pad_id : ℤ) (ids : List ℤ)
    → octo_tokens eos_id pad_id ids ≡ (
      take 15 ids ++ eos_id ∷ replicate (15 - min 15 (length ids)) pad_id,
      replicate (suc (min 15 (length ids))) (pos 1) ++ replicate (15 - min 15 (length ids)) (pos 0),
    )
unfolding octo_tokens
octo_tokens-min eos_id pad_id ids =
    let kept = take 15 ids in
    let n = min 15 (length ids) in
    let size : length kept ≡ n = length-take 15 ids in
    let ended : length (kept ++ eos_id ∷ []) ≡ suc n =
      omega (arith, length-append kept (eos_id ∷ []), size) in
    let room : 16 - suc n ≡ 15 - n = omega arith in
    let first : resize 16 pad_id (kept ++ eos_id ∷ [])
        ≡ kept ++ eos_id ∷ replicate (15 - n) pad_id =
      resize_short 16 pad_id (kept ++ eos_id ∷ []) (omega (arith, ended))
      ∙ ap (λ k. (kept ++ eos_id ∷ []) ++ replicate (16 - k) pad_id) ended
      ∙ ap (λ k. (kept ++ eos_id ∷ []) ++ replicate k pad_id) room
      ∙ append_assoc kept (eos_id ∷ []) (replicate (15 - n) pad_id) in
    let ones = replicate (length (kept ++ eos_id ∷ [])) (pos 1) in
    let count : length ones ≡ suc n =
      length-replicate (length (kept ++ eos_id ∷ [])) (pos 1) ∙ ended in
    let mask : resize 16 (pos 0) ones ≡ replicate (suc n) (pos 1) ++ replicate (15 - n) (pos 0) =
      resize_short 16 (pos 0) ones (omega (arith, count))
      ∙ ap (λ k. ones ++ replicate (16 - k) (pos 0)) count
      ∙ ap (λ k. ones ++ replicate k (pos 0)) room
      ∙ ap (λ k. replicate k (pos 1) ++ replicate (15 - n) (pos 0)) ended in
    let Pair : List ℤ → List ℤ × List ℤ = λ cut. (
      resize 16 pad_id (cut ++ eos_id ∷ []),
      resize 16 (pos 0) (replicate (length (cut ++ eos_id ∷ [])) (pos 1)),
    ) in
    ap Pair (cut_to_fifteen ids) ∙ rw (first, mask) refl
