-- ===== src/Vision/Loops.antt =====
-- What a counting loop leaves at one place of a buffer.
use vla_cpp.Common.{
  ℕ, zero, suc, ◌+◌, ◌≤◌, ◌<◌, ◌≡◌, sym, inl, inr, ◌==◌, ==_iff, Bool-cases, arith,
}
use mathlib.Core.Path.{subst}
use vla_cpp.Common.Loops.{for_range, store}

module _ {S : Type 0} (P : S → Type 0) (round : ℕ → S → S) where
  -- What every round keeps.
  pub for_range_keeps :
      (n i : ℕ) (y : S)
      → ((j : ℕ) (z : S) → i ≤ j → j < i + n → P z → P (round j z))
      → P y
      → P (for_range n i round y)
  unfolding for_range
  for_range_keeps zero i y keep p = p
  for_range_keeps (suc n) i y keep p =
      for_range_keeps n (suc i) (round i y)
        (λ j z lo hi. keep j z (omega (arith, lo)) (omega (arith, hi)))
        (keep i y (omega arith) (omega arith) p)

  -- What one round makes and every round keeps.
  pub for_range_makes :
      (n i k : ℕ) (y : S)
      → ((j : ℕ) (z : S) → i ≤ j → j < i + n → P z → P (round j z))
      → i ≤ k
      → k < i + n
      → ((z : S) → P (round k z))
      → P (for_range n i round y)
  unfolding for_range
  for_range_makes zero i k y keep lo hi make = absurd (omega (arith, lo, hi))
  for_range_makes (suc n) i k y keep lo hi make = elim (Bool-cases (i == k)) [
    | inl here ↦
        let same : i ≡ k = (==_iff i k).0 here in
        for_range_keeps n (suc i) (round i y)
          (λ j z a b. keep j z (omega (arith, a)) (omega (arith, b)))
          (subst (λ j. P (round j y)) (sym same) (make y))
    | inr later ↦
        for_range_makes n (suc i) k (round i y)
          (λ j z a b. keep j z (omega (arith, a)) (omega (arith, b))) (ground (arith, lo, later))
          (omega (arith, hi)) make
  ]

pub store_hit : {A : Type 0} (i : ℕ) (v : A) (y : ℕ → A) → store i v y i ≡ v
unfolding store
store_hit i v y = ground arith

-- A store keeps a value that it would store itself.
pub store_keeps :
    {A : Type 0} (i k : ℕ) (v w : A) (y : ℕ → A) → (i ≡ k → v ≡ w) → y k ≡ w → store i v y k ≡ w
unfolding store
store_keeps i k v w y same h = elim (Bool-cases (k == i)) [
  | inl hit ↦ rw hit (same (omega (arith, (==_iff k i).0 hit)))
  | inr miss ↦ rw miss h
]
