-- ===== src/FoldQuant/Gemm/Range.antt =====
-- The int32_t accumulator of gemm_dot in src/foldquant_ref.cpp never overflows.
use vla_cpp.Common.{
  ℕ, zero, suc, ◌+◌, ◌*◌, ◌^◌, ◌≤◌, ◌<◌, arith, List, [], ◌∷◌, take, length, length-take, ◌/◌, ◌%◌,
  map, All, ◌==◌, Bool-cases, inl, inr,
}
use vla_cpp.Common.Int.{ℤ, pos, mag, ◌+ℤ◌, ◌*ℤ◌, mag-+ℤ, mag-*ℤ}
use vla_cpp.FoldQuant.Pack.{int8_of, sign_extend, unpack_nibbles}
use vla_cpp.FoldQuant.Gemm.{dot_from, codes_in}

-- A code of eight bits has at most this magnitude.
abbrev IsSmall : ℤ → Type 0
IsSmall z = mag z ≤ 128

int8_of-IsSmall : (b : ℕ) → IsSmall (int8_of b)
unfolding int8_of
int8_of-IsSmall b = ground arith

mul_le : (a b : ℕ) → a ≤ 128 → b ≤ 128 → a * b ≤ 16384
mul_le a b p q = grind arith

mag-dot_from :
    (acc : ℤ) (ws xs : List ℤ)
    → All IsSmall ws
    → All IsSmall xs
    → mag (dot_from acc ws xs) ≤ mag acc + length ws * 16384
unfolding dot_from
mag-dot_from acc [] xs h k = omega arith
mag-dot_from acc (w ∷ ws) [] h k = omega arith
mag-dot_from acc (w ∷ ws) (x ∷ xs) (p, h) (q, k) = omega (
  arith,
  mag-dot_from (acc +ℤ w *ℤ x) ws xs h k,
  mag-+ℤ acc (w *ℤ x),
  mag-*ℤ w x,
  mul_le (mag w) (mag x) p q,
)

sign_extend-IsSmall : (n : ℕ) → IsSmall (sign_extend n)
unfolding sign_extend
sign_extend-IsSmall n = ground arith

unpack_nibbles-IsSmall : (bytes : List ℕ) → All IsSmall (unpack_nibbles bytes)
unfolding unpack_nibbles
unpack_nibbles-IsSmall [] = tt
unpack_nibbles-IsSmall (b ∷ bs) =
    (sign_extend-IsSmall (b % 16), (sign_extend-IsSmall (b / 16 % 16), unpack_nibbles-IsSmall bs))

bytes-IsSmall : (bytes : List ℕ) → All IsSmall (map int8_of bytes)
bytes-IsSmall [] = tt
bytes-IsSmall (b ∷ bs) = (int8_of-IsSmall b, bytes-IsSmall bs)

codes_in-IsSmall : (bits : ℕ) (bytes : List ℕ) → All IsSmall (codes_in bits bytes)
unfolding codes_in
codes_in-IsSmall bits bytes = elim (Bool-cases (bits == 4)) [
  | inl nibbles ↦ rw nibbles (unpack_nibbles-IsSmall bytes)
  | inr whole ↦ rw whole (bytes-IsSmall bytes)
]

All-take : (k : ℕ) (xs : List ℤ) → All IsSmall xs → All IsSmall (take k xs)
All-take zero xs h = tt
All-take (suc k) [] h = tt
All-take (suc k) (x ∷ xs) (p, h) = (p, All-take k xs h)

-- For rows of fewer than 2 ^ 17 weights, whatever bytes the weights and the activations are stored
-- in, with 4 or 8 bits: the sum after each round of the loop of gemm_dot is an int32_t.
pub dot_from_in_range :
    (wbits abits k : ℕ) (w x : List ℕ)
    → length (codes_in wbits w) < 2 ^ 17
    → mag (dot_from (pos 0) (take k (codes_in wbits w)) (take k (codes_in abits x))) < 2 ^ 31
dot_from_in_range wbits abits k w x h = omega (
  arith,
  mag-dot_from (pos 0) (take k (codes_in wbits w)) (take k (codes_in abits x))
      (All-take k _ (codes_in-IsSmall wbits w)) (All-take k _ (codes_in-IsSmall abits x)),
  length-take k (codes_in wbits w),
)
