-- ===== src/FoldQuant/Rotate/Block.antt =====
-- The size of the rotation block.
use native.Mathlib.Nat.{pow-suc}
use native.Mathlib.Decide.{dec_le, ℕ_discrete}
use vla_cpp.Common.{
  ℕ, zero, suc, ◌/◌, ◌%◌, ◌^◌, ◌≤◌, ◌<◌, ◌≡◌, ◌≢◌, refl, ltb, arith, Bool-cases, ◌⊎◌, inl, inr,
}
use vla_cpp.Common.Int.{pos}
use vla_cpp.FoldQuant.Rotate.{rot_loop, fq_rot_block_for}

-- The largest power of two up to `2 ^ a` that divides `K`.
pub record IsLargest (K a r : ℕ) : Type 0 where
  pub b : ℕ
  pub power : r ≡ 2 ^ b
  pub bounded : b ≤ a
  pub divides : K % 2 ^ b ≡ 0
  pub largest : (c : ℕ) → b < c → c ≤ a → K % 2 ^ c ≢ 0

power-pos : (a : ℕ) → 0 < 2 ^ a
power-pos zero = omega arith
power-pos (suc a) = omega (arith, pow-suc 2 a, power-pos a)

half_power : (a : ℕ) → (2 ^ suc a / 2 ≡ 2 ^ a) × (1 < 2 ^ suc a)
half_power a = (omega (arith, pow-suc 2 a), omega (arith, pow-suc 2 a, power-pos a))

le-power : (a : ℕ) → a ≤ 2 ^ a
le-power zero = omega arith
le-power (suc a) = omega (arith, le-power a, pow-suc 2 a, half_power a)

-- The smallest block divides every width.
block_one : (K a : ℕ) → a ≡ 0 → IsLargest K a 1
block_one K a e = record {
  b = 0;
  power = refl;
  bounded = omega arith;
  divides = omega arith;
  largest = λ c p q _. omega arith;
}

-- A block that does not divide is halved.
IsLargest-suc : (K a r : ℕ) → K % 2 ^ suc a ≢ 0 → IsLargest K a r → IsLargest K (suc a) r
IsLargest-suc K a r fails i = record {
  b = i.b;
  power = i.power;
  bounded = omega (arith, i.bounded);
  divides = i.divides;
  largest = λ c p q. elim (dec_le c a) [
    | yes small ↦ i.largest c p small
    | no big ↦ let e : c ≡ suc a = omega arith in rw e fails
  ];
}

rot_loop-IsLargest : (fuel K a : ℕ) → a ≤ fuel → IsLargest K a (rot_loop fuel K (2 ^ a))
unfolding rot_loop
rot_loop-IsLargest zero K zero h = block_one K 0 refl
rot_loop-IsLargest zero K (suc a) h = absurd (omega arith)
rot_loop-IsLargest (suc fuel) K zero h = block_one K 0 refl
rot_loop-IsLargest (suc fuel) K (suc a) h =
    let (halved, big) = half_power a in
    elim (ℕ_discrete (K % 2 ^ suc a) 0) [
      | yes e ↦
          let stays : rot_loop (suc fuel) K (2 ^ suc a) ≡ 2 ^ suc a = ground arith in
          rw stays (record {
            b = suc a;
            power = refl;
            bounded = omega arith;
            divides = e;
            largest = λ c p q _. omega arith;
          })
      | no fails ↦
          let halves : rot_loop (suc fuel) K (2 ^ suc a) ≡ rot_loop fuel K (2 ^ suc a / 2) =
            ground arith in
          rw (halves, halved)
            (IsLargest-suc K a _ fails (rot_loop-IsLargest fuel K a (omega arith)))
    ]

-- For a nominal size that is a power of two, the block is the largest power of two that is at most
-- the nominal size and divides the width.
pub fq_rot_block_for-IsLargest : (K a : ℕ) → IsLargest K a (fq_rot_block_for K (pos (2 ^ a)))
unfolding fq_rot_block_for
fq_rot_block_for-IsLargest K a =
    let r = rot_loop (2 ^ a) K (2 ^ a) in
    let i = rot_loop-IsLargest (2 ^ a) K a (le-power a) in
    elim (Bool-cases (ltb r 2)) [
      | inl small ↦ let one : r ≡ 1 = ground (arith, i.power, power-pos i.b) in rw (small, ← one) i
      | inr big ↦ rw big i
    ]

rot_loop_bounds :
    (fuel K bs : ℕ)
    → bs ≤ fuel
    → ((rot_loop fuel K bs ≤ 1) ⊎ (K % rot_loop fuel K bs ≡ 0)) × (rot_loop fuel K bs ≤ bs)
unfolding rot_loop
rot_loop_bounds zero K bs h = (inl (omega arith), omega arith)
rot_loop_bounds (suc fuel) K bs h = ground (arith, rot_loop_bounds fuel K (bs / 2))

-- Whatever the nominal size, the loop ends with a block of at least 1 that divides the width and is
-- no larger than the nominal size, unless it is 1.
pub fq_rot_block_for-divides :
    (K nominal : ℕ)
    → (K % fq_rot_block_for K (pos nominal) ≡ 0)
      × (1 ≤ fq_rot_block_for K (pos nominal))
      × ((fq_rot_block_for K (pos nominal) ≡ 1) ⊎ (fq_rot_block_for K (pos nominal) ≤ nominal))
unfolding fq_rot_block_for
fq_rot_block_for-divides K nominal = ground (arith, rot_loop_bounds nominal K nominal)

-- A nominal size above 1 that divides the width is the block, also if it is no power of two.
pub fq_rot_block_for_kept :
    (K nominal : ℕ) → 1 < nominal → K % nominal ≡ 0 → fq_rot_block_for K (pos nominal) ≡ nominal
unfolding fq_rot_block_for rot_loop
fq_rot_block_for_kept K zero h e = absurd (omega arith)
fq_rot_block_for_kept K (suc n) h e = ground arith
