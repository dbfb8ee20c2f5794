-- ===== src/FoldQuant/Floats.antt =====
-- The float operations that the reference uses, as the CPU performs them.
use vla_cpp.Common.{ℕ, ◌^◌, ◌≤◌, ◌<◌, ◌≡◌, Bool, true}
use vla_cpp.Common.Int.{ℤ, pos, negsuc, neg_ℤ}

pub record FloatOps : Type 1 where
  pub F : Type 0
  pub zero_f : F
  pub one_f : F
  pub add : F → F → F
  pub sub : F → F → F
  pub mul : F → F → F
  pub div : F → F → F
  pub neg : F → F
  pub sqrt : F → F
  pub fabs : F → F
  pub lt : F → F → Bool
  pub nearbyint : F → F
  -- `(int) x`, which drops the fraction, and `(float) n`.
  pub trunc : F → ℤ
  pub of_int : ℤ → F
  -- `(float) (1.0 / std::sqrt((double) n))`, and the constant 1e-12f.
  pub inv_sqrt : ℕ → F
  pub tiny : F
  -- `std::tanh`, and the constants 0.5f, 0.7978845608028654f and 0.044715f.
  pub tanh : F → F
  pub half : F
  pub sqrt_2_over_pi : F
  pub gelu_cubic : F

-- A value between -n and n.
abbrev pub Magnitude : ℕ → ℤ → Type 0
Magnitude n (pos k) = k ≤ n
Magnitude n (negsuc k) = k < n

-- What the C++ standard and IEEE 754 say of the conversions of an integer `n` up to 2 ^ 24: they are
-- exact, and a float strictly between `-n` and `n` is cut to an integer of that range. Nothing is
-- asked of a NaN, which compares with nothing.
pub record Converts (fl : FloatOps) : Type 0 where
  pub exact : (n : ℕ) → n ≤ 2 ^ 24 → fl.trunc (fl.of_int (pos n)) ≡ pos n
  pub exact_neg : (n : ℕ) → n ≤ 2 ^ 24 → fl.trunc (fl.neg (fl.of_int (pos n))) ≡ neg_ℤ (pos n)
  pub within :
      (n : ℕ) (x : fl.F)
      → n ≤ 2 ^ 24
      → fl.lt (fl.neg (fl.of_int (pos n))) x ≡ true
      → fl.lt x (fl.of_int (pos n)) ≡ true
      → Magnitude n (fl.trunc x)
