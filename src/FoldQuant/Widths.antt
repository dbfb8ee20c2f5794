-- ===== src/FoldQuant/Widths.antt =====
-- The quantization of a module and the widths of its sites: FqModuleSpec of src/foldquant.h, wbits_for
-- and abits_for of src/foldquant.cpp.
use Prim.Native.String.{String}
use text.Mathlib.Text.{◌==◌}
use vla_cpp.Common.{ℕ, Bool, List, [], ◌∷◌, if◌then◌else◌}
use vla_cpp.Common.Int.{ℤ}

pub record FqModuleSpec (F : Type 0) : Type 0 where
  pub wbits : ℕ
  pub abits : ℕ
  pub rot_block : ℤ
  pub fold_before : Bool
  pub clip : F
  pub site_bits : List (String × ℕ)
  pub s4gemm : Bool
  pub no_heads : Bool

abbrev pub bits_in : List (String × ℕ) → String → ℕ → ℕ
bits_in [] site_key d = d
bits_in ((k, bits) ∷ rest) site_key d = if k == site_key then bits else bits_in rest site_key d

unfoldable pub wbits_for : {F : Type 0} → FqModuleSpec F → String → ℕ
wbits_for mod_ site_key = bits_in mod_.site_bits site_key mod_.wbits

unfoldable pub abits_for : {F : Type 0} → FqModuleSpec F → String → ℕ
abits_for mod_ site_key = bits_in mod_.site_bits site_key mod_.abits
