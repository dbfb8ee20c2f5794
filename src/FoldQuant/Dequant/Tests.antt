-- ===== src/FoldQuant/Dequant/Tests.antt =====
-- A site "s" of one row of 64 codes, over whole numbers in place of floats: each code is 3, the scale 2.
use vla_cpp.Common.{
  ◌*◌, ◌≡◌, refl, true, false, none, some, List, [], ◌∷◌, ◌++◌, length, replicate, leb,
  if◌then◌else◌,
}
use vla_cpp.Common.Int.{ℤ, pos, ◌*ℤ◌}
use vla_cpp.Common.Text.{bytes_of}
use vla_cpp.HfFetch.Names.{Str}
use vla_cpp.HfFetch.Names.Match.{str_eq}
use vla_cpp.FoldQuant.Tests.{whole}
use vla_cpp.FoldQuant.Widths.{FqModuleSpec}
use vla_cpp.Gguf.{Reader, Codec, t_f32, t_bf16, t_i8, Tensor}
use vla_cpp.Loader.{Ggml, Loader, same_type}
use vla_cpp.Loader.Whole.{new_loader}
use vla_cpp.FoldQuant.Dequant.{part, register_dequant}
use vla_cpp.FoldQuant.Dequant.Rebuilt.{IsRebuilt, rebuilt_floats, register_dequant-IsRebuilt}

abbrev codes : Tensor
codes = record { ne0 = 64; ne1 = 1; ne2 = 1; ne3 = 1; type_ = t_i8; offset = 0; size = 64 }

abbrev scales : Tensor
scales = record { ne0 = 1; ne1 = 1; ne2 = 1; ne3 = 1; type_ = t_f32; offset = 64; size = 4 }

abbrev reader : Reader ℤ
reader = record {
  kv = λ k. none;
  tensor = λ name.
      if str_eq name (bytes_of "s.weight")
      then some codes
      else (if str_eq name (bytes_of "s.wscale") then some scales else none);
  data_off = 0;
  content = replicate 64 3 ++ (2 ∷ 0 ∷ 0 ∷ 0 ∷ []);
  seekable = λ off. true;
}

abbrev every_fourth : Str → List ℤ
every_fourth (a ∷ b ∷ c ∷ d ∷ s) = pos a ∷ every_fourth s
every_fourth s = []

abbrev codec : Codec ℤ
codec = record {
  zero_value = pos 0;
  plus_one = λ x. x;
  from_f32 = every_fourth;
  from_bf16 = every_fourth;
  from_f16 = every_fourth;
  from_packed = λ k s. [];
  to_f32 = λ xs. [];
  to_bf16 = λ xs. [];
  to_f16 = λ xs. [];
}

abbrev ggml : Ggml ℤ
ggml = record {
  row_size = λ t n. n * 4;
  n_dims = λ t. 2;
  has_room = λ ms m. true;
  quantize = λ t fs n k. [];
}

abbrev eight_bits : FqModuleSpec ℤ
eight_bits = record {
  wbits = 8;
  abits = 8;
  rot_block = pos 1;
  fold_before = true;
  clip = pos 1;
  site_bits = [];
  s4gemm = false;
  no_heads = false;
}

abbrev loader : Loader ℤ
loader = new_loader t_bf16

abbrev site : Str
site = bytes_of "s"

found : reader.tensor (part site (bytes_of ".weight")) ≡ some codes
unfolding str_eq part
found = refl

registered : (register_dequant whole ggml reader codec eight_bits "q" site codes loader).0 ≡ true
unfolding register_dequant str_eq
registered = refl

short_name : leb 256 (length (part site (bytes_of ".weight"))) ≡ false
unfolding part
short_name = refl

six_each :
    rebuilt_floats whole ggml reader codec eight_bits "q" site codes ≡ some (replicate 64 (pos 6))
unfolding rebuilt_floats str_eq ◌*ℤ◌
six_each = refl

register_dequant-IsRebuilt_example :
    IsRebuilt whole ggml reader codec t_bf16 eight_bits "q" site codes 0
      (register_dequant whole ggml reader codec eight_bits "q" site codes loader).1
unfolding same_type
register_dequant-IsRebuilt_example =
    register_dequant-IsRebuilt whole ggml reader codec t_bf16 eight_bits "q" site codes loader 0
      refl short_name found refl refl registered
