-- ===== src/FoldQuant/Declare/Tests.antt =====
-- Two sites "s" and "t" of 64 by 64 codes, over whole numbers in place of floats. No data is read when
-- they are declared, since neither has scales for its activations.
use vla_cpp.Common.{
  ◌*◌, ◌≡◌, refl, ◌⊎◌, Bool, true, false, none, some, List, [], ◌∷◌, ◌==◌, if◌then◌else◌,
}
use vla_cpp.Common.Int.{ℤ, pos}
use vla_cpp.Common.Text.{bytes_of}
use vla_cpp.HfFetch.Names.{Str}
use vla_cpp.HfFetch.Names.Match.{str_eq}
use vla_cpp.FoldQuant.Tests.{whole}
use vla_cpp.FoldQuant.Widths.{FqModuleSpec}
use vla_cpp.FoldQuant.Dequant.{part}
use vla_cpp.Gguf.{Reader, Codec, t_f32, t_bf16, t_i8, Tensor}
use vla_cpp.Loader.{Ggml, Loader}
use vla_cpp.Loader.Kept.{HasFailed}
use vla_cpp.Loader.Whole.{new_loader}
use vla_cpp.FoldQuant.Declare.{has_codes, fq_declare_linear}
use vla_cpp.FoldQuant.Declare.Fused.{all_codes, group_of, fq_declare_fused}
use vla_cpp.FoldQuant.Declare.Settled.{IsSite, fq_declare_linear-IsSite}
use vla_cpp.FoldQuant.Declare.Shared.{IsShared, fq_declare_fused-IsShared}

abbrev codes : Tensor
codes = record { ne0 = 64; ne1 = 64; ne2 = 1; ne3 = 1; type_ = t_i8; offset = 0; size = 4096 }

abbrev scales : Tensor
scales = record { ne0 = 64; ne1 = 1; ne2 = 1; ne3 = 1; type_ = t_f32; offset = 4096; size = 256 }

abbrev reader : Reader ℤ
reader = record {
  kv = λ k. none;
  tensor = λ name.
      if str_eq name (bytes_of "s.weight")
      then some codes
      else (if str_eq name (bytes_of "t.weight")
          then some codes
          else (if str_eq name (bytes_of "s.wscale")
              then some scales
              else (if str_eq name (bytes_of "t.wscale") then some scales else none)));
  data_off = 0;
  content = [];
  seekable = λ off. true;
}

abbrev codec : Codec ℤ
codec = record {
  zero_value = pos 0;
  plus_one = λ x. x;
  from_f32 = λ s. [];
  from_bf16 = λ s. [];
  from_f16 = λ s. [];
  from_packed = λ k s. [];
  to_f32 = λ xs. [];
  to_bf16 = λ xs. [];
  to_f16 = λ xs. [];
}

abbrev ggml : Ggml ℤ
ggml = record {
  row_size = λ t n. n * 4;
  n_dims = λ t. if t.ne1 == 1 then 1 else 2;
  has_room = λ ms m. true;
  quantize = λ t fs n k. [];
}

abbrev eight_bits : FqModuleSpec ℤ
eight_bits = record {
  wbits = 8;
  abits = 8;
  rot_block = pos 64;
  fold_before = true;
  clip = pos 1;
  site_bits = [];
  s4gemm = false;
  no_heads = false;
}

abbrev loader : Loader ℤ
loader = new_loader t_bf16

abbrev site : Str
site = bytes_of "s"

abbrev other : List Str
other = bytes_of "t" ∷ []

abbrev same : ℤ → ℤ → Bool
same a b = true

found : reader.tensor (part site (bytes_of ".weight")) ≡ some codes
unfolding str_eq part
found = refl

codes_there : has_codes whole ggml reader codec (some codes) ≡ true
unfolding has_codes
codes_there = refl

both_codes : group_of whole ggml reader codec true (site ∷ other) ≡ all_codes
unfolding group_of str_eq
both_codes = refl

one_works :
    (fq_declare_linear whole ggml reader codec false eight_bits "q" false none
      (pos 0)
      site
      loader).1.is_ok
    ≡ true
unfolding fq_declare_linear str_eq
one_works = refl

both_work :
    (fq_declare_fused whole ggml reader codec same false eight_bits "q" false
      (bytes_of "st")
      (site ∷ other)
      none
      (pos 0)
      loader).1.is_ok
    ≡ true
unfolding fq_declare_fused str_eq
both_work = refl

fq_declare_linear-IsSite_example :
    HasFailed ggml reader
      (fq_declare_linear whole ggml reader codec false eight_bits "q" false none
        (pos 0)
        site
        loader).1
    ⊎ IsSite whole ggml reader codec false
        (fq_declare_linear whole ggml reader codec false eight_bits "q" false none
          (pos 0)
          site
          loader).0
fq_declare_linear-IsSite_example =
    fq_declare_linear-IsSite whole ggml reader codec eight_bits "q" false none (pos 0) site codes
      loader 6 refl found codes_there

fq_declare_fused-IsShared_example :
    HasFailed ggml reader
      (fq_declare_fused whole ggml reader codec same false eight_bits "q" false
        (bytes_of "st")
        (site ∷ other)
        none
        (pos 0)
        loader).1
    ⊎ IsShared whole ggml reader codec same false site other
        (fq_declare_fused whole ggml reader codec same false eight_bits "q" false
          (bytes_of "st")
          (site ∷ other)
          none
          (pos 0)
          loader).0
fq_declare_fused-IsShared_example =
    fq_declare_fused-IsShared whole ggml reader codec same eight_bits "q" false (bytes_of "st") site
      other none (pos 0) loader 6 refl both_codes
