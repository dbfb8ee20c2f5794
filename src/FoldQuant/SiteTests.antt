-- ===== src/FoldQuant/SiteTests.antt =====
-- A site of 128 by 64 weights of four bits, and the choice of kernels on a host.
use vla_cpp.Common.{ℕ, ◌≡◌, refl, true, false, none, some, List, [], ◌∷◌, ok}
use vla_cpp.Common.Int.{ℤ, pos}
use vla_cpp.FoldQuant.Layout.{GemmShape}
use vla_cpp.FoldQuant.Widths.{FqModuleSpec}
use vla_cpp.FoldQuant.Site.{Tensors, Specs, fill_specs}
use vla_cpp.FoldQuant.Site.Fits.{Fits, fill_specs-Fits}
use vla_cpp.FoldQuant.Policy.{Build, Host}
use vla_cpp.FoldQuant.Tests.{whole}

abbrev module_spec : FqModuleSpec ℤ
module_spec = record {
  wbits = 8;
  abits = 8;
  rot_block = pos 64;
  fold_before = true;
  clip = pos 1;
  site_bits = ("o", 4) ∷ [];
  s4gemm = false;
  no_heads = false;
}

abbrev tensors : Tensors
tensors = record {
  w = record { ne0 = 64; ne1 = 64; n_dims = 2 };
  wscale = record { ne0 = 64; ne1 = 1; n_dims = 1 };
  ascale = none;
  gamma = some (record { ne0 = 128; ne1 = 1; n_dims = 1 });
}

abbrev site : Specs ℤ
site = record {
  K = 128;
  N = 64;
  wbits = 4;
  abits = 4;
  rot_block = 64;
  fold_before = true;
  has_gamma = true;
  has_ascale = false;
  clip = pos 1;
  eps = pos 0;
  s4 = false;
  heads_off = false;
}

filled : fill_specs whole module_spec "o" (pos 0) tensors ≡ ok site
unfolding fill_specs
filled = refl

fill_specs-Fits_example : Fits site
fill_specs-Fits_example = fill_specs-Fits whole module_spec "o" (pos 0) tensors site 6 refl filled

abbrev plain : GemmShape
plain = record { n_out = 24; head_dim = 0; heads = 0; vmask = 0 }

abbrev off_word : List ℕ
off_word = 79 ∷ 102 ∷ 102 ∷ []

abbrev vulkan : Host
vulkan = record { name = 86 ∷ []; is_cuda = false; dequant_env = none; ov_device = none }

abbrev build : Build
build = record { sycl = true; openvino = false }
