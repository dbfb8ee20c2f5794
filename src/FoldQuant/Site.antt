-- ===== src/FoldQuant/Site.antt =====
-- What a FoldQuant site must satisfy to be used: fill_specs and fq_set_heads of
-- src/foldquant.cpp, as it is built without SYCL. A tensor is its shape.
pub mod Fits
use Prim.Native.String.{String}
use vla_cpp.Common.{
  ℕ, zero, suc, ◌+◌, ◌-◌, ◌*◌, ◌/◌, ◌%◌, Bool, true, false, not, ◌&&◌, ◌||◌, Option, none, some,
  ◌==◌, ltb, Result, ok, err, ◌>>◌, ◌>>=◌, refuse_if, if◌then◌else◌,
}
use vla_cpp.Common.Int.{ℤ, pos}
use vla_cpp.FoldQuant.Floats.{FloatOps}
use vla_cpp.FoldQuant.Rotate.{fq_rot_block_for}
use vla_cpp.FoldQuant.Layout.{GemmShape}
use vla_cpp.FoldQuant.Widths.{FqModuleSpec, wbits_for, abits_for}

-- `ne[0]`, `ne[1]` and `ggml_n_dims`.
pub record Shape : Type 0 where
  pub ne0 : ℕ
  pub ne1 : ℕ
  pub n_dims : ℕ

-- The tensors that are declared for a site.
pub record Tensors : Type 0 where
  pub w : Shape
  pub wscale : Shape
  pub ascale : Option Shape
  pub gamma : Option Shape

-- The fields of FqLinear that fill_specs sets.
pub record Specs (F : Type 0) : Type 0 where
  pub K : ℕ
  pub N : ℕ
  pub wbits : ℕ
  pub abits : ℕ
  pub rot_block : ℕ
  pub fold_before : Bool
  pub has_gamma : Bool
  pub has_ascale : Bool
  pub clip : F
  pub eps : F
  pub s4 : Bool
  pub heads_off : Bool

pub data SiteError : Type 0 where
  bad_widths : SiteError
  bad_shape : SiteError
  bad_wscale : SiteError
  bad_ascale : SiteError
  bad_gamma : SiteError
  bad_rot_block : SiteError

abbrev pub is_width : ℕ → Bool
is_width b = b == 8 || b == 4

abbrev pub is_vector : ℕ → Shape → Bool
is_vector n s = s.ne0 == n && s.n_dims == 1

abbrev pub is_some : Option Shape → Bool
is_some none = false
is_some (some s) = true

abbrev pub ascale_bad : ℕ → Option Shape → Bool
ascale_bad K none = false
ascale_bad K (some s) = not (is_vector K s)

abbrev pub gamma_bad : ℕ → Option Shape → Bool
gamma_bad K none = false
gamma_bad K (some s) = not (s.ne0 == K)

abbrev pub width_of : ℕ → Shape → ℕ
width_of wbits w = if wbits == 4 then 2 * w.ne0 else w.ne0

module _ (fl : FloatOps) where
  open fl use {F, one_f}

  unfoldable pub fill_specs : FqModuleSpec F → String → F → Tensors → Result SiteError (Specs F)
  unfolding wbits_for abits_for fq_rot_block_for
  fill_specs mod_ site_key eps t = do
    let wbits = wbits_for mod_ site_key
    let abits = abits_for mod_ site_key
    let K = width_of wbits t.w
    let N = t.w.ne1
    let rot = fq_rot_block_for K mod_.rot_block
    refuse_if (not (is_width wbits) || not (is_width abits)) bad_widths
    refuse_if (not (t.w.n_dims == 2) || not (K % 64 == 0) || not (N % 64 == 0)) bad_shape
    refuse_if (not (is_vector N t.wscale)) bad_wscale
    refuse_if (ascale_bad K t.ascale) bad_ascale
    refuse_if (gamma_bad K t.gamma) bad_gamma
    refuse_if (ltb 64 rot) bad_rot_block
    ok (record {
      K = K;
      N = N;
      wbits = wbits;
      abits = abits;
      rot_block = rot;
      fold_before = mod_.fold_before;
      has_gamma = is_some t.gamma;
      has_ascale = is_some t.ascale;
      clip = if abits == 4 then mod_.clip else one_f;
      eps = eps;
      s4 = mod_.s4gemm;
      heads_off = mod_.no_heads;
    })

-- fq_set_heads for a site with a weight, and `off` for VLA_FQ_NO_HEADS or heads_off. ggml's callers
-- give heads and lanes, so that the division is by no zero.
unfoldable pub fq_set_heads : Bool → ℕ → ℕ → ℕ → GemmShape → GemmShape
fq_set_heads off head_dim heads vmask s =
    let parts = s.n_out / (head_dim * heads) in
    if off
    then s
    else (if ltb parts 1 || ltb 32 parts || not (s.n_out % (head_dim * heads) == 0)
        then s
        else (record { n_out = s.n_out; head_dim = head_dim; heads = heads; vmask = vmask }))
