-- ===== src/FoldQuant/Declare.antt =====
-- The declaration of a FoldQuant site: fq_declare_linear of src/foldquant.cpp, over
-- the loader of src/loader.cpp. A tensor is its place among the loader's tensors.
pub mod Fused
pub mod Settled
pub mod Shared
mod Tests
use Prim.Native.String.{String}
use vla_cpp.Common.{
  ℕ, Bool, true, false, not, ◌&&◌, ◌||◌, Option, none, some, List, [], ◌∷◌, ◌++◌, length, map,
  get_or, leb, ok, err, if◌then◌else◌,
}
use vla_cpp.Common.Text.{bytes_of}
use vla_cpp.HfFetch.Names.{Str}
use vla_cpp.FoldQuant.Floats.{FloatOps}
use vla_cpp.FoldQuant.Widths.{FqModuleSpec}
use vla_cpp.FoldQuant.Site.{Shape, Specs, fill_specs}
use vla_cpp.FoldQuant.Dequant.{part, is_there, register_dequant}
use vla_cpp.Gguf.{Reader, Codec, t_i8, t_f32, Tensor, read_f32}
use vla_cpp.Loader.{Made, Ggml, Loader, name_cap, same_type, fail, typed, opt_typed, f32_weight}
use vla_cpp.Loader.Fuse.{fuse_typed, fuse_f32}

-- The site's tensors and, where fill_specs has accepted it, its parameters.
pub record FqLinear (F : Type 0) : Type 0 where
  pub w : Option ℕ
  pub wscale : Option ℕ
  pub ascale : Option ℕ
  pub bias : Option ℕ
  pub gamma : Option Shape
  pub specs : Option (Specs F)

abbrev pub no_linear : {F : Type 0} → FqLinear F
no_linear = record {
  w = none;
  wscale = none;
  ascale = none;
  bias = none;
  gamma = none;
  specs = none;
}

abbrev pub is_place : Option ℕ → Bool
is_place none = false
is_place (some i) = true

module _ (fl : FloatOps) where
  open fl use {F}

  -- A pointer that is null.
  unfoldable pub parts_missing : Bool → FqLinear F → Bool
  parts_missing has_bias r =
      not (is_place r.w) || not (is_place r.wscale) || (has_bias && not (is_place r.bias))

  module _ (gg : Ggml F) (g : Reader F) (codec : Codec F) where
    unfoldable pub shape_of : Made → Shape
    shape_of m = record {
      ne0 = m.ne0;
      ne1 = m.ne1;
      n_dims = gg.n_dims (record {
        ne0 = m.ne0;
        ne1 = m.ne1;
        ne2 = m.ne2;
        ne3 = m.ne3;
        type_ = m.type_;
        offset = 0;
        size = 0;
      });
    }

    -- A declared tensor has a place; the shape without one is never read.
    unfoldable pub shape_at : Loader F → Option ℕ → Shape
    unfolding shape_of
    shape_at L none = record { ne0 = 0; ne1 = 0; n_dims = 0 }
    shape_at L (some i) =
        get_or (map shape_of L.tensors) i (record { ne0 = 0; ne1 = 0; n_dims = 0 })

    unfoldable pub shape_if : Loader F → Option ℕ → Option Shape
    unfolding shape_at
    shape_if L none = none
    shape_if L (some i) = some (shape_at L (some i))

    -- `if (!fill_specs(...)) r.w = nullptr`
    unfoldable pub fill_site :
        FqModuleSpec F → String → F → Option Shape → FqLinear F → Loader F → FqLinear F × Loader F
    unfolding fill_specs shape_at shape_if fail
    fill_site mod_ site_key eps gamma r L =
        elim (fill_specs fl mod_ site_key eps (record {
          w = shape_at L r.w;
          wscale = shape_at L r.wscale;
          ascale = shape_if L r.ascale;
          gamma = gamma;
        })) [
          | err e ↦ (record r { w = none }, (fail L).1)
          | ok specs ↦ (record r { gamma = gamma; specs = some specs }, L)
        ]

    -- `r.bias = has_bias ? L.f32("%s.bias", site) : nullptr`
    unfoldable pub bias_of : Bool → Str → Loader F → Option ℕ × Loader F
    unfolding f32_weight
    bias_of false name L = (none, L)
    bias_of true name L = f32_weight gg g name L

    unfoldable pub declare_site : Bool → Str → Loader F → FqLinear F × Loader F
    unfolding typed f32_weight opt_typed bias_of part
    declare_site has_bias site L =
        let (w, L1) = typed gg g t_i8 (part site (bytes_of ".weight")) L in
        let (s, L2) = f32_weight gg g (part site (bytes_of ".wscale")) L1 in
        let (a, L3) = opt_typed gg g t_f32 (part site (bytes_of ".ascale")) L2 in
        let (b, L4) = bias_of has_bias (part site (bytes_of ".bias")) L3 in
        (record { w = w; wscale = s; ascale = a; bias = b; gamma = none; specs = none }, L4)

    unfoldable pub has_codes : Option Tensor → Bool
    unfolding same_type
    has_codes none = false
    has_codes (some t) = same_type t.type_ t_i8

    -- `site` is what vsnprintf gives, `dequant` the flag of the module; `meta` is the site's weight in the file.
    unfoldable pub declare_codes :
        Bool
        → FqModuleSpec F
        → String
        → Bool
        → Option Shape
        → F
        → Str
        → Tensor
        → Loader F
        → FqLinear F × Loader F
    unfolding register_dequant declare_site parts_missing fill_site
    declare_codes dequant mod_ site_key has_bias gamma eps site meta L =
        if dequant
        then (no_linear, (register_dequant fl gg g codec mod_ site_key site meta L).1)
        else (let (r, L4) = declare_site has_bias site L in
            if parts_missing has_bias r
            then (record r { w = none }, L4)
            else fill_site mod_ site_key eps gamma r L4)

    unfoldable pub fq_declare_linear :
        Bool
        → FqModuleSpec F
        → String
        → Bool
        → Option Shape
        → F
        → Str
        → Loader F
        → FqLinear F × Loader F
    unfolding fail has_codes declare_codes part
    fq_declare_linear dequant mod_ site_key has_bias gamma eps site L =
        if leb name_cap (length site)
        then (no_linear, (fail L).1)
        else (elim (g.tensor (part site (bytes_of ".weight"))) [
          | none ↦ (no_linear, L)
          | some meta ↦
              if not (has_codes (some meta))
              then (no_linear, L)
              else declare_codes dequant mod_ site_key has_bias gamma eps site meta L
        ])
