-- ===== src/FoldQuant/Declare/Settled.antt =====
-- What a site of INT8 codes becomes when it is declared: src/foldquant.cpp with src/loader.cpp.
use Prim.Native.String.{String}
use vla_cpp.Common.{
  ℕ, ◌^◌, ◌≡◌, ◌⊎◌, refl, sym, inl, inr, Bool, true, false, not, ◌&&◌, Option, none, some, length,
  leb, Bool-cases, Option-cases, Result-cases, arith,
}
use mathlib.Core.Option.{none-ne-some}
use vla_cpp.Common.Int.{pos}
use vla_cpp.Common.Text.{bytes_of}
use vla_cpp.HfFetch.Names.{Str}
use vla_cpp.FoldQuant.Floats.{FloatOps}
use vla_cpp.FoldQuant.Widths.{FqModuleSpec}
use vla_cpp.FoldQuant.Site.{Shape, Tensors, Specs, fill_specs}
use vla_cpp.FoldQuant.Site.Fits.{Fits, fill_specs-Fits}
use vla_cpp.FoldQuant.Dequant.{part}
use vla_cpp.Gguf.{Reader, Codec, TensorType, t_i8, t_f32, Tensor, resident_type}
use vla_cpp.Loader.{
  Made, Ggml, AsFloat, Loader, find, same_type, new_tensor, declare_float, cannot_pad,
  declare_shape, note_norm, declare_found, declare, typed, f32_weight, opt_typed,
}
use vla_cpp.Loader.Kept.{HasFailed, declare-HasFailed}
use vla_cpp.FoldQuant.Declare.{
  FqLinear, is_place, parts_missing, shape_at, shape_if, fill_site, bias_of, declare_site,
  has_codes, declare_codes, fq_declare_linear,
}

module _ {F : Type 0} (gg : Ggml F) (g : Reader F) where
  -- A result without a tensor leaves the loader failed.
  abbrev pub Settles : Option ℕ × Loader F → Type 0
  Settles r = r.0 ≡ none → HasFailed gg g r.1

  pub new_tensor-Settles : (m : Made) (L : Loader F) → Settles (new_tensor gg m L)
  unfolding new_tensor
  new_tensor-Settles m L e = elim (Bool-cases (gg.has_room L.tensors m)) [
    | inl room ↦ absurd (none-ne-some _ (sym (rw (new_tensor, room) at e)))
    | inr full ↦ rw full refl
  ]

  note_norm-Settles :
      (gn : Bool) (name : Str) (r : Option ℕ × Loader F)
      → Settles r
      → Settles (note_norm gg g gn name r)
  unfolding note_norm
  note_norm-Settles gn name (none, L) h e = h refl
  note_norm-Settles gn name (some t, L) h e = absurd (none-ne-some t (sym e))

  declare_shape-Settles :
      (rt : TensorType) (name : Str) (src : Tensor) (p : Option (ℕ × ℕ)) (L : Loader F)
      → Settles (declare_shape gg g rt name src p L)
  unfolding declare_shape
  declare_shape-Settles rt name src none L = new_tensor-Settles _ L
  declare_shape-Settles rt name src (some p) L = elim (Bool-cases (cannot_pad gg g rt src p)) [
    | inl bad ↦ rw bad (λ e. refl)
    | inr good ↦ rw good (new_tensor-Settles _ L)
  ]

  declare_float-Settles :
      (want : TensorType) (name : Str) (a : Option (AsFloat F)) (L : Loader F)
      → Settles (declare_float gg g want name a L)
  unfolding declare_float
  declare_float-Settles want name none L = λ e. refl
  declare_float-Settles want name (some a) L = new_tensor-Settles _ L

  declare_found-Settles :
      (want : TensorType) (gn : Bool) (name : Str) (src : Tensor) (L : Loader F)
      → Settles (declare_found gg g want gn name src L)
  unfolding declare_found
  declare_found-Settles want gn name src L =
      elim (Bool-cases (same_type src.type_ t_i8 && not (same_type want t_i8))) [
        | inl codes ↦ rw codes (declare_float-Settles want name (find name L.as_floats) L)
        | inr plain ↦ rw plain (
            note_norm-Settles gn name _ (
              declare_shape-Settles (resident_type g (some src) want) name src (find name L.pads)
                L))
      ]

  -- A tensor that is required is declared, or the loader has failed.
  pub declare-Settles :
      (want : TensorType) (gn : Bool) (name : Str) (L : Loader F)
      → Settles (declare gg g want true gn name L)
  unfolding declare
  declare-Settles want gn name L = elim (Bool-cases (leb 256 (length name))) [
    | inl long ↦ rw long (λ e. refl)
    | inr short ↦ elim (Option-cases (g.tensor name)) [
      | inl missing ↦ rw (declare, short, missing) (λ e. refl)
      | inr (src, found) ↦ rw (declare, short, found) (declare_found-Settles want gn name src L)
    ]
  ]

pub no_place : (p : Option ℕ) → not (is_place p) ≡ true → p ≡ none
no_place none e = refl
no_place (some i) e = absurd (cc)

module _ (fl : FloatOps) where
  open fl use {F}

  module _ (gg : Ggml F) (g : Reader F) (codec : Codec F) where
    bias_of-Settles :
        (has_bias : Bool) (name : Str) (L : Loader F)
        → (has_bias && not (is_place (bias_of fl gg g codec has_bias name L).0)) ≡ true
        → HasFailed gg g (bias_of fl gg g codec has_bias name L).1
    unfolding bias_of f32_weight
    bias_of-Settles false name L e = absurd (cc)
    bias_of-Settles true name L e = declare-Settles gg g t_f32 false name L (no_place _ e)

    bias_of-HasFailed :
        (has_bias : Bool) (name : Str) (L : Loader F)
        → HasFailed gg g L
        → HasFailed gg g (bias_of fl gg g codec has_bias name L).1
    unfolding bias_of f32_weight
    bias_of-HasFailed false name L h = h
    bias_of-HasFailed true name L h = declare-HasFailed gg g t_f32 true false name L h

    -- Where a tensor of the site is missing, the loader has failed.
    declare_site-HasFailed :
        (has_bias : Bool) (site : Str) (L : Loader F)
        → parts_missing fl has_bias (declare_site fl gg g codec has_bias site L).0 ≡ true
        → HasFailed gg g (declare_site fl gg g codec has_bias site L).1
    unfolding declare_site parts_missing typed f32_weight opt_typed
    declare_site-HasFailed has_bias site L e =
        let w = typed gg g t_i8 (part site (bytes_of ".weight")) L in
        let s = f32_weight gg g (part site (bytes_of ".wscale")) w.1 in
        let a = opt_typed gg g t_f32 (part site (bytes_of ".ascale")) s.1 in
        let bias = part site (bytes_of ".bias") in
        let after_s = λ (h : HasFailed gg g s.1).
          bias_of-HasFailed has_bias bias a.1 (declare-HasFailed gg g t_f32 false false _ s.1 h) in
        elim (Option-cases w.0) [
          | inl no_w ↦ after_s (
              declare-HasFailed gg g t_f32 true false _ w.1
                (declare-Settles gg g t_i8 false _ L no_w))
          | inr (i, got_w) ↦ elim (Option-cases s.0) [
            | inl no_s ↦ after_s (declare-Settles gg g t_f32 false _ w.1 no_s)
            | inr (j, got_s) ↦
                bias_of-Settles has_bias bias a.1 (rw (parts_missing, got_w, got_s) at e)
          ]
        ]

    -- A site that can be run: its tensors, and parameters that fit.
    pub record IsSite (has_bias : Bool) (r : FqLinear F) : Type 0 where
      pub w : ℕ
      pub w_is : r.w ≡ some w
      pub wscale : ℕ
      pub wscale_is : r.wscale ≡ some wscale
      pub bias_there : has_bias ≡ true → is_place r.bias ≡ true
      pub specs : Specs F
      pub specs_is : r.specs ≡ some specs
      pub specs_fit : Fits specs

    place_there : (p : Option ℕ) → not (is_place p) ≡ false → (i : ℕ) × (p ≡ some i)
    place_there none e = absurd (cc)
    place_there (some i) e = (i, refl)

    -- A site that fill_specs refuses leaves the loader failed.
    pub fill_site-IsSite :
        (mod_ : FqModuleSpec F) (site_key : String) (eps : F) (gamma : Option Shape)
        (has_bias : Bool) (r : FqLinear F) (L : Loader F) (a : ℕ)
        → mod_.rot_block ≡ pos (2 ^ a)
        → parts_missing fl has_bias r ≡ false
        → HasFailed gg g (fill_site fl gg g codec mod_ site_key eps gamma r L).1
          ⊎ IsSite has_bias (fill_site fl gg g codec mod_ site_key eps gamma r L).0
    unfolding fill_site parts_missing
    fill_site-IsSite mod_ site_key eps gamma has_bias r L a nominal parts =
        let tensors : Tensors = record {
          w = shape_at fl gg g codec L r.w;
          wscale = shape_at fl gg g codec L r.wscale;
          ascale = shape_if fl gg g codec L r.ascale;
          gamma = gamma;
        } in
        let (i, w_is) = place_there r.w (ground (arith, parts)) in
        let (j, s_is) = place_there r.wscale (ground (arith, parts)) in
        elim (Result-cases (fill_specs fl mod_ site_key eps tensors)) [
          | inl (e, refused) ↦ rw (fill_site, refused) (inl refl)
          | inr (specs, filled) ↦
              rw (fill_site, filled)
                (inr (record {
                  w = i;
                  w_is = w_is;
                  wscale = j;
                  wscale_is = s_is;
                  bias_there = λ b. ground (arith, parts, b);
                  specs = specs;
                  specs_is = refl;
                  specs_fit = fill_specs-Fits fl mod_ site_key eps tensors specs a nominal filled;
                }))
        ]

    -- A site whose weight is INT8 codes, where the kernels are used and the module's nominal rotation block
    -- is a power of two, is declared with its tensors and with parameters that fit, the block again a power
    -- of two, or the loader has failed: the site is never left out silently.
    pub fq_declare_linear-IsSite :
        (mod_ : FqModuleSpec F) (site_key : String) (has_bias : Bool) (gamma : Option Shape)
        (eps : F) (site : Str) (meta : Tensor) (L : Loader F) (a : ℕ)
        → mod_.rot_block ≡ pos (2 ^ a)
        → g.tensor (part site (bytes_of ".weight")) ≡ some meta
        → has_codes fl gg g codec (some meta) ≡ true
        → HasFailed gg g
            (fq_declare_linear fl gg g codec false mod_ site_key has_bias gamma eps site L).1
          ⊎ IsSite has_bias
              (fq_declare_linear fl gg g codec false mod_ site_key has_bias gamma eps site L).0
    unfolding fq_declare_linear declare_codes
    fq_declare_linear-IsSite mod_ site_key has_bias gamma eps site meta L a nominal there codes =
        let r = declare_site fl gg g codec has_bias site L in
        elim (Bool-cases (leb 256 (length site))) [
          | inl long ↦ rw (fq_declare_linear, long) (inl refl)
          | inr short ↦ elim (Bool-cases (parts_missing fl has_bias r.0)) [
            | inl missing ↦
                rw (fq_declare_linear, short, there, codes, missing)
                  (inl (declare_site-HasFailed has_bias site L missing))
            | inr found ↦
                rw (fq_declare_linear, short, there, codes, found)
                  (fill_site-IsSite mod_ site_key eps gamma has_bias r.0 r.1 a nominal found)
          ]
        ]
