-- ===== src/FoldQuant/Dequant.antt =====
-- The float rebuild of a FoldQuant site: fq_dequant_rows and register_dequant of src/foldquant.cpp.
pub mod Values
pub mod Rebuilt
mod Tests
use Prim.Native.String.{String}
use vla_cpp.Common.{
  ℕ, zero, suc, ◌+◌, ◌*◌, ◌/◌, ◌%◌, Bool, true, false, not, ◌&&◌, ◌||◌, Option, none, some, List,
  [], ◌∷◌, ◌++◌, length, map, take, drop, get_or, ltb, ◌==◌, if◌then◌else◌,
}
use vla_cpp.Common.Int.{ℤ, pos}
use vla_cpp.Common.Text.{bytes_of}
use vla_cpp.HfFetch.Names.{Str}
use vla_cpp.FoldQuant.Floats.{FloatOps}
use vla_cpp.FoldQuant.Pack.{int8_of, unpack_nibbles}
use vla_cpp.FoldQuant.Rotate.{fq_rot_block_for, fwht_row}
use vla_cpp.FoldQuant.Widths.{FqModuleSpec, wbits_for}
use vla_cpp.FoldQuant.Site.{is_width}
use vla_cpp.Gguf.{Reader, Codec, t_i8, Tensor, read_convert, read_f32}
use vla_cpp.Loader.{Ggml, Loader, as_float, fail}

-- The first `n` values of a row.
unfoldable pub tabulate : {F : Type 0} → (ℕ → F) → ℕ → ℕ → List F
tabulate f zero k = []
tabulate f (suc n) k = f k ∷ tabulate f n (suc k)

unfoldable pub fq_w_kpack : ℕ → ℕ → ℕ
fq_w_kpack K wbits = if wbits == 4 then K / 2 else K

-- A name of three parts of a site.
unfoldable pub part : Str → Str → Str
part site suffix = site ++ suffix

module _ (fl : FloatOps) where
  open fl use {F, zero_f, one_f, mul, div, of_int, inv_sqrt}

  -- `w[k] = w[k] / ascale[k]`, if there is one and the fold is on this side of the rotation.
  unfoldable pub fold : Bool → Option (List F) → (ℕ → F) → ℕ → F
  fold here none w = w
  fold here (some as_) w = if here then (λ k. div (w k) (get_or as_ k one_f)) else w

  unfoldable pub dequant_row : ℕ → ℕ → Bool → Option (List F) → List ℤ → F → List F
  unfolding fold fwht_row tabulate
  dequant_row K rot_block fold_before as_ q ws =
      let w = fold (not fold_before) as_ (λ k. mul (of_int (get_or q k (pos 0))) ws) in
      let turned =
        if ltb 1 rot_block then fwht_row fl K 0 K rot_block (inv_sqrt rot_block) w else w in
      tabulate (fold fold_before as_ turned) K 0

  -- The rows that are left; the codes and the scales that are left.
  unfoldable pub fq_dequant_rows : ℕ → ℕ → ℕ → Bool → Option (List F) → ℕ → Str → List F → List F
  unfolding dequant_row fq_w_kpack unpack_nibbles int8_of
  fq_dequant_rows K wbits rot_block fold_before as_ zero codes wscale = []
  fq_dequant_rows K wbits rot_block fold_before as_ (suc left) codes wscale =
      let row = take (fq_w_kpack K wbits) codes in
      let q = if wbits == 4 then unpack_nibbles row else map int8_of row in
      dequant_row K rot_block fold_before as_ q (get_or wscale 0 zero_f)
      ++ fq_dequant_rows K wbits rot_block fold_before as_ left (drop (fq_w_kpack K wbits) codes)
          (drop 1 wscale)

  module _ (gg : Ggml F) (g : Reader F) (codec : Codec F) where
    -- The scales of the activations, of a site that has them.
    unfoldable pub ascale_of : Bool → Str → Option (List F)
    unfolding read_f32
    ascale_of false aname = none
    ascale_of true aname = some (read_f32 g codec aname)

    unfoldable pub wrong_ascale : ℕ → Option (List F) → Bool
    wrong_ascale K none = false
    wrong_ascale K (some as_) = not (length as_ == K)

    -- What the maker gives at the upload.
    unfoldable pub make_floats : Str → Bool → ℕ → ℕ → ℕ → ℕ → Bool → Option (List F)
    unfolding part read_convert read_f32 ascale_of wrong_ascale fq_dequant_rows fq_w_kpack
    make_floats site has_a K N wbits rot before =
        let codes = read_convert g codec (part site (bytes_of ".weight")) t_i8 false in
        let ws = read_f32 g codec (part site (bytes_of ".wscale")) in
        let as_ = ascale_of has_a (part site (bytes_of ".ascale")) in
        if not (length codes == fq_w_kpack K wbits * N)
          || not (length ws == N)
          || wrong_ascale K as_
        then none
        else some (fq_dequant_rows K wbits rot before as_ N codes ws)

    -- A tensor of the file whose first dimension is not `n`, if it is there.
    unfoldable pub has_other_width : ℕ → Option Tensor → Bool
    has_other_width n none = false
    has_other_width n (some t) = not (t.ne0 == n)

    unfoldable pub is_there : Option Tensor → Bool
    is_there none = false
    is_there (some t) = true

    unfoldable pub site_width : ℕ → Tensor → ℕ
    site_width wbits meta = if wbits == 4 then 2 * meta.ne0 else meta.ne0

    unfoldable pub is_malformed : ℕ → ℕ → Tensor → Option Tensor → Option Tensor → Bool
    unfolding has_other_width is_there
    is_malformed K N meta sm am =
        not (gg.n_dims meta == 2)
        || not (K % 64 == 0)
        || not (is_there sm)
        || has_other_width N sm
        || has_other_width K am

    -- `meta` is the site's weight, which the callers have found.
    unfoldable pub register_dequant :
        FqModuleSpec F → String → Str → Tensor → Loader F → Bool × Loader F
    unfolding wbits_for site_width is_malformed is_there make_floats as_float fail part
        fq_rot_block_for
    register_dequant mod_ site_key site meta L =
        let wbits = wbits_for mod_ site_key in
        let K = site_width wbits meta in
        let am = g.tensor (part site (bytes_of ".ascale")) in
        if not (is_width wbits)
        then (false, (fail L).1)
        else (if is_malformed K meta.ne1 meta (g.tensor (part site (bytes_of ".wscale"))) am
            then (false, (fail L).1)
            else (
              true,
              as_float (part site (bytes_of ".weight")) K meta.ne1
                  (make_floats site (is_there am) K meta.ne1 wbits
                    (fq_rot_block_for K mod_.rot_block) mod_.fold_before)
                  L,
            ))
