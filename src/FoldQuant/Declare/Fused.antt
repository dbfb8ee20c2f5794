-- ===== src/FoldQuant/Declare/Fused.antt =====
-- Several FoldQuant sites as one: fq_declare_fused of src/foldquant.cpp. Whether two floats are equal, as
-- C++ compares them, is a parameter.
use Prim.Native.String.{String}
use vla_cpp.Common.{
  ℕ, Bool, true, false, not, ◌&&◌, ◌||◌, Option, none, some, List, [], ◌∷◌, map, if◌then◌else◌,
}
use vla_cpp.Common.Text.{bytes_of}
use vla_cpp.HfFetch.Names.{Str}
use vla_cpp.FoldQuant.Floats.{FloatOps}
use vla_cpp.FoldQuant.Widths.{FqModuleSpec}
use vla_cpp.FoldQuant.Site.{Shape}
use vla_cpp.FoldQuant.Dequant.{part, is_there, register_dequant}
use vla_cpp.FoldQuant.Declare.{FqLinear, no_linear, parts_missing, fill_site, has_codes}
use vla_cpp.Gguf.{Reader, Codec, t_i8, t_f32, read_f32}
use vla_cpp.Loader.{Ggml, Loader, fail, typed}
use vla_cpp.Loader.Fuse.{fuse_typed, fuse_f32}

-- Which of the sites are INT8 codes.
pub data Group : Type 0 where
  all_codes : Group
  first_float : Group
  mixed : Group

module _ (fl : FloatOps) where
  open fl use {F}

  -- `v0 == vi` of two vectors.
  unfoldable pub same_floats : (F → F → Bool) → List F → List F → Bool
  same_floats eq [] [] = true
  same_floats eq [] (y ∷ ys) = false
  same_floats eq (x ∷ xs) [] = false
  same_floats eq (x ∷ xs) (y ∷ ys) = eq x y && same_floats eq xs ys

  unfoldable pub no_floats : List F → Bool
  no_floats [] = true
  no_floats (x ∷ xs) = false

  module _ (gg : Ggml F) (g : Reader F) (codec : Codec F) where
    -- The loop over the sites; the flag is true for the first.
    unfoldable pub group_of : Bool → List Str → Group
    unfolding has_codes part
    group_of is_first [] = all_codes
    group_of is_first (s ∷ sites) =
        let rest = group_of false sites in
        if has_codes fl gg g codec (g.tensor (part s (bytes_of ".weight")))
        then rest
        else (if is_first then first_float else mixed)

    -- Until one fails. The callers have found the weights.
    unfoldable pub register_all : FqModuleSpec F → String → List Str → Loader F → Loader F
    unfolding register_dequant part
    register_all mod_ site_key [] L = L
    register_all mod_ site_key (s ∷ sites) L = elim (g.tensor (part s (bytes_of ".weight"))) [
      | none ↦ L
      | some meta ↦
          let (good, L') = register_dequant fl gg g codec mod_ site_key s meta L in
          let rest = register_all mod_ site_key sites L' in if good then rest else L'
    ]

    -- A site's activation scales differ from those of `a0`, or only one of the two has any.
    unfoldable pub scales_differ : (F → F → Bool) → Str → Str → Bool
    unfolding is_there read_f32 same_floats no_floats
    scales_differ eq a0 ai =
        let has_a0 = is_there fl gg g codec (g.tensor a0) in
        let has_ai = is_there fl gg g codec (g.tensor ai) in
        let v0 = read_f32 g codec a0 in
        (has_a0 && not has_ai)
        || (has_ai && not has_a0)
        || (has_a0 && (no_floats v0 || not (same_floats eq v0 (read_f32 g codec ai))))

    unfoldable pub any_differs : (F → F → Bool) → Str → List Str → Bool
    unfolding scales_differ part
    any_differs eq a0 [] = false
    any_differs eq a0 (s ∷ sites) =
        scales_differ eq a0 (part s (bytes_of ".ascale")) || any_differs eq a0 sites

    unfoldable pub fused_bias : Bool → Str → List Str → Loader F → Option ℕ × Loader F
    unfolding fuse_f32
    fused_bias false name srcs L = (none, L)
    fused_bias true name srcs L = fuse_f32 gg g name srcs L

    -- The three tensors, before the activation scales.
    unfoldable pub fuse_site : Bool → Str → List Str → Loader F → FqLinear F × Loader F
    unfolding fuse_typed fuse_f32 fused_bias part
    fuse_site has_bias out sites L =
        let (w, L1) =
          fuse_typed gg g t_i8 (part out (bytes_of ".w"))
            (map (λ s. part s (bytes_of ".weight")) sites) L in
        let (s, L2) =
          fuse_f32 gg g (part out (bytes_of ".wscale"))
            (map (λ s. part s (bytes_of ".wscale")) sites) L1 in
        let (b, L3) =
          fused_bias has_bias (part out (bytes_of ".b"))
            (map (λ s. part s (bytes_of ".bias")) sites) L2 in
        (record { w = w; wscale = s; ascale = none; bias = b; gamma = none; specs = none }, L3)

    unfoldable pub shared_scale : Str → Loader F → Option ℕ × Loader F
    unfolding is_there typed
    shared_scale a0 L =
        if is_there fl gg g codec (g.tensor a0) then typed gg g t_f32 a0 L else (none, L)

    unfoldable pub finish_fused :
        (F → F → Bool)
        → FqModuleSpec F
        → String
        → Bool
        → Str
        → List Str
        → Option Shape
        → F
        → FqLinear F
        → Loader F
        → FqLinear F × Loader F
    unfolding parts_missing any_differs fail shared_scale fill_site
    finish_fused eq mod_ site_key has_bias a0 others gamma eps r L =
        if parts_missing fl has_bias r
        then (record r { w = none }, L)
        else (if any_differs eq a0 others
            then (record r { w = none }, (fail L).1)
            else (let (a, L4) = shared_scale a0 L in
                fill_site fl gg g codec mod_ site_key eps gamma (record r { ascale = a }) L4))

    -- `dequant` is the module's flag.
    unfoldable pub fq_declare_fused :
        (F → F → Bool)
        → Bool
        → FqModuleSpec F
        → String
        → Bool
        → Str
        → List Str
        → Option Shape
        → F
        → Loader F
        → FqLinear F × Loader F
    unfolding group_of register_all fuse_site finish_fused fail part
    fq_declare_fused eq dequant mod_ site_key has_bias out [] gamma eps L = (no_linear, L)
    fq_declare_fused eq dequant mod_ site_key has_bias out (s ∷ sites) gamma eps L =
        elim (group_of true (s ∷ sites)) [
          | first_float ↦ (no_linear, L)
          | mixed ↦ (no_linear, (fail L).1)
          | all_codes ↦
              if dequant
              then (no_linear, register_all mod_ site_key (s ∷ sites) L)
              else (let (r, L3) = fuse_site has_bias out (s ∷ sites) L in
                  finish_fused eq mod_ site_key has_bias (part s (bytes_of ".ascale")) sites gamma
                    eps r L3)
        ]
