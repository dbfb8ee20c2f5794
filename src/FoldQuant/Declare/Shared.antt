-- ===== src/FoldQuant/Declare/Shared.antt =====
-- What a group of sites becomes when it is declared as one: src/foldquant.cpp with src/loader.cpp.
use Prim.Native.String.{String}
use vla_cpp.Common.{
  ℕ, ◌^◌, ◌≡◌, ◌⊎◌, refl, sym, inl, inr, Bool, true, false, not, ◌&&◌, Option, none, some, List, [],
  ◌∷◌, map, All, Bool-cases, Option-cases, arith,
}
use mathlib.Core.Option.{none-ne-some}
use vla_cpp.Common.Int.{pos}
use vla_cpp.Common.Text.{bytes_of}
use vla_cpp.HfFetch.Names.{Str}
use vla_cpp.FoldQuant.Floats.{FloatOps}
use vla_cpp.FoldQuant.Widths.{FqModuleSpec}
use vla_cpp.FoldQuant.Site.{Shape}
use vla_cpp.FoldQuant.Dequant.{part, is_there}
use vla_cpp.Gguf.{Reader, Codec, TensorType, t_i8, t_f32, read_f32}
use vla_cpp.Loader.{Made, Ggml, Loader}
use vla_cpp.Loader.Fuse.{fuse, fuse_rows, view, push_fused, fuse_typed, fuse_f32}
use vla_cpp.Loader.Kept.{HasFailed, fuse-HasFailed}
use vla_cpp.FoldQuant.Declare.{FqLinear, is_place, parts_missing}
use vla_cpp.FoldQuant.Declare.Settled.{
  Settles, new_tensor-Settles, no_place, IsSite, fill_site-IsSite,
}
use vla_cpp.FoldQuant.Declare.Fused.{
  all_codes, same_floats, group_of, scales_differ, any_differs, fused_bias, fuse_site, shared_scale,
  finish_fused, fq_declare_fused,
}

module _ {F : Type 0} (gg : Ggml F) (g : Reader F) where
  push_fused-Settles :
      (m : Made) (srcs : List Str) (r : Option ℕ × Loader F)
      → Settles gg g r
      → Settles gg g (push_fused gg g m srcs r)
  unfolding push_fused
  push_fused-Settles m srcs (none, L) h e = h refl
  push_fused-Settles m srcs (some t, L) h e = absurd (none-ne-some t (sym e))

  -- A fused tensor is declared, or the loader has failed.
  fuse-Settles :
      (want : TensorType) (out : Str) (srcs : List Str) (L : Loader F)
      → Settles gg g (fuse gg g want out srcs L)
  unfolding fuse
  fuse-Settles want out [] L = λ e. refl
  fuse-Settles want out (s ∷ srcs) L = elim (Option-cases (g.tensor s)) [
    | inl missing ↦ rw (fuse, missing) (λ e. refl)
    | inr (first, found) ↦
        elim (Option-cases (fuse_rows gg g want (view gg g want s first L) (s ∷ srcs) L 0)) [
          | inl bad ↦ rw (fuse, found, bad) (λ e. refl)
          | inr (rows, good) ↦
              rw (fuse, found, good)
                (push_fused-Settles _ (s ∷ srcs) _ (new_tensor-Settles gg g _ L))
        ]
  ]

module _ (fl : FloatOps) where
  open fl use {F}

  module _ (gg : Ggml F) (g : Reader F) (codec : Codec F) where
    fused_bias-Settles :
        (has_bias : Bool) (name : Str) (srcs : List Str) (L : Loader F)
        → (has_bias && not (is_place (fused_bias fl gg g codec has_bias name srcs L).0)) ≡ true
        → HasFailed gg g (fused_bias fl gg g codec has_bias name srcs L).1
    unfolding fused_bias fuse_f32
    fused_bias-Settles false name srcs L e = absurd (cc)
    fused_bias-Settles true name srcs L e = fuse-Settles gg g t_f32 name srcs L (no_place _ e)

    fused_bias-HasFailed :
        (has_bias : Bool) (name : Str) (srcs : List Str) (L : Loader F)
        → HasFailed gg g L
        → HasFailed gg g (fused_bias fl gg g codec has_bias name srcs L).1
    unfolding fused_bias fuse_f32
    fused_bias-HasFailed false name srcs L h = h
    fused_bias-HasFailed true name srcs L h = fuse-HasFailed gg g t_f32 name srcs L h

    fuse_site-HasFailed :
        (has_bias : Bool) (out : Str) (sites : List Str) (L : Loader F)
        → parts_missing fl has_bias (fuse_site fl gg g codec has_bias out sites L).0 ≡ true
        → HasFailed gg g (fuse_site fl gg g codec has_bias out sites L).1
    unfolding fuse_site parts_missing fuse_typed fuse_f32
    fuse_site-HasFailed has_bias out sites L e =
        let weights = map (λ s. part s (bytes_of ".weight")) sites in
        let scales = map (λ s. part s (bytes_of ".wscale")) sites in
        let biases = map (λ s. part s (bytes_of ".bias")) sites in
        let w = fuse_typed gg g t_i8 (part out (bytes_of ".w")) weights L in
        let s = fuse_f32 gg g (part out (bytes_of ".wscale")) scales w.1 in
        let bias = part out (bytes_of ".b") in
        elim (Option-cases w.0) [
          | inl no_w ↦
              fused_bias-HasFailed has_bias bias biases s.1
                (fuse-HasFailed gg g t_f32 _ scales w.1 (fuse-Settles gg g t_i8 _ weights L no_w))
          | inr (i, got_w) ↦ elim (Option-cases s.0) [
            | inl no_s ↦
                fused_bias-HasFailed has_bias bias biases s.1
                  (fuse-Settles gg g t_f32 _ scales w.1 no_s)
            | inr (j, got_s) ↦
                fused_bias-Settles has_bias bias biases s.1 (rw (parts_missing, got_w, got_s) at e)
          ]
        ]

    -- Two sites have the same activation scales, or neither has any.
    abbrev pub Agree : (F → F → Bool) → Str → Str → Type 0
    Agree eq s t =
        (is_there fl gg g codec (g.tensor (part s (bytes_of ".ascale")))
          ≡ is_there fl gg g codec (g.tensor (part t (bytes_of ".ascale"))))
        × (is_there fl gg g codec (g.tensor (part s (bytes_of ".ascale"))) ≡ true
            → same_floats fl eq (read_f32 g codec (part s (bytes_of ".ascale")))
                (read_f32 g codec (part t (bytes_of ".ascale")))
              ≡ true)

    both_or_none : (a b : Bool) → (a && not b) ≡ false → (b && not a) ≡ false → a ≡ b
    both_or_none true true p q = refl
    both_or_none true false p q = absurd (cc)
    both_or_none false true p q = absurd (cc)
    both_or_none false false p q = refl

    scales_differ-Agree :
        (eq : F → F → Bool) (s t : Str)
        → scales_differ fl gg g codec eq (part s (bytes_of ".ascale")) (part t (bytes_of ".ascale"))
          ≡ false
        → Agree eq s t
    unfolding scales_differ
    scales_differ-Agree eq s t e = (
      both_or_none _ _ (ground (arith, e)) (ground (arith, e)),
      λ there. ground (arith, e, there),
    )

    any_differs-All :
        (eq : F → F → Bool) (s : Str) (sites : List Str)
        → any_differs fl gg g codec eq (part s (bytes_of ".ascale")) sites ≡ false
        → All (Agree eq s) sites
    unfolding any_differs
    any_differs-All eq s [] e = tt
    any_differs-All eq s (t ∷ sites) e = (
      scales_differ-Agree eq s t (ground (arith, e)),
      any_differs-All eq s sites (ground (arith, e)),
    )

    -- A group as one site, whose inputs are scaled alike.
    pub record IsShared (eq : F → F → Bool) (has_bias : Bool) (s : Str) (sites : List Str)
        (r : FqLinear F) : Type 0 where
      pub site : IsSite fl gg g codec has_bias r
      pub scales_agree : All (Agree eq s) sites

    finish_fused-IsShared :
        (eq : F → F → Bool) (mod_ : FqModuleSpec F) (site_key : String) (has_bias : Bool) (s : Str)
        (sites : List Str) (gamma : Option Shape) (eps : F) (r : FqLinear F) (L : Loader F) (a : ℕ)
        → mod_.rot_block ≡ pos (2 ^ a)
        → (parts_missing fl has_bias r ≡ true → HasFailed gg g L)
        → HasFailed gg g
            (finish_fused fl gg g codec eq mod_ site_key has_bias
              (part s (bytes_of ".ascale"))
              sites
              gamma
              eps
              r
              L).1
          ⊎ IsShared eq has_bias s sites
              (finish_fused fl gg g codec eq mod_ site_key has_bias
                (part s (bytes_of ".ascale"))
                sites
                gamma
                eps
                r
                L).0
    unfolding finish_fused parts_missing
    finish_fused-IsShared eq mod_ site_key has_bias s sites gamma eps r L a nominal h =
        let a0 = part s (bytes_of ".ascale") in
        let scale = shared_scale fl gg g codec a0 L in
        elim (Bool-cases (parts_missing fl has_bias r)) [
          | inl missing ↦ rw (finish_fused, missing) (inl (h missing))
          | inr found ↦ elim (Bool-cases (any_differs fl gg g codec eq a0 sites)) [
            | inl differ ↦ rw (finish_fused, found, differ) (inl refl)
            | inr same ↦
                rw (finish_fused, found, same)
                  (elim (fill_site-IsSite fl gg g codec mod_ site_key eps gamma has_bias
                    (record r { ascale = scale.0 }) scale.1 a nominal found) [
                      | inl failed ↦ inl failed
                      | inr site ↦
                          inr
                            (record { site = site; scales_agree = any_differs-All eq s sites same })
                    ])
          ]
        ]

    -- A group of sites whose weights are all INT8 codes, where the kernels are used and the module's nominal
    -- rotation block is a power of two, is declared as one site with parameters that fit, and its sites
    -- agree on the scales of the input, or the loader has failed.
    pub fq_declare_fused-IsShared :
        (eq : F → F → Bool) (mod_ : FqModuleSpec F) (site_key : String) (has_bias : Bool)
        (out s : Str) (sites : List Str) (gamma : Option Shape) (eps : F) (L : Loader F) (a : ℕ)
        → mod_.rot_block ≡ pos (2 ^ a)
        → group_of fl gg g codec true (s ∷ sites) ≡ all_codes
        → HasFailed gg g
            (fq_declare_fused fl gg g codec eq false mod_ site_key has_bias out
              (s ∷ sites)
              gamma
              eps
              L).1
          ⊎ IsShared eq has_bias s sites
              (fq_declare_fused fl gg g codec eq false mod_ site_key has_bias out
                (s ∷ sites)
                gamma
                eps
                L).0
    unfolding fq_declare_fused
    fq_declare_fused-IsShared eq mod_ site_key has_bias out s sites gamma eps L a nominal codes =
        let r = fuse_site fl gg g codec has_bias out (s ∷ sites) L in
        rw (fq_declare_fused, codes)
          (finish_fused-IsShared eq mod_ site_key has_bias s sites gamma eps r.0 r.1 a nominal
            (fuse_site-HasFailed has_bias out (s ∷ sites) L))
