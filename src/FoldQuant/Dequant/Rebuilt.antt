-- ===== src/FoldQuant/Dequant/Rebuilt.antt =====
-- What a site that is read back as floats gives to the loader: src/foldquant.cpp with src/loader.cpp.
use Prim.Native.String.{String}
use vla_cpp.Common.{
  ℕ, zero, suc, ◌+◌, ◌*◌, ◌%◌, ◌^◌, ◌<◌, ◌≡◌, get_or, refl, sym, ap, ◌∙◌, inl, inr, Bool, true,
  false, not, ◌||◌, Option, none, some, List, [], ◌∷◌, ◌++◌, length, length-append, take, drop,
  replicate, leb, ◌==◌, ==_iff, Bool-cases, arith,
}
use mathlib.Core.Option.{some-injective, none-ne-some}
use mathlib.Core.Path.{subst}
use vla_cpp.Common.Int.{ℤ, pos}
use vla_cpp.Common.Text.{bytes_of}
use vla_cpp.HfFetch.Names.{Str}
use vla_cpp.HfFetch.Names.Match.{str_eq}
use vla_cpp.FoldQuant.Floats.{FloatOps}
use vla_cpp.FoldQuant.Rotate.{fq_rot_block_for}
use vla_cpp.FoldQuant.Widths.{FqModuleSpec, wbits_for}
use vla_cpp.FoldQuant.Site.{is_width}
use vla_cpp.Gguf.{Reader, Codec, TensorType, t_i8, Tensor, read_convert, read_f32}
use vla_cpp.Loader.{
  Ggml, Loader, find, same_type, float_type, as_float, new_tensor, name_cap, declare_float,
  declare_found, declare,
}
use vla_cpp.Loader.Upload.{read_rebuilt, read_resident}
use vla_cpp.FoldQuant.Rotate.Block.{IsLargest, fq_rot_block_for-IsLargest}
use vla_cpp.FoldQuant.Dequant.Values.{weight_row, fq_dequant_rows-weight_row}
use vla_cpp.FoldQuant.Dequant.{
  tabulate, dequant_row, fq_dequant_rows, fq_w_kpack, part, ascale_of, wrong_ascale, make_floats,
  site_width, is_malformed, is_there, register_dequant,
}

length-tabulate : {F : Type 0} (f : ℕ → F) (n k : ℕ) → length (tabulate f n k) ≡ n
unfolding tabulate
length-tabulate f zero k = refl
length-tabulate f (suc n) k = ap suc (length-tabulate f n (suc k))

str_eq_self : (s : Str) → str_eq s s ≡ true
unfolding str_eq
str_eq_self [] = refl
str_eq_self (c ∷ s) = ground (arith, str_eq_self s)

module _ (fl : FloatOps) where
  open fl use {F, zero_f}

  length-dequant_row :
      (K rot : ℕ) (before : Bool) (as_ : Option (List F)) (q : List ℤ) (ws : F)
      → length (dequant_row fl K rot before as_ q ws) ≡ K
  unfolding dequant_row
  length-dequant_row K rot before as_ q ws = length-tabulate _ K 0

  length-fq_dequant_rows :
      (K wbits rot : ℕ) (before : Bool) (as_ : Option (List F)) (n : ℕ) (codes : Str) (ws : List F)
      → length (fq_dequant_rows fl K wbits rot before as_ n codes ws) ≡ K * n
  unfolding fq_dequant_rows
  length-fq_dequant_rows K wbits rot before as_ zero codes ws = omega arith
  length-fq_dequant_rows K wbits rot before as_ (suc n) codes ws =
      let rest =
        length-fq_dequant_rows K wbits rot before as_ n (drop (fq_w_kpack K wbits) codes)
          (drop 1 ws) in
      length-append (dequant_row fl K rot before as_ _ _)
        (fq_dequant_rows fl K wbits rot before as_ n (drop (fq_w_kpack K wbits) codes) (drop 1 ws))
      ∙ grind (arith, rest, length-dequant_row K rot before as_)

  module _ (gg : Ggml F) (g : Reader F) (codec : Codec F) where
    length-make_floats :
        (site : Str) (has_a : Bool) (K N wbits rot : ℕ) (before : Bool) (f : List F)
        → make_floats fl gg g codec site has_a K N wbits rot before ≡ some f
        → length f ≡ K * N
    unfolding make_floats
    length-make_floats site has_a K N wbits rot before f e =
        let codes = read_convert g codec (part site (bytes_of ".weight")) t_i8 false in
        let ws = read_f32 g codec (part site (bytes_of ".wscale")) in
        let as_ = ascale_of fl gg g codec has_a (part site (bytes_of ".ascale")) in
        elim (Bool-cases (
          not (length codes == fq_w_kpack K wbits * N)
          || not (length ws == N)
          || wrong_ascale fl gg g codec K as_)) [
            | inl wrong ↦ absurd (none-ne-some f (rw (make_floats, wrong) at e))
            | inr right ↦
                let given : fq_dequant_rows fl K wbits rot before as_ N codes ws ≡ f =
                  some-injective _ _ (rw (make_floats, right) at e) in
                sym (ap length given) ∙ length-fq_dequant_rows K wbits rot before as_ N codes ws
          ]

    make_floats-weight_row :
        (site : Str) (has_a : Bool) (K N wbits rot : ℕ) (before : Bool) (f : List F)
        → K % 2 ≡ 0
        → make_floats fl gg g codec site has_a K N wbits rot before ≡ some f
        → (n k : ℕ) → n < N
        → k < K
        → get_or f (n * K + k) zero_f
          ≡ weight_row fl K wbits rot before
              (ascale_of fl gg g codec has_a (part site (bytes_of ".ascale")))
              (read_convert g codec (part site (bytes_of ".weight")) t_i8 false)
              (read_f32 g codec (part site (bytes_of ".wscale")))
              n
              k
    unfolding make_floats
    make_floats-weight_row site has_a K N wbits rot before f even e n k h i =
        let codes = read_convert g codec (part site (bytes_of ".weight")) t_i8 false in
        let ws = read_f32 g codec (part site (bytes_of ".wscale")) in
        let as_ = ascale_of fl gg g codec has_a (part site (bytes_of ".ascale")) in
        elim (Bool-cases (
          not (length codes == fq_w_kpack K wbits * N)
          || not (length ws == N)
          || wrong_ascale fl gg g codec K as_)) [
            | inl wrong ↦ absurd (none-ne-some f (rw (make_floats, wrong) at e))
            | inr right ↦
                let given : fq_dequant_rows fl K wbits rot before as_ N codes ws ≡ f =
                  some-injective _ _ (rw (make_floats, right) at e) in
                let whole : length codes ≡ fq_w_kpack K wbits * N = ground (arith, right) in
                ap (λ l. get_or l (n * K + k) zero_f) (sym given)
                ∙ fq_dequant_rows-weight_row fl K wbits rot before as_ N codes ws n k even whole h i
          ]

    -- The bytes of a tensor of `N` rows of `K` floats.
    abbrev pub rebuilt_bytes : TensorType → ℕ → ℕ → Option (List F) → Option Str
    rebuilt_bytes type_ K N none = none
    rebuilt_bytes type_ K N (some f) =
        let size = gg.row_size type_ K * N in
        some (take size (gg.quantize type_ f N K ++ replicate size 0))

    read_rebuilt-rebuilt_bytes :
        (type_ : TensorType) (K N : ℕ) (make : Option (List F))
        → ((f : List F) → make ≡ some f → length f ≡ K * N)
        → read_rebuilt gg g codec type_ (record { K = K; N = N; make = make })
          ≡ rebuilt_bytes type_ K N make
    unfolding read_rebuilt
    read_rebuilt-rebuilt_bytes type_ K N none h = refl
    read_rebuilt-rebuilt_bytes type_ K N (some f) h =
        let same : (length f == K * N) ≡ true = (==_iff _ _).1 (h f refl) in rw same refl

    -- The floats of a site, as its entries say, or none where the file's counts do not agree.
    unfoldable pub rebuilt_floats : FqModuleSpec F → String → Str → Tensor → Option (List F)
    unfolding make_floats site_width wbits_for fq_rot_block_for is_there
    rebuilt_floats mod_ site_key site meta =
        let wbits = wbits_for mod_ site_key in
        make_floats fl gg g codec site
          (is_there fl gg g codec (g.tensor (part site (bytes_of ".ascale"))))
          (site_width fl gg g codec wbits meta) meta.ne1 wbits
          (fq_rot_block_for (site_width fl gg g codec wbits meta) mod_.rot_block) mod_.fold_before

    length-rebuilt_floats :
        (mod_ : FqModuleSpec F) (site_key : String) (site : Str) (meta : Tensor) (f : List F)
        → rebuilt_floats mod_ site_key site meta ≡ some f
        → length f ≡ site_width fl gg g codec (wbits_for mod_ site_key) meta * meta.ne1
    unfolding rebuilt_floats
    length-rebuilt_floats mod_ site_key site meta f e = length-make_floats _ _ _ _ _ _ _ f e

    registered :
        (mod_ : FqModuleSpec F) (site_key : String) (site : Str) (meta : Tensor) (L : Loader F)
        → (register_dequant fl gg g codec mod_ site_key site meta L).0 ≡ true
        → (register_dequant fl gg g codec mod_ site_key site meta L).1
          ≡ as_float
              (part site (bytes_of ".weight"))
              (site_width fl gg g codec (wbits_for mod_ site_key) meta)
              meta.ne1
              (rebuilt_floats mod_ site_key site meta)
              L
    unfolding register_dequant rebuilt_floats
    registered mod_ site_key site meta L e =
        let wbits = wbits_for mod_ site_key in
        let K = site_width fl gg g codec wbits meta in
        elim (Bool-cases (not (is_width wbits))) [
          | inl wrong ↦ absurd (cc (rw (register_dequant, wrong) at e))
          | inr right ↦
              elim (Bool-cases (
                is_malformed fl gg g codec K meta.ne1 meta
                  (g.tensor (part site (bytes_of ".wscale")))
                  (g.tensor (part site (bytes_of ".ascale"))))) [
                    | inl wrong ↦ absurd (cc (rw (register_dequant, right, wrong) at e))
                    | inr fine ↦ rw (register_dequant, right, fine) refl
                  ]
        ]

    declared :
        (want : TensorType) (gn : Bool) (name : Str) (K N : ℕ) (make : Option (List F))
        (src : Tensor) (L : Loader F)
        → leb name_cap (length name) ≡ false
        → g.tensor name ≡ some src
        → same_type src.type_ t_i8 ≡ true
        → same_type want t_i8 ≡ false
        → declare gg g want true gn name (as_float name K N make L)
          ≡ new_tensor gg
              (record { name = name; type_ = float_type want; ne0 = K; ne1 = N; ne2 = 1; ne3 = 1 })
              (as_float name K N make L)
    unfolding declare declare_found declare_float find as_float
    declared want gn name K N make src L short there codes other =
        rw (short, there, codes, other, str_eq_self name) refl

    read_back :
        (type_ : TensorType) (gn : Bool) (name : Str) (K N : ℕ) (make : Option (List F))
        (L : Loader F)
        → read_resident gg g codec (as_float name K N make L) name type_ gn
          ≡ read_rebuilt gg g codec type_ (record { K = K; N = N; make = make })
    unfolding read_resident find as_float
    read_back type_ gn name K N make L = rw (read_resident, str_eq_self name) refl

    -- After the registration, `L'`: the site is declared as a float tensor of its shape, and its bytes
    -- are those of its floats.
    pub record IsRebuilt (want : TensorType) (mod_ : FqModuleSpec F) (site_key : String)
        (site : Str) (meta : Tensor) (a : ℕ) (L' : Loader F) : Type 0 where
      pub block_is : IsLargest (site_width fl gg g codec (wbits_for mod_ site_key) meta) a (
          fq_rot_block_for (site_width fl gg g codec (wbits_for mod_ site_key) meta) mod_.rot_block)
      pub values_are :
          (f : List F)
          → rebuilt_floats mod_ site_key site meta ≡ some f
          → (n k : ℕ) → n < meta.ne1
          → k < site_width fl gg g codec (wbits_for mod_ site_key) meta
          → get_or f (n * site_width fl gg g codec (wbits_for mod_ site_key) meta + k) zero_f
            ≡ weight_row fl
                (site_width fl gg g codec (wbits_for mod_ site_key) meta)
                (wbits_for mod_ site_key)
                (fq_rot_block_for
                  (site_width fl gg g codec (wbits_for mod_ site_key) meta)
                  mod_.rot_block)
                mod_.fold_before
                (ascale_of fl gg g codec
                  (is_there fl gg g codec (g.tensor (part site (bytes_of ".ascale"))))
                  (part site (bytes_of ".ascale")))
                (read_convert g codec (part site (bytes_of ".weight")) t_i8 false)
                (read_f32 g codec (part site (bytes_of ".wscale")))
                n
                k
      pub declared_is :
          (gn : Bool)
          → declare gg g want true gn (part site (bytes_of ".weight")) L'
            ≡ new_tensor gg
                (record {
                  name = part site (bytes_of ".weight");
                  type_ = float_type want;
                  ne0 = site_width fl gg g codec (wbits_for mod_ site_key) meta;
                  ne1 = meta.ne1;
                  ne2 = 1;
                  ne3 = 1;
                })
                L'
      pub read_is :
          (type_ : TensorType) (gn : Bool)
          → read_resident gg g codec L' (part site (bytes_of ".weight")) type_ gn
            ≡ rebuilt_bytes type_
                (site_width fl gg g codec (wbits_for mod_ site_key) meta)
                meta.ne1
                (rebuilt_floats mod_ site_key site meta)

    values :
        (mod_ : FqModuleSpec F) (site_key : String) (site : Str) (meta : Tensor) (f : List F)
        → site_width fl gg g codec (wbits_for mod_ site_key) meta % 2 ≡ 0
        → rebuilt_floats mod_ site_key site meta ≡ some f
        → (n k : ℕ) → n < meta.ne1
        → k < site_width fl gg g codec (wbits_for mod_ site_key) meta
        → get_or f (n * site_width fl gg g codec (wbits_for mod_ site_key) meta + k) zero_f
          ≡ weight_row fl
              (site_width fl gg g codec (wbits_for mod_ site_key) meta)
              (wbits_for mod_ site_key)
              (fq_rot_block_for
                (site_width fl gg g codec (wbits_for mod_ site_key) meta)
                mod_.rot_block)
              mod_.fold_before
              (ascale_of fl gg g codec
                (is_there fl gg g codec (g.tensor (part site (bytes_of ".ascale"))))
                (part site (bytes_of ".ascale")))
              (read_convert g codec (part site (bytes_of ".weight")) t_i8 false)
              (read_f32 g codec (part site (bytes_of ".wscale")))
              n
              k
    unfolding rebuilt_floats
    values mod_ site_key site meta f even e = make_floats-weight_row _ _ _ _ _ _ _ f even e

    registered_even :
        (mod_ : FqModuleSpec F) (site_key : String) (site : Str) (meta : Tensor) (L : Loader F)
        → (register_dequant fl gg g codec mod_ site_key site meta L).0 ≡ true
        → site_width fl gg g codec (wbits_for mod_ site_key) meta % 2 ≡ 0
    unfolding register_dequant is_malformed
    registered_even mod_ site_key site meta L e =
        let wbits = wbits_for mod_ site_key in
        let K = site_width fl gg g codec wbits meta in
        elim (Bool-cases (not (is_width wbits))) [
          | inl wrong ↦ absurd (cc (rw (register_dequant, wrong) at e))
          | inr right ↦
              elim (Bool-cases (
                is_malformed fl gg g codec K meta.ne1 meta
                  (g.tensor (part site (bytes_of ".wscale")))
                  (g.tensor (part site (bytes_of ".ascale"))))) [
                    | inl wrong ↦ absurd (cc (rw (register_dequant, right, wrong) at e))
                    | inr fine ↦
                        let chunks : K % 64 ≡ 0 = ground (arith, fine) in omega (arith, chunks)
                  ]
        ]

    -- A site of INT8 codes that is registered for the float rebuild, under a name that fits and with a
    -- nominal rotation block that is a power of two, is declared as a float tensor of its shape. What is
    -- read for it is its floats as bytes: their count is never the reason to refuse it. Each float is its
    -- row's codes by the row's scale, rotated in blocks of the largest power of two that is at most the
    -- nominal one and divides the width, and divided by the activation's scales on the side that the module
    -- says.
    pub register_dequant-IsRebuilt :
        (want : TensorType) (mod_ : FqModuleSpec F) (site_key : String) (site : Str) (meta : Tensor)
        (L : Loader F) (a : ℕ)
        → mod_.rot_block ≡ pos (2 ^ a)
        → leb name_cap (length (part site (bytes_of ".weight"))) ≡ false
        → g.tensor (part site (bytes_of ".weight")) ≡ some meta
        → same_type meta.type_ t_i8 ≡ true
        → same_type want t_i8 ≡ false
        → (register_dequant fl gg g codec mod_ site_key site meta L).0 ≡ true
        → IsRebuilt want mod_ site_key site meta a
            (register_dequant fl gg g codec mod_ site_key site meta L).1
    register_dequant-IsRebuilt want mod_ site_key site meta L a nominal short there codes other
          done =
        let K = site_width fl gg g codec (wbits_for mod_ site_key) meta in
        let name = part site (bytes_of ".weight") in
        let make = rebuilt_floats mod_ site_key site meta in
        subst (IsRebuilt want mod_ site_key site meta a)
          (sym (registered mod_ site_key site meta L done))
          (record {
            block_is =
                subst (λ b. IsLargest K a (fq_rot_block_for K b)) (sym nominal)
                  (fq_rot_block_for-IsLargest K a);
            values_are = λ f e.
                values mod_ site_key site meta f (registered_even mod_ site_key site meta L done) e;
            declared_is =
                λ gn. declared want gn name K meta.ne1 make meta L short there codes other;
            read_is = λ type_ gn.
                read_back type_ gn name K meta.ne1 make L
                ∙ read_rebuilt-rebuilt_bytes type_ K meta.ne1 make
                    (length-rebuilt_floats mod_ site_key site meta);
          })
