-- ===== src/Loader.antt =====
-- WeightLoader of src/loader.cpp: which tensors are declared, and with which type and shape. The file is
-- read by src/gguf_reader.h; what ggml does is a parameter. A declared tensor is its place among them.
pub mod Fuse
pub mod Upload
pub mod Kept
pub mod Shapes
pub mod Padded
pub mod Sized
pub mod Exact
pub mod Quants
pub mod Whole
mod Tests
use vla_cpp.Common.{
  ℕ, zero, suc, ◌+◌, ◌*◌, ◌/◌, Bool, true, false, not, ◌&&◌, ◌||◌, Option, none, some, List, [],
  ◌∷◌, ◌++◌, length, ltb, leb, ◌==◌, if◌then◌else◌,
}
use vla_cpp.Common.Text.{bytes_of}
use vla_cpp.HfFetch.Names.{Str}
use vla_cpp.HfFetch.Names.Match.{str_eq}
use vla_cpp.Gguf.{
  Reader, TensorType, t_f32, t_bf16, t_f16, t_i8, packed, other_type, Tensor, is_quantized,
  resident_type,
}

-- A tensor of the weight context.
pub record Made : Type 0 where
  pub name : Str
  pub type_ : TensorType
  pub ne0 : ℕ
  pub ne1 : ℕ
  pub ne2 : ℕ
  pub ne3 : ℕ

-- ggml: the bytes of a row, the dimensions of a tensor, whether the context has room for one more, and
-- the quantization of rows of `K` floats.
pub record Ggml (F : Type 0) : Type 0 where
  pub row_size : TensorType → ℕ → ℕ
  pub n_dims : Tensor → ℕ
  pub has_room : List Made → Made → Bool
  pub quantize : TensorType → List F → ℕ → ℕ → Str

-- A float rebuild: its shape, and what its maker gives at the upload.
pub record AsFloat (F : Type 0) : Type 0 where
  pub K : ℕ
  pub N : ℕ
  pub make : Option (List F)

pub record Fused : Type 0 where
  pub dst : ℕ
  pub made : Made
  pub srcs : List Str

-- The two tensors of an INT8 or INT4 weight.
pub record QWeight : Type 0 where
  pub w : ℕ
  pub w_made : Made
  pub s : ℕ
  pub s_made : Made
  pub bits : ℕ
  pub group : ℕ

pub record Quant : Type 0 where
  pub q : QWeight
  pub K : ℕ
  pub srcs : List Str

-- The maps are lists, the newest entry first.
pub record Loader (F : Type 0) : Type 0 where
  pub is_ok : Bool
  pub gemm : TensorType
  pub tensors : List Made
  pub as_floats : List (Str × AsFloat F)
  pub pads : List (Str × (ℕ × ℕ))
  pub gemma_norms : List Str
  pub fused : List Fused
  pub quants : List Quant

unfoldable pub find {ℓ} : {A : Type ℓ} → Str → List (Str × A) → Option A
unfolding str_eq
find k [] = none
find k ((j, a) ∷ m) = if str_eq j k then some a else find k m

unfoldable pub same_type : TensorType → TensorType → Bool
same_type t_f32 t_f32 = true
same_type t_bf16 t_bf16 = true
same_type t_f16 t_f16 = true
same_type t_i8 t_i8 = true
same_type (packed a x) (packed b y) = a == b
same_type (other_type a) (other_type b) = a == b
same_type _ _ = false

unfoldable pub is_float : TensorType → Bool
is_float t_f32 = true
is_float t_f16 = true
is_float t_bf16 = true
is_float _ = false

unfoldable pub float_type : TensorType → TensorType
unfolding is_float
float_type want = if is_float want then want else t_f32

abbrev pub name_cap : ℕ
name_cap = 256

module _ {F : Type 0} where
  -- `ok_ = false`, and a null tensor.
  unfoldable pub fail : Loader F → Option ℕ × Loader F
  fail L = (none, record L { is_ok = false })

  unfoldable pub as_float : Str → ℕ → ℕ → Option (List F) → Loader F → Loader F
  as_float name K N make L = record L {
    as_floats = (name, record { K = K; N = N; make = make }) ∷ L.as_floats;
  }

  unfoldable pub pad : Str → ℕ → ℕ → Loader F → Loader F
  pad name ne0 ne1 L = record L { pads = (name, (ne0, ne1)) ∷ L.pads }

  -- `ggml_new_tensor`, whose failure is recorded.
  unfoldable pub new_tensor : Ggml F → Made → Loader F → Option ℕ × Loader F
  unfolding fail
  new_tensor gg m L =
      if gg.has_room L.tensors m
      then (some (length L.tensors), record L { tensors = L.tensors ++ (m ∷ []) })
      else fail L

module _ {F : Type 0} (gg : Ggml F) (g : Reader F) where
  -- `width` is gemm_width of src/backend.h, which depends on the build.
  unfoldable pub pad_mlp : (ℕ → ℕ) → Str → Str → Loader F → Loader F
  unfolding pad is_quantized
  pad_mlp width fc1 fc2 L = elim (g.tensor (fc1 ++ bytes_of ".weight")) [
    | none ↦ L
    | some w1 ↦ elim (g.tensor (fc2 ++ bytes_of ".weight")) [
      | none ↦ L
      | some w2 ↦
          if is_quantized L.gemm
            || is_quantized w1.type_
            || is_quantized w2.type_
            || (width w1.ne1 == w1.ne1)
            || not (w2.ne0 == w1.ne1)
          then L
          else pad (fc2 ++ bytes_of ".weight") (width w1.ne1) w2.ne1 (
              pad (fc1 ++ bytes_of ".bias") (width w1.ne1) 1
                (pad (fc1 ++ bytes_of ".weight") w1.ne0 (width w1.ne1) L))
    ]
  ]

  -- A site of INT8 codes that is read back as a float weight, or an error.
  unfoldable pub declare_float :
      TensorType → Str → Option (AsFloat F) → Loader F → Option ℕ × Loader F
  unfolding fail new_tensor float_type
  declare_float want name none L = fail L
  declare_float want name (some a) L =
      new_tensor gg
        (record { name = name; type_ = float_type want; ne0 = a.K; ne1 = a.N; ne2 = 1; ne3 = 1 }) L

  unfoldable pub cannot_pad : TensorType → Tensor → ℕ × ℕ → Bool
  unfolding is_float
  cannot_pad rt src (p0, p1) =
      not (is_float rt) || ltb 2 (gg.n_dims src) || ltb p0 src.ne0 || ltb p1 src.ne1

  -- The new tensor has the dimensions of the file's, of which those from `n_dims` on are 1.
  unfoldable pub declare_shape :
      TensorType → Str → Tensor → Option (ℕ × ℕ) → Loader F → Option ℕ × Loader F
  unfolding fail new_tensor cannot_pad
  declare_shape rt name src none L =
      new_tensor gg
        (record {
          name = name;
          type_ = rt;
          ne0 = src.ne0;
          ne1 = src.ne1;
          ne2 = src.ne2;
          ne3 = src.ne3;
        })
        L
  declare_shape rt name src (some p) L =
      if cannot_pad rt src p
      then fail L
      else new_tensor gg
          (record { name = name; type_ = rt; ne0 = p.0; ne1 = p.1; ne2 = 1; ne3 = 1 }) L

  -- `gemma_norms_.push_back`, for a tensor that was made.
  unfoldable pub note_norm : Bool → Str → Option ℕ × Loader F → Option ℕ × Loader F
  note_norm gemma_norm name (none, L) = (none, L)
  note_norm gemma_norm name (some t, L) =
      (some t, if gemma_norm then record L { gemma_norms = L.gemma_norms ++ (name ∷ []) } else L)

  unfoldable pub declare_found : TensorType → Bool → Str → Tensor → Loader F → Option ℕ × Loader F
  unfolding same_type find declare_float declare_shape note_norm resident_type
  declare_found want gemma_norm name src L =
      if same_type src.type_ t_i8 && not (same_type want t_i8)
      then declare_float want name (find name L.as_floats) L
      else note_norm gemma_norm name
          (declare_shape (resident_type g (some src) want) name src (find name L.pads) L)

  -- `name` is what vsnprintf gives.
  unfoldable pub declare : TensorType → Bool → Bool → Str → Loader F → Option ℕ × Loader F
  unfolding fail declare_found
  declare want required gemma_norm name L =
      if leb name_cap (length name) then fail L else (elim (g.tensor name) [
        | none ↦ if required then fail L else (none, L)
        | some src ↦ declare_found want gemma_norm name src L
      ])

  -- VLA_DECLARE_FN, and the two with an explicit type.
  unfoldable pub gemm_weight : Str → Loader F → Option ℕ × Loader F
  unfolding declare
  gemm_weight name L = declare L.gemm true false name L

  unfoldable pub f32_weight : Str → Loader F → Option ℕ × Loader F
  unfolding declare
  f32_weight name L = declare t_f32 true false name L

  unfoldable pub opt_gemm : Str → Loader F → Option ℕ × Loader F
  unfolding declare
  opt_gemm name L = declare L.gemm false false name L

  unfoldable pub opt_f32 : Str → Loader F → Option ℕ × Loader F
  unfolding declare
  opt_f32 name L = declare t_f32 false false name L

  unfoldable pub f32_gemma_norm : Str → Loader F → Option ℕ × Loader F
  unfolding declare
  f32_gemma_norm name L = declare t_f32 true true name L

  unfoldable pub typed : TensorType → Str → Loader F → Option ℕ × Loader F
  unfolding declare
  typed want name L = declare want true false name L

  unfoldable pub opt_typed : TensorType → Str → Loader F → Option ℕ × Loader F
  unfolding declare
  opt_typed want name L = declare want false false name L
