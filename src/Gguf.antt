-- ===== src/Gguf.antt =====
-- gguf_reader of src/gguf_reader.h: metadata and tensors of a GGUF file. The file's index is what ggml's gguf
-- gives; the conversions between rows of floats and bytes are ggml's too.
pub mod Fetched
mod Tests
use vla_cpp.Common.{
  ℕ, suc, ◌+◌, ◌*◌, Bool, true, false, not, ◌||◌, Option, none, some, List, [], ◌∷◌, ◌++◌, map,
  length, take, drop, leb, ltb, ◌==◌, if◌then◌else◌,
}
use vla_cpp.Common.Int.{ℤ, pos, negsuc, leb_ℤ, is_negative}
use vla_cpp.HfFetch.Names.{Str}

-- The tensor types, of which the packed ones are a kind each, with a conversion to floats or not.
pub data TensorType : Type 0 where
  t_f32 t_bf16 t_f16 : TensorType
  t_i8 : TensorType
  packed : (kind : ℕ) → (has_to_float : Bool) → TensorType
  other_type : (kind : ℕ) → TensorType

pub record Tensor : Type 0 where
  pub ne0 : ℕ
  pub ne1 : ℕ
  pub ne2 : ℕ
  pub ne3 : ℕ
  pub type_ : TensorType
  pub offset : ℕ
  pub size : ℕ

pub data Value (F : Type 0) : Type 0 where
  u32_value : ℕ → Value F
  f32_value : F → Value F
  f64_value : F → Value F
  str_value : Str → Value F
  u8_array : Str → Value F
  f32_array : List F → Value F
  other_value : Value F

-- An open file: its index, where the tensors start, its bytes, and the positions that a seek reaches.
pub record Reader (F : Type 0) : Type 0 where
  pub kv : Str → Option (Value F)
  pub tensor : Str → Option Tensor
  pub data_off : ℕ
  pub content : Str
  pub seekable : ℕ → Bool

-- Rows of floats from and to bytes.
pub record Codec (F : Type 0) : Type 0 where
  pub zero_value : F
  pub plus_one : F → F
  pub from_f32 : Str → List F
  pub from_bf16 : Str → List F
  pub from_f16 : Str → List F
  pub from_packed : ℕ → Str → List F
  pub to_f32 : List F → Str
  pub to_bf16 : List F → Str
  pub to_f16 : List F → Str

unfoldable pub elements : Tensor → ℕ
elements t = t.ne0 * t.ne1 * t.ne2 * t.ne3

unfoldable pub is_quantized : TensorType → Bool
is_quantized (packed k b) = true
is_quantized _ = false

module _ {F : Type 0} (g : Reader F) where
  unfoldable pub has : Str → Bool
  has k = elim (g.kv k) [ none ↦ false | some v ↦ true ]

  -- The typed values: zero or empty for a missing key and for another type.
  unfoldable pub u32 : Str → ℕ
  u32 k = elim (g.kv k) [ none ↦ 0 | some v ↦ elim v [ u32_value n ↦ n | _ ↦ 0 ] ]

  unfoldable pub str : Str → Str
  str k = elim (g.kv k) [ none ↦ [] | some v ↦ elim v [ str_value s ↦ s | _ ↦ [] ] ]

  -- `fseek` and `fread`: nothing unless all the bytes are there.
  unfoldable pub read_at : ℕ → ℕ → Option Str
  read_at off n =
      if not (g.seekable off) || ltb (length g.content) (off + n)
      then none
      else some (take n (drop off g.content))

  unfoldable pub read_raw : Str → ℕ → Option Str
  unfolding read_at
  read_raw name cap = elim (g.tensor name) [
    | none ↦ none
    | some t ↦ if t.size == cap then read_at (g.data_off + t.offset) t.size else none
  ]

  -- The type in which a weight stays in memory.
  unfoldable pub resident_type : Option Tensor → TensorType → TensorType
  unfolding is_quantized
  resident_type none prefer = prefer
  resident_type (some src) prefer = if is_quantized src.type_ then src.type_ else prefer

  module _ (rows : Codec F) where
    unfoldable pub or_none : (Str → List F) → Option Str → List F
    or_none f none = []
    or_none f (some bytes) = f bytes

    -- `nbytes` is ggml_nbytes of the tensor.
    unfoldable pub read_as : TensorType → Str → ℕ → ℕ → List F
    unfolding read_raw or_none
    read_as t_f32 name n nbytes = or_none rows.from_f32 (read_raw name (n * 4))
    read_as t_bf16 name n nbytes = or_none rows.from_bf16 (read_raw name (n * 2))
    read_as t_f16 name n nbytes = or_none rows.from_f16 (read_raw name (n * 2))
    read_as (packed k true) name n nbytes = or_none (rows.from_packed k) (read_raw name nbytes)
    read_as (packed k false) name n nbytes = []
    read_as t_i8 name n nbytes = []
    read_as (other_type k) name n nbytes = []

    unfoldable pub read_f32 : Str → List F
    unfolding read_as elements
    read_f32 name = elim (g.tensor name) [
      | none ↦ []
      | some t ↦ read_as t.type_ name (elements t) t.size
    ]

    unfoldable pub add_norm : Bool → List F → List F
    add_norm false f = f
    add_norm true f = map rows.plus_one f

    -- Any other target is kept as it is, without the norm.
    unfoldable pub read_packed : Str → Bool → Str
    unfolding read_raw
    read_packed name true = []
    read_packed name false = elim (g.tensor name) [
      | none ↦ []
      | some t ↦ elim (read_raw name t.size) [ none ↦ [] | some bytes ↦ bytes ]
    ]

    unfoldable pub convert_all : (List F → Str) → List F → Str
    convert_all to [] = []
    convert_all to (x ∷ xs) = to (x ∷ xs)

    unfoldable pub read_convert : Str → TensorType → Bool → Str
    unfolding read_f32 add_norm read_packed convert_all
    read_convert name t_f32 gemma_norm =
        convert_all rows.to_f32 (add_norm gemma_norm (read_f32 name))
    read_convert name t_bf16 gemma_norm =
        convert_all rows.to_bf16 (add_norm gemma_norm (read_f32 name))
    read_convert name t_f16 gemma_norm =
        convert_all rows.to_f16 (add_norm gemma_norm (read_f32 name))
    read_convert name t_i8 gemma_norm = read_packed name gemma_norm
    read_convert name (packed k b) gemma_norm = read_packed name gemma_norm
    read_convert name (other_type k) gemma_norm = read_packed name gemma_norm

    -- The row `r` of a tensor of `count` rows of `rb` bytes that starts at `base`.
    unfoldable pub fetch_row : (Str → List F) → ℕ → ℕ → ℕ → ℤ → Option (List F)
    unfolding read_at
    fetch_row from base rb count (negsuc r) = none
    fetch_row from base rb count (pos r) =
        if leb count r
        then none
        else (elim (read_at (base + r * rb) rb) [ none ↦ none | some bytes ↦ some (from bytes) ])

    -- What is written to `dst`, row after row.
    unfoldable pub fetch_loop : (Str → List F) → ℕ → ℕ → ℕ → List ℤ → Option (List F)
    unfolding fetch_row
    fetch_loop from base rb count [] = some []
    fetch_loop from base rb count (r ∷ ids) = elim (fetch_row from base rb count r) [
      | none ↦ none
      | some row ↦ elim (fetch_loop from base rb count ids) [
        | none ↦ none
        | some rest ↦ some (row ++ rest)
      ]
    ]

    unfoldable pub fetch_as : TensorType → Tensor → ℕ → List ℤ → Option (List F)
    unfolding fetch_loop
    fetch_as t_f32 t cols ids =
        fetch_loop rows.from_f32 (g.data_off + t.offset) (cols * 4) t.ne1 ids
    fetch_as t_bf16 t cols ids =
        fetch_loop rows.from_bf16 (g.data_off + t.offset) (cols * 2) t.ne1 ids
    fetch_as _ t cols ids = none

    unfoldable pub fetch_rows_f32 : Str → List ℤ → ℕ → Option (List F)
    unfolding fetch_as
    fetch_rows_f32 name ids cols = elim (g.tensor name) [
      | none ↦ none
      | some t ↦
          if not (t.ne0 == cols) || not (t.ne2 == 1) || not (t.ne3 == 1)
          then none
          else fetch_as t.type_ t cols ids
    ]
