-- ===== src/Loader/Upload.antt =====
-- read_resident and upload of src/loader.cpp: the bytes of every declared tensor, in the order in which
-- they are set. A write is the tensor's place with its bytes.
use vla_cpp.Common.{
  ℕ, zero, suc, ◌+◌, ◌-◌, ◌*◌, ◌/◌, ◌%◌, Bool, true, false, not, ◌||◌, Option, none, some, List, [],
  ◌∷◌, ◌++◌, length, map, take, drop, replicate, get_or, write_at, ◌==◌, if◌then◌else◌,
}
use vla_cpp.Common.Int.{ℤ, pos, negsuc}
use vla_cpp.HfFetch.Names.{Str}
use vla_cpp.HfFetch.Names.Match.{str_eq}
use vla_cpp.FoldQuant.Pack.{pack_nibbles}
use vla_cpp.Gguf.{Reader, Codec, TensorType, t_f32, Tensor, read_convert}
use vla_cpp.Loader.{Made, Ggml, AsFloat, Fused, Quant, Loader, find}

-- What the quantization asks of floats: 0, 1, the greatest code of a width, and
-- `lrint(min(qmax, max(-qmax, x / scale)))` as a code.
pub record Rounding (F : Type 0) : Type 0 where
  pub zero_f : F
  pub one_f : F
  pub qmax : ℕ → F
  pub fabs : F → F
  pub max_f : F → F → F
  pub less : F → F → Bool
  pub div : F → F → F
  pub clamp_round : F → F → ℤ

abbrev pub Writes : Type 0
Writes = List (ℕ × Str)

unfoldable pub pad_rows : ℕ → ℕ → Str → ℕ → ℕ → Str → Str
pad_rows rs rp out zero r padded = padded
pad_rows rs rp out (suc left) r padded =
    pad_rows rs rp out left (suc r) (write_at (r * rp) (take rs (drop (r * rs) out)) padded)

-- `(uint8_t)` of a code.
unfoldable pub byte_of : ℤ → ℕ
byte_of (pos n) = n % 256
byte_of (negsuc n) = 255 - n % 256

module _ {F : Type 0} (gg : Ggml F) (g : Reader F) (codec : Codec F) where
  unfoldable pub nbytes : Made → ℕ
  nbytes m = gg.row_size m.type_ m.ne0 * m.ne1 * m.ne2 * m.ne3

  unfoldable pub is_empty : Str → Bool
  is_empty [] = true
  is_empty (x ∷ xs) = false

  -- The bytes with the padding; `src` is the file's tensor.
  unfoldable pub padded_bytes : TensorType → Tensor → ℕ × ℕ → Str → Str
  unfolding pad_rows
  padded_bytes type_ src (p0, p1) out =
      let rs = gg.row_size type_ src.ne0 in
      let rp = gg.row_size type_ p0 in pad_rows rs rp out src.ne1 0 (replicate (rp * p1) 0)

  unfoldable pub read_plain : Str → TensorType → Bool → Option (ℕ × ℕ) → Option Str
  unfolding read_convert is_empty padded_bytes
  read_plain name type_ gemma_norm p =
      let out = read_convert g codec name type_ gemma_norm in
      if is_empty out then none else (elim p [
        | none ↦ some out
        | some q ↦ elim (g.tensor name) [
          | none ↦ none
          | some src ↦ some (padded_bytes type_ src q out)
        ]
      ])

  -- The buffer that is quantized into has a row for each of the `N`.
  unfoldable pub read_rebuilt : TensorType → AsFloat F → Option Str
  read_rebuilt type_ a = elim a.make [
    | none ↦ none
    | some f ↦
        let size = gg.row_size type_ a.K * a.N in
        if not (length f == a.K * a.N)
        then none
        else some (take size (gg.quantize type_ f a.N a.K ++ replicate size 0))
  ]

  unfoldable pub read_resident : Loader F → Str → TensorType → Bool → Option Str
  unfolding find read_plain read_rebuilt
  read_resident L name type_ gemma_norm = elim (find name L.as_floats) [
    | none ↦ read_plain name type_ gemma_norm (find name L.pads)
    | some a ↦ read_rebuilt type_ a
  ]

  unfoldable pub is_dst : ℕ → List Fused → Bool
  is_dst i [] = false
  is_dst i (f ∷ fs) = f.dst == i || is_dst i fs

  unfoldable pub is_quant_part : ℕ → List Quant → Bool
  is_quant_part i [] = false
  is_quant_part i (f ∷ fs) = f.q.w == i || f.q.s == i || is_quant_part i fs

  unfoldable pub has_name : Str → List Str → Bool
  unfolding str_eq
  has_name s [] = false
  has_name s (t ∷ ts) = str_eq t s || has_name s ts

  -- The loop over the tensors of the context, from the `i`th; the writes before it.
  unfoldable pub fill_plain : Loader F → ℕ → List Made → Writes → Bool × Writes
  unfolding is_dst is_quant_part has_name read_resident nbytes
  fill_plain L i [] done = (true, done)
  fill_plain L i (m ∷ ms) done = elim (is_dst i L.fused || is_quant_part i L.quants) [
    | true ↦ fill_plain L (suc i) ms done
    | false ↦ elim (read_resident L m.name m.type_ (has_name m.name L.gemma_norms)) [
      | none ↦ (false, done)
      | some bytes ↦ elim (length bytes == nbytes m) [
        | true ↦ fill_plain L (suc i) ms (done ++ ((i, bytes) ∷ []))
        | false ↦ (false, done)
      ]
    ]
  ]

  unfoldable pub gather : Loader F → TensorType → List Str → Option Str
  unfolding read_resident
  gather L type_ [] = some []
  gather L type_ (s ∷ srcs) = elim (read_resident L s type_ false) [
    | none ↦ none
    | some b ↦ elim (gather L type_ srcs) [ none ↦ none | some rest ↦ some (b ++ rest) ]
  ]

  unfoldable pub fill_fused : Loader F → List Fused → Writes → Bool × Writes
  unfolding gather nbytes
  fill_fused L [] done = (true, done)
  fill_fused L (f ∷ fs) done = elim (gather L f.made.type_ f.srcs) [
    | none ↦ (false, done)
    | some parts ↦ elim (length parts == nbytes f.made) [
      | true ↦ fill_fused L fs (done ++ ((f.dst, parts) ∷ []))
      | false ↦ (false, done)
    ]
  ]

  module _ (fl : Rounding F) where
    unfoldable pub amax_of : F → List F → F
    amax_of acc [] = acc
    amax_of acc (x ∷ xs) = amax_of (fl.max_f acc (fl.fabs x)) xs

    unfoldable pub scale_of : ℕ → List F → F
    unfolding amax_of
    scale_of bits row =
        let amax = amax_of fl.zero_f row in
        if fl.less fl.zero_f amax then fl.div amax (fl.qmax bits) else fl.one_f

    -- The groups of a row: their codes, and their scales.
    unfoldable pub quant_groups : ℕ → ℕ → ℕ → List F → List ℤ × List F
    unfolding scale_of
    quant_groups bits group zero row = ([], [])
    quant_groups bits group (suc left) row =
        let sc = scale_of bits (take group row) in
        let rest = quant_groups bits group left (drop group row) in
        (
          map (λ x. fl.clamp_round (fl.qmax bits) (fl.div x sc)) (take group row) ++ rest.0,
          sc ∷ rest.1,
        )

    unfoldable pub quant_matrix : ℕ → ℕ → ℕ → ℕ → List F → List ℤ × List F
    unfolding quant_groups
    quant_matrix bits group K zero w = ([], [])
    quant_matrix bits group K (suc left) w =
        let row = quant_groups bits group (K / group) (take K w) in
        let rest = quant_matrix bits group K left (drop K w) in (row.0 ++ rest.0, row.1 ++ rest.1)

    -- The sources one after the other.
    unfoldable pub quant_sources : Loader F → ℕ → ℕ → ℕ → List Str → Option (List ℤ × List F)
    unfolding read_resident quant_matrix
    quant_sources L bits group K [] = some ([], [])
    quant_sources L bits group K (s ∷ srcs) = elim (read_resident L s t_f32 false) [
      | none ↦ none
      | some b ↦
          if not (length b % (K * 4) == 0)
          then none
          else (elim (quant_sources L bits group K srcs) [
            | none ↦ none
            | some rest ↦
                let first = quant_matrix bits group K (length b / (K * 4)) (codec.from_f32 b) in
                some (first.0 ++ rest.0, first.1 ++ rest.1)
          ])
    ]

    -- `st[j * N + n] = scales[n * G + j]`, in the order of `st`: the `left` entries from `i` on.
    unfoldable pub transpose_from : ℕ → ℕ → List F → ℕ → ℕ → List F
    transpose_from G N scales zero i = []
    transpose_from G N scales (suc left) i =
        get_or scales (i % N * G + i / N) fl.zero_f ∷ transpose_from G N scales left (suc i)

    -- The two writes of a weight.
    unfoldable pub quant_writes : Quant → ℕ → List ℤ → List F → Writes
    unfolding pack_nibbles byte_of transpose_from
    quant_writes f N codes scales =
        if f.q.bits == 4
        then (f.q.w, pack_nibbles codes)
          ∷ (
            f.q.s,
            codec.to_f32 (transpose_from (f.K / f.q.group) N scales (f.K / f.q.group * N) 0),
          )
          ∷ []
        else (f.q.w, map byte_of codes) ∷ (f.q.s, codec.to_f32 scales) ∷ []

    unfoldable pub fill_quant : Loader F → List Quant → Writes → Bool × Writes
    unfolding quant_sources quant_writes
    fill_quant L [] done = (true, done)
    fill_quant L (f ∷ fs) done =
        elim (quant_sources L f.q.bits (if f.q.bits == 4 then f.q.group else f.K) f.K f.srcs) [
          | none ↦ (false, done)
          | some (codes, scales) ↦ elim (length codes / f.K == f.q.w_made.ne1) [
            | true ↦ fill_quant L fs (done ++ quant_writes f (length codes / f.K) codes scales)
            | false ↦ (false, done)
          ]
        ]

    -- After the buffer was made: the result and the writes. The first that fails ends it.
    unfoldable pub fill_all : Loader F → Bool × Writes
    unfolding fill_plain fill_fused fill_quant
    fill_all L =
        let (good, done) = fill_plain L 0 L.tensors [] in
        elim good [
          | false ↦ (false, done)
          | true ↦
              let (good', done') = fill_fused L L.fused done in
              elim good' [ false ↦ (false, done') | true ↦ fill_quant L L.quants done' ]
        ]

    -- `buffer` is what alloc_weights gives; with it the result, the buffer that is handed out and the
    -- writes.
    unfoldable pub upload : {B : Type 0} → Option B → Loader F → Bool × Option B × Writes
    unfolding fill_all
    upload buffer L = if not L.is_ok then (false, none, []) else (elim buffer [
      | none ↦ (false, none, [])
      | some buf ↦ let (good, writes) = fill_all L in (good, some buf, writes)
    ])
