-- ===== src/Tokenizer/Encode.antt =====
-- tokenize_prompt of src/tokenizer.cpp with its readings of the GGUF file; SentencePiece is a parameter.
pub mod Fits
use vla_cpp.Common.{
  ℕ, Bool, true, false, not, ◌||◌, ◌&&◌, Option, none, some, List, [], ◌∷◌, ◌++◌, ◌==◌,
  if◌then◌else◌,
}
use vla_cpp.Common.Int.{ℤ, pos, to_int}
use vla_cpp.Common.Text.{bytes_of}
use vla_cpp.HfFetch.Names.{Str}
use vla_cpp.HfFetch.Names.Match.{str_eq}
use vla_cpp.Gguf.{Reader, Value, u8_array, f32_array, has, u32}
use vla_cpp.Tokenizer.{Bins, prompt_text, octo_tokens, finish_tokens, pi05, openvla_oft}

-- A SentencePiece model: LoadFromSerializedProto, then bos_id and EncodeAsIds.
pub record Processor : Type 0 where
  pub bos_id : ℤ
  pub encode : Str → List ℤ

module _ {F : Type 0} (load : Str → Option Processor) (bins : Bins F) where
  unfoldable pub spm_array : Option (Value F) → Option Str
  spm_array none = none
  spm_array (some v) = elim v [ u8_array bytes ↦ some bytes | _ ↦ none ]

  unfoldable pub read_f32_array : Option (Value F) → Option (List F)
  read_f32_array none = none
  read_f32_array (some v) = elim v [ f32_array values ↦ some values | _ ↦ none ]

  unfoldable pub spm_encode : Reader F → Str → Str → Bool → Option (List ℤ)
  unfolding spm_array
  spm_encode g arch text add_bos =
      elim (spm_array (g.kv (arch ++ bytes_of ".tokenizer.spm_model"))) [
        | none ↦ none
        | some model ↦ elim (load model) [
          | none ↦ none
          | some sp ↦ some ((if add_bos then sp.bos_id ∷ [] else []) ++ sp.encode text)
        ]
      ]

  unfoldable pub u32_or : Reader F → Str → ℕ → ℕ
  unfolding has u32
  u32_or g key default = if has g key then u32 g key else default

  unfoldable pub tokenize_octo : Reader F → Str → Option (List ℤ × List ℤ)
  unfolding spm_encode u32_or octo_tokens
  tokenize_octo g text = elim (spm_encode g (bytes_of "octo") text false) [
    | none ↦ none
    | some ids ↦
        if u32_or g (bytes_of "octo.tokens.language") 16 == 16
        then some (
            octo_tokens (to_int (u32_or g (bytes_of "octo.tokenizer.eos_id") 1))
              (to_int (u32_or g (bytes_of "octo.tokenizer.pad_id") 0)) ids)
        else none
  ]

  -- The statistics of the state, which only pi0.5 needs.
  unfoldable pub state_stats : Reader F → Str → Option (List F × List F)
  unfolding read_f32_array
  state_stats g arch =
      if not (str_eq arch pi05)
      then some ([], [])
      else (elim (read_f32_array (g.kv (bytes_of "pi05.state.q01"))) [
        | none ↦ none
        | some q01 ↦ elim (read_f32_array (g.kv (bytes_of "pi05.state.q99"))) [
          | none ↦ none
          | some q99 ↦ some (q01, q99)
        ]
      ])

  unfoldable pub tokenize_text : Reader F → Str → Str → List F → Option (List ℤ)
  unfolding state_stats prompt_text spm_encode finish_tokens u32
  tokenize_text g arch text state = elim (state_stats g arch) [
    | none ↦ none
    | some (q01, q99) ↦ elim (prompt_text bins arch text state q01 q99) [
      | none ↦ none
      | some prompt ↦ elim (spm_encode g arch prompt true) [
        | none ↦ none
        | some ids ↦ some (
            finish_tokens (str_eq arch openvla_oft)
              (u32 g (arch ++ bytes_of ".tokenizer_max_length")) ids)
      ]
    ]
  ]

  -- The tokens and the mask, which only Octo has, of a file that opens.
  unfoldable pub tokenize_prompt : Option (Reader F) → Str → Str → List F → Option (List ℤ × List ℤ)
  unfolding tokenize_octo tokenize_text
  tokenize_prompt none arch text state = none
  tokenize_prompt (some g) arch text state =
      if str_eq arch (bytes_of "octo")
      then tokenize_octo g text
      else (elim (tokenize_text g arch text state) [ none ↦ none | some ids ↦ some (ids, []) ])
