-- ===== src/Tokenizer/Tests.antt =====
-- Prompts and tokens at concrete inputs; a float is a bin.
use vla_cpp.Common.{
  ℕ, ◌≡◌, refl, true, false, Option, none, some, [], ◌∷◌, ◌++◌, map, ◌<◌, arith, leb, if◌then◌else◌,
}
use vla_cpp.Common.Int.{pos}
use vla_cpp.Common.Text.{bytes_of}
use vla_cpp.HfFetch.Names.{Str}
use vla_cpp.HfFetch.Names.Match.{str_eq}
use vla_cpp.Gguf.{Reader, u32_value, u8_array, u32}
use vla_cpp.Tokenizer.{Bins, pi05_prompt, openvla_oft, space_token}
use vla_cpp.Tokenizer.Encode.{Processor, tokenize_text}
use vla_cpp.Tokenizer.Prompt.{IsOneLine, pi05_prompt-IsOneLine}

abbrev bins : Bins ℕ
bins = record { at_least = λ b x lo hi. leb b x; is_nan = λ x lo hi. false }

-- "a\nb_c" is cleaned.
abbrev said : Str
said = bytes_of "Task: a b c, State: 3 200;\nAction: "

pi05_prompt-IsOneLine_example :
    (line : Str) × (said ≡ line ++ 59 ∷ 10 ∷ bytes_of "Action: ") × IsOneLine line
unfolding pi05_prompt
pi05_prompt-IsOneLine_example =
    pi05_prompt-IsOneLine bins (32 ∷ 97 ∷ 10 ∷ 98 ∷ 95 ∷ 99 ∷ 10 ∷ []) (3 ∷ 200 ∷ []) (0 ∷ 0 ∷ [])
      (1 ∷ 1 ∷ []) said refl

-- A file for OpenVLA-OFT that asks for two tokens; a text is as many tokens as it has bytes.
abbrev reader : Reader ℕ
reader = record {
  kv = λ k.
      if str_eq k (bytes_of "openvla_oft.tokenizer_max_length")
      then some (u32_value 2)
      else (if str_eq k (bytes_of "openvla_oft.tokenizer.spm_model")
          then some (u8_array (1 ∷ []))
          else none);
  tensor = λ name. none;
  data_off = 0;
  content = [];
  seekable = λ off. true;
}

abbrev load : Str → Option Processor
load model = some (record { bos_id = pos 1; encode = map pos })

-- The third token is the one after the cut.
tokenize_text_longer :
    tokenize_text load bins reader openvla_oft (bytes_of "go") []
    ≡ some (pos 1 ∷ pos 73 ∷ space_token ∷ [])
unfolding tokenize_text
tokenize_text_longer = refl

reader_says_two : u32 reader (openvla_oft ++ bytes_of ".tokenizer_max_length") ≡ 2
unfolding u32 str_eq
reader_says_two = refl

reader_max_length : 0 < u32 reader (openvla_oft ++ bytes_of ".tokenizer_max_length")
reader_max_length = omega (arith, reader_says_two)
