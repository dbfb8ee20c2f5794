-- ===== src/Prompt/Tests.antt =====
-- Prompts at concrete inputs: 2 is the image token, a float is a byte.
use vla_cpp.Common.{
  ℕ, zero, suc, ◌*◌, ◌≡◌, refl, ap, true, false, none, some, List, [], ◌∷◌, length, arith,
}
use vla_cpp.Common.Int.{pos}
use vla_cpp.HfFetch.Names.{Str}
use vla_cpp.Gguf.{Reader, Codec, t_f32, fetch_rows_f32}
use vla_cpp.Prompt.{build_prompt, fetch_embeds}
use vla_cpp.Prompt.Slots.{IsBuilt, build_prompt-IsPrompt}
use vla_cpp.Prompt.Embedded.{IsCodec, mixed, token_row, fetch_embeds-mixed}

build_prompt-IsPrompt_example :
    IsBuilt (pos 1 ∷ pos 0 ∷ []) 2 (pos 2) 4 (build_prompt (pos 1 ∷ pos 0 ∷ []) 2 (pos 2) 4)
build_prompt-IsPrompt_example = build_prompt-IsPrompt (pos 1 ∷ pos 0 ∷ []) 2 (pos 2) 4

-- Half of the slots are there.
build_prompt_half : (build_prompt (pos 1 ∷ pos 2 ∷ []) 2 (pos 2) 4).1 ≡ false
unfolding build_prompt
build_prompt_half = refl

abbrev reader : Reader ℕ
reader = record {
  kv = λ k. none;
  tensor = λ name.
      some (record { ne0 = 1; ne1 = 3; ne2 = 1; ne3 = 1; type_ = t_f32; offset = 0; size = 12 });
  data_off = 0;
  content = 7 ∷ 0 ∷ 0 ∷ 0 ∷ 8 ∷ 0 ∷ 0 ∷ 0 ∷ 9 ∷ 0 ∷ 0 ∷ 0 ∷ [];
  seekable = λ off. true;
}

abbrev every_fourth : Str → List ℕ
every_fourth (a ∷ b ∷ c ∷ d ∷ s) = a ∷ every_fourth s
every_fourth s = []

abbrev every_second : Str → List ℕ
every_second (a ∷ b ∷ s) = a ∷ every_second s
every_second s = []

abbrev codec : Codec ℕ
codec = record {
  zero_value = 0;
  plus_one = suc;
  from_f32 = every_fourth;
  from_bf16 = every_second;
  from_f16 = every_second;
  from_packed = λ k s. s;
  to_f32 = λ s. s;
  to_bf16 = λ s. s;
  to_f16 = λ s. s;
}

length-every_fourth : (n : ℕ) (s : Str) → length s ≡ n * 4 → length (every_fourth s) ≡ n
length-every_fourth zero [] e = refl
length-every_fourth zero (x ∷ s) e = absurd (omega (arith, e))
length-every_fourth (suc n) (a ∷ b ∷ c ∷ d ∷ s) e =
    ap suc (length-every_fourth n s (omega (arith, e)))
length-every_fourth (suc n) [] e = absurd (omega (arith, e))
length-every_fourth (suc n) (a ∷ []) e = absurd (omega (arith, e))
length-every_fourth (suc n) (a ∷ b ∷ []) e = absurd (omega (arith, e))
length-every_fourth (suc n) (a ∷ b ∷ c ∷ []) e = absurd (omega (arith, e))

length-every_second : (n : ℕ) (s : Str) → length s ≡ n * 2 → length (every_second s) ≡ n
length-every_second zero [] e = refl
length-every_second zero (x ∷ s) e = absurd (omega (arith, e))
length-every_second (suc n) (a ∷ b ∷ s) e = ap suc (length-every_second n s (omega (arith, e)))
length-every_second (suc n) [] e = absurd (omega (arith, e))
length-every_second (suc n) (a ∷ []) e = absurd (omega (arith, e))

codec-IsCodec : IsCodec codec 1
codec-IsCodec = record { f32_rows = length-every_fourth 1; bf16_rows = length-every_second 1 }

asked_built : (build_prompt (pos 1 ∷ pos 0 ∷ []) 2 (pos 2) 4).1 ≡ true
unfolding build_prompt
asked_built = refl

abbrev embedded : List ℕ
embedded = 20 ∷ 21 ∷ 8 ∷ 7 ∷ []

fetch_embeds_asked :
    fetch_embeds reader codec (build_prompt (pos 1 ∷ pos 0 ∷ []) 2 (pos 2) 4).0 (20 ∷ 21 ∷ []) 1
    ≡ some embedded
unfolding fetch_embeds build_prompt fetch_rows_f32
fetch_embeds_asked = refl

fetch_embeds-mixed_example :
    (embedded
      ≡ mixed
          (pos 2)
          1
          (token_row reader codec 1)
          (build_prompt (pos 1 ∷ pos 0 ∷ []) 2 (pos 2) 4).0.ids
          (20 ∷ 21 ∷ []))
    × (length embedded ≡ length (build_prompt (pos 1 ∷ pos 0 ∷ []) 2 (pos 2) 4).0.ids * 1)
fetch_embeds-mixed_example =
    fetch_embeds-mixed reader codec (pos 1 ∷ pos 0 ∷ []) 2 (pos 2) 4 1 (20 ∷ 21 ∷ []) embedded
      codec-IsCodec refl asked_built fetch_embeds_asked
