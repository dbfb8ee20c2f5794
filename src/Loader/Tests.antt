-- ===== src/Loader/Tests.antt =====
-- Loads at concrete inputs: a file of one tensor "a" of two floats, whose value is the first byte.
use vla_cpp.Common.{
  ℕ, zero, suc, ◌-◌, ◌*◌, ◌<◌, ◌≡◌, refl, ap, true, false, Option, none, some, List, [], ◌∷◌, ◌++◌,
  length, replicate, ltb, arith, if◌then◌else◌,
}
use vla_cpp.Common.Int.{pos}
use vla_cpp.Common.Text.{bytes_of}
use vla_cpp.HfFetch.Names.{Str}
use vla_cpp.HfFetch.Names.Match.{str_eq}
use vla_cpp.Gguf.{Reader, Codec, TensorType, t_f32, t_i8, Tensor}
use vla_cpp.Loader.{Ggml}
use vla_cpp.Loader.Upload.{Rounding, Writes, upload, padded_bytes}
use vla_cpp.Loader.Kept.{Call, call_declare, call_quant, calls, upload-calls}
use vla_cpp.Loader.Sized.{IsSized}
use vla_cpp.Loader.Whole.{new_loader, IsWhole, upload-IsWhole}
use vla_cpp.Loader.Padded.{rows_padded, padded_bytes-rows_padded}

abbrev two_floats : Tensor
two_floats = record { ne0 = 2; ne1 = 1; ne2 = 1; ne3 = 1; type_ = t_f32; offset = 0; size = 8 }

abbrev reader : Reader ℕ
reader = record {
  kv = λ k. none;
  tensor = λ name. if str_eq name (bytes_of "a") then some two_floats else none;
  data_off = 0;
  content = 7 ∷ 0 ∷ 0 ∷ 0 ∷ 3 ∷ 0 ∷ 0 ∷ 0 ∷ [];
  seekable = λ off. true;
}

abbrev every_fourth : Str → List ℕ
every_fourth (a ∷ b ∷ c ∷ d ∷ s) = a ∷ every_fourth s
every_fourth s = []

abbrev in_fours : List ℕ → Str
in_fours [] = []
in_fours (x ∷ xs) = x ∷ 0 ∷ 0 ∷ 0 ∷ in_fours xs

abbrev codec : Codec ℕ
codec = record {
  zero_value = 0;
  plus_one = suc;
  from_f32 = every_fourth;
  from_bf16 = every_fourth;
  from_f16 = every_fourth;
  from_packed = λ k s. s;
  to_f32 = in_fours;
  to_bf16 = in_fours;
  to_f16 = in_fours;
}

abbrev row_bytes : TensorType → ℕ → ℕ
row_bytes t_f32 n = n * 4
row_bytes t_i8 n = n
row_bytes _ n = n * 2

abbrev ggml : Ggml ℕ
ggml = record {
  row_size = row_bytes;
  n_dims = λ t. 2;
  has_room = λ ms m. ltb (length ms) 4;
  quantize = λ t fs n k. [];
}

abbrev rounding : Rounding ℕ
rounding = record {
  zero_f = 0;
  one_f = 1;
  qmax = λ bits. 127;
  fabs = λ x. x;
  max_f = λ x y. if ltb x y then y else x;
  less = ltb;
  div = λ x y. x;
  clamp_round = λ q x. pos x;
}

length-every_fourth : (n : ℕ) (s : Str) → length s ≡ n * 4 → length (every_fourth s) ≡ n
length-every_fourth zero [] e = refl
length-every_fourth zero (x ∷ s) e = absurd (omega (arith, e))
length-every_fourth (suc n) (a ∷ b ∷ c ∷ d ∷ s) e =
    ap suc (length-every_fourth n s (omega (arith, e)))
length-every_fourth (suc n) [] e = absurd (omega (arith, e))
length-every_fourth (suc n) (a ∷ []) e = absurd (omega (arith, e))
length-every_fourth (suc n) (a ∷ b ∷ []) e = absurd (omega (arith, e))
length-every_fourth (suc n) (a ∷ b ∷ c ∷ []) e = absurd (omega (arith, e))

length-in_fours : (xs : List ℕ) → length (in_fours xs) ≡ length xs * 4
length-in_fours [] = omega arith
length-in_fours (x ∷ xs) = omega (arith, length-in_fours xs)

ggml-IsSized : IsSized ggml codec
ggml-IsSized = record {
  f32_rows = λ n. refl;
  i8_rows = λ n. refl;
  to_f32 = length-in_fours;
  from_f32 = length-every_fourth;
}

two_wide : (s : Str) (t : Tensor) → reader.tensor s ≡ some t → 0 < t.ne0
two_wide s t e = ground (arith, e)

abbrev given_buffer : Option ℕ
given_buffer = some 5

abbrev asked : List (Call ℕ)
asked =
    call_declare t_f32 true false (bytes_of "a")
    ∷ call_quant 8 0 (bytes_of "q") (bytes_of "a") []
    ∷ []

abbrev asked_writes : Writes
asked_writes =
    (0, 7 ∷ 0 ∷ 0 ∷ 0 ∷ 3 ∷ 0 ∷ 0 ∷ 0 ∷ []) ∷ (1, 7 ∷ 3 ∷ []) ∷ (2, 7 ∷ 0 ∷ 0 ∷ 0 ∷ []) ∷ []

asked_bytes :
    upload ggml reader codec rounding given_buffer (calls ggml reader asked (new_loader t_f32))
    ≡ (true, given_buffer, asked_writes)
unfolding upload calls str_eq
asked_bytes = refl

upload-IsWhole_example :
    IsWhole ggml reader codec rounding two_wide ggml-IsSized
      (calls ggml reader asked (new_loader t_f32))
      (upload ggml reader codec rounding given_buffer
        (calls ggml reader asked (new_loader t_f32))).2
upload-IsWhole_example =
    upload-IsWhole ggml reader codec rounding two_wide ggml-IsSized given_buffer t_f32 asked
      (ap (λ r. r.0) asked_bytes)

missing_b : reader.tensor (bytes_of "b") ≡ none
unfolding str_eq
missing_b = refl

upload-calls_example :
    upload ggml reader codec rounding given_buffer (
      calls ggml reader
        (asked ++ call_declare t_f32 true false (bytes_of "b") ∷ asked)
        (new_loader t_f32))
    ≡ (false, none, [])
upload-calls_example =
    upload-calls ggml reader codec rounding given_buffer asked asked t_f32 false (bytes_of "b")
      (new_loader t_f32) missing_b

padded_bytes-rows_padded_example :
    padded_bytes ggml reader codec t_i8 two_floats (3, 2) (8 ∷ 9 ∷ [])
    ≡ rows_padded 2 3 (8 ∷ 9 ∷ []) 1 0 ++ replicate ((2 - 1) * 3) 0
padded_bytes-rows_padded_example =
    padded_bytes-rows_padded ggml reader codec t_i8 two_floats (3, 2) (8 ∷ 9 ∷ []) (omega arith)
      (omega arith) refl
