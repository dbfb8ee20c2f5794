-- ===== src/Gguf/Tests.antt =====
-- A file of seven bytes that holds three rows of two.
use vla_cpp.Common.{ℕ, ◌≡◌, refl, true, none, some, [], ◌∷◌, if◌then◌else◌, arith}
use vla_cpp.Common.Int.{pos}
use vla_cpp.HfFetch.Names.{Str}
use vla_cpp.Gguf.{Reader, Codec, fetch_loop}
use vla_cpp.Gguf.Fetched.{all_in, rows_of, fetch_loop-rows_of}

abbrev reader : Reader ℕ
reader = record {
  kv = λ k. none;
  tensor = λ name. none;
  data_off = 1;
  content = 0 ∷ 1 ∷ 2 ∷ 3 ∷ 4 ∷ 5 ∷ 6 ∷ [];
  seekable = λ off. true;
}

abbrev same : Str → Str
same s = s

abbrev codec : Codec ℕ
codec = record {
  zero_value = 0;
  plus_one = λ x. x;
  from_f32 = same;
  from_bf16 = same;
  from_f16 = same;
  from_packed = λ k. same;
  to_f32 = same;
  to_bf16 = same;
  to_f16 = same;
}

fetch_loop-rows_of_example : fetch_loop reader codec same 1 2 3 (pos 2 ∷ pos 0 ∷ []) ≡ (
    if all_in 3 (pos 2 ∷ pos 0 ∷ [])
    then some (rows_of reader codec same 1 2 3 (λ off. refl) (ground arith) (pos 2 ∷ pos 0 ∷ []))
    else none)
fetch_loop-rows_of_example =
    fetch_loop-rows_of reader codec same 1 2 3 (λ off. refl) (ground arith) (pos 2 ∷ pos 0 ∷ [])

-- The last row first; a row that is not there.
fetch_loop_last :
    fetch_loop reader codec same 1 2 3 (pos 2 ∷ pos 0 ∷ []) ≡ some (5 ∷ 6 ∷ 1 ∷ 2 ∷ [])
unfolding fetch_loop
fetch_loop_last = refl

fetch_loop_missing : fetch_loop reader codec same 1 2 3 (pos 3 ∷ []) ≡ none
unfolding fetch_loop
fetch_loop_missing = refl
