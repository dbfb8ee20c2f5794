-- ===== src/Options/Tests.antt =====
-- Options at concrete inputs.
use Prim.Native.String.{String}
use text.Mathlib.Text.{◌==◌}
use vla_cpp.Common.{◌≡◌, refl, Bool, true, false, none, some, ok, err, if◌then◌else◌, arith}
use vla_cpp.Common.Int.{ℤ, pos}
use vla_cpp.Options.{bf16, Options, parse_arg, resolve_num_steps, bad_act_dtype, json_bad_value}
use vla_cpp.Options.Json.{absent, value, Runtime, merge_runtime}
use vla_cpp.Options.Valid.{IsValid}
use vla_cpp.Options.Merge.{Keeps, merge_runtime-Keeps}

-- It reads "10" and "2000" and nothing else.
abbrev read_number : String → ℤ × Bool
read_number s =
    if s == "10" then (pos 10, true) else (if s == "2000" then (pos 2000, true) else (pos 0, false))

abbrev start : Options
start = record {
  weight_dtype = some bf16;
  act_dtype = none;
  flash_attn = none;
  mm_prec_f32 = none;
  num_steps = some (pos 10);
}

abbrev start-IsValid : IsValid start
start-IsValid = (tt, (omega arith, omega arith))

half_test : parse_arg read_number start 1 "--act-dtype" (some "f16") ≡ err (bad_act_dtype "f16")
unfolding parse_arg
half_test = refl

ten : resolve_num_steps read_number start (some "2000") (pos 4) ≡ ok (pos 10)
unfolding resolve_num_steps
ten = refl

abbrev runtime : Runtime
runtime = record {
  j_weight_dtype = value "f16";
  j_act_dtype = value "bf16";
  j_flash_attn = value true;
  j_mm_prec = absent;
  j_num_steps = value (pos 2000);
}

merge_test : merge_runtime runtime start ≡ (
  record start { act_dtype = some bf16; flash_attn = some true },
  some (json_bad_value "num_steps"),
)
unfolding merge_runtime
merge_test = refl

merge_runtime-Keeps_example :
    IsValid (merge_runtime runtime start).0 × Keeps start (merge_runtime runtime start).0
merge_runtime-Keeps_example = merge_runtime-Keeps runtime start start-IsValid
