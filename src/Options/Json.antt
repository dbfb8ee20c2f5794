-- ===== src/Options/Json.antt =====
-- load_json of src/options.cpp, from the object "runtime" on: the options of a policy's config.json.
use Prim.Native.String.{String}
use text.Mathlib.Text.{◌==◌}
use vla_cpp.Common.{
  Bool, true, false, not, ◌&&◌, Option, none, some, Result, ok, err, if◌then◌else◌,
}
use vla_cpp.Common.Int.{ℤ}
use vla_cpp.Options.{
  Dtype, Options, parse_dtype, is_f16, OptionError, json_bad_value, json_exception, in_steps,
}

-- A member of the JSON object "runtime", read as a type: reading a member of another type throws.
pub data Member (A : Type 0) : Type 0 where
  absent : Member A
  other_type : Member A
  value : A → Member A

pub record Runtime : Type 0 where
  pub j_weight_dtype : Member String
  pub j_act_dtype : Member String
  pub j_flash_attn : Member Bool
  pub j_mm_prec : Member String
  pub j_num_steps : Member ℤ

-- `if (!dst) dst = v`
abbrev pub or_else {ℓ} : {A : Type ℓ} → Option A → A → Option A
or_else none v = some v
or_else (some old) v = some old

-- The lambda `dtype`: what is left in `dst`, or the error.
unfoldable pub json_dtype :
    Bool → String → Member String → Option Dtype → Result OptionError (Option Dtype)
unfolding parse_dtype
json_dtype allow_f16 k absent dst = ok dst
json_dtype allow_f16 k other_type dst = err json_exception
json_dtype allow_f16 k (value v) dst = elim (parse_dtype v) [
  | none ↦ err (json_bad_value k)
  | some t ↦ if not allow_f16 && is_f16 t then err (json_bad_value k) else ok (or_else dst t)
]

-- A member of another type is read, and throws, only where no value is set.
unfoldable pub json_flash : Member Bool → Option Bool → Result OptionError (Option Bool)
json_flash absent dst = ok dst
json_flash (value b) none = ok (some b)
json_flash other_type none = err json_exception
json_flash m (some old) = ok (some old)

unfoldable pub json_prec : Member String → Option Bool → Result OptionError (Option Bool)
json_prec absent dst = ok dst
json_prec other_type dst = err json_exception
json_prec (value v) dst =
    if not (v == "default") && not (v == "f32")
    then err (json_bad_value "mm_prec")
    else ok (or_else dst (v == "f32"))

unfoldable pub json_steps : Member ℤ → Option ℤ → Result OptionError (Option ℤ)
json_steps absent dst = ok dst
json_steps other_type dst = err (json_bad_value "num_steps")
json_steps (value n) dst =
    if in_steps n then ok (or_else dst n) else err (json_bad_value "num_steps")

-- One member after the other; the options keep what was merged before an error.
abbrev pub merge :
    {A : Type 0}
    → Options
    → Result OptionError A
    → (A → Options)
    → (Options → Options × Option OptionError)
    → Options × Option OptionError
merge o (err why) set k = (o, some why)
merge o (ok v) set k = k (set v)

-- The second `try` of load_json.
unfoldable pub merge_runtime : Runtime → Options → Options × Option OptionError
unfolding json_dtype json_flash json_prec json_steps
merge_runtime r o =
    merge o (json_dtype true "weight_dtype" r.j_weight_dtype o.weight_dtype)
      (λ v. record o { weight_dtype = v })
      (λ o1.
        merge o1 (json_dtype false "act_dtype" r.j_act_dtype o1.act_dtype)
          (λ v. record o1 { act_dtype = v })
          (λ o2.
            merge o2 (json_flash r.j_flash_attn o2.flash_attn) (λ v. record o2 { flash_attn = v })
              (λ o3.
                merge o3 (json_prec r.j_mm_prec o3.mm_prec_f32) (λ v. record o3 { mm_prec_f32 = v })
                  (λ o4.
                    merge o4 (json_steps r.j_num_steps o4.num_steps)
                      (λ v. record o4 { num_steps = v }) (λ o5. (o5, none))))))
