-- ===== src/Options.antt =====
-- src/options.cpp: the options of the command line, of a policy's config.json and of VLA_NUM_STEPS.
-- Texts are Strings; strtol, the environment and the JSON reader are parameters.
pub mod Json
pub mod Valid
pub mod Merge
mod Tests
use Prim.Native.String.{String}
use text.Mathlib.Text.{◌==◌}
use vla_cpp.Common.{
  ℕ, zero, suc, ◌+◌, Bool, true, false, not, ◌&&◌, ◌||◌, Option, none, some, List, [], ◌∷◌, Result,
  ok, err, get_elem?, if◌then◌else◌,
}
use vla_cpp.Common.Int.{ℤ, pos, negsuc, leb_ℤ}

pub data Dtype : Type 0 where
  f32 : Dtype
  bf16 : Dtype
  f16 : Dtype

pub record Options : Type 0 where
  pub weight_dtype : Option Dtype
  pub act_dtype : Option Dtype
  pub flash_attn : Option Bool
  pub mm_prec_f32 : Option Bool
  pub num_steps : Option ℤ

unfoldable pub parse_dtype : String → Option Dtype
parse_dtype v =
    if v == "f32" || v == "fp32"
    then some f32
    else (if v == "bf16" || v == "bfp16"
        then some bf16
        else (if v == "f16" || v == "fp16" then some f16 else none))

unfoldable pub parse_bool : String → Option Bool
parse_bool v =
    if v == "1" || v == "true" || v == "on" || v == "yes"
    then some true
    else (if v == "0" || v == "false" || v == "off" || v == "no" then some false else none)

abbrev pub is_f16 : Dtype → Bool
is_f16 f16 = true
is_f16 _ = false

-- The texts of errors, by their reasons.
pub data OptionError : Type 0 where
  needs_value : String → OptionError
  bad_dtype : String → String → OptionError
  bad_act_dtype : String → OptionError
  bad_mm_prec : String → OptionError
  bad_num_steps : String → OptionError
  env_not_integer : String → OptionError
  steps_out_of_range : ℤ → OptionError
  json_bad_value : String → OptionError
  json_exception : OptionError

-- The options with the index of the last argument that was read; `none` for an argument that is not an
-- option of this parser.
abbrev pub Parsed : Type 0
Parsed = Result OptionError (Option (Options × ℕ))

abbrev pub in_steps : ℤ → Bool
in_steps n = leb_ℤ (pos 1) n && leb_ℤ n (pos 1000)

-- `next(v)`, and then the rest of the option.
abbrev pub with_value : String → Option String → (String → Parsed) → Parsed
with_value a none k = err (needs_value a)
with_value a (some v) k = k v

unfoldable pub parse_weight : Options → ℕ → String → Parsed
unfolding parse_dtype
parse_weight o i v = elim (parse_dtype v) [
  | none ↦ err (bad_dtype "--weight-dtype" v)
  | some t ↦ ok (some (record o { weight_dtype = some t }, suc i))
]

unfoldable pub parse_act : Options → ℕ → String → Parsed
unfolding parse_dtype
parse_act o i v = elim (parse_dtype v) [
  | none ↦ err (bad_dtype "--act-dtype" v)
  | some t ↦
      if is_f16 t then err (bad_act_dtype v) else ok (some (record o { act_dtype = some t }, suc i))
]

-- A value that is no word for a truth value is left to the next call; an empty one is no such word,
-- and a text that starts with '-' is none either.
unfoldable pub parse_flash : Options → ℕ → Option String → Parsed
unfolding parse_bool
parse_flash o i none = ok (some (record o { flash_attn = some true }, i))
parse_flash o i (some v) = elim (parse_bool v) [
  | none ↦ ok (some (record o { flash_attn = some true }, i))
  | some b ↦ ok (some (record o { flash_attn = some b }, suc i))
]

unfoldable pub parse_prec : Options → ℕ → String → Parsed
parse_prec o i v =
    if v == "default"
    then ok (some (record o { mm_prec_f32 = some false }, suc i))
    else (if v == "f32"
        then ok (some (record o { mm_prec_f32 = some true }, suc i))
        else err (bad_mm_prec v))

-- A number and whether strtol read the whole text.
module _ (strtol : String → ℤ × Bool) where
  unfoldable pub parse_steps : Options → ℕ → String → Parsed
  parse_steps o i v =
      let (n, whole) = strtol v in
      if not whole || not (in_steps n)
      then err (bad_num_steps v)
      else (ok (some (record o { num_steps = some n }, suc i)))

  -- `argv[i]` is `a`, and `value` is `argv[i + 1]` if there is one.
  unfoldable pub parse_arg : Options → ℕ → String → Option String → Parsed
  unfolding parse_weight parse_act parse_flash parse_prec parse_steps
  parse_arg o i a value =
      if a == "--weight-dtype"
      then with_value a value (parse_weight o i)
      else (if a == "--act-dtype"
          then with_value a value (parse_act o i)
          else (if a == "--flash-attn"
              then parse_flash o i value
              else (if a == "--mm-prec"
                  then with_value a value (parse_prec o i)
                  else (if a == "--num-steps"
                      then with_value a value (parse_steps o i)
                      else ok none))))

  -- `steps` is the checkpoint's number, `env` the value of VLA_NUM_STEPS.
  unfoldable pub chosen_steps : Options → Option String → ℤ → Result OptionError ℤ
  chosen_steps o env steps = elim o.num_steps [
    | some n ↦ ok n
    | none ↦ elim env [
      | none ↦ ok steps
      | some e ↦
          let (n, whole) = strtol e in
          if e == "" then ok steps else (if whole then ok n else err (env_not_integer e))
    ]
  ]

  unfoldable pub resolve_num_steps : Options → Option String → ℤ → Result OptionError ℤ
  unfolding chosen_steps
  resolve_num_steps o env steps = elim (chosen_steps o env steps) [
    | err why ↦ err why
    | ok v ↦ if in_steps v then ok v else err (steps_out_of_range v)
  ]
