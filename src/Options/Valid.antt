-- ===== src/Options/Valid.antt =====
-- Every way to set options leaves them valid.
use Prim.Native.String.{String}
use text.Mathlib.Text.{◌==◌}
use vla_cpp.Common.{
  ℕ, suc, ◌≤◌, ◌≡◌, sym, inl, inr, Bool, true, false, not, ◌||◌, Option, none, some, ok, err, arith,
  Bool-cases, Option-cases, ok-injective, err-ne-ok, Result-cases,
}
use vla_cpp.Common.Int.{ℤ, pos, negsuc}
use vla_cpp.Options.{
  Options, parse_dtype, parse_bool, is_f16, in_steps, Parsed, parse_weight, parse_act, parse_flash,
  parse_prec, parse_steps, with_value, parse_arg, chosen_steps, resolve_num_steps,
}

-- A count of solver steps.
abbrev pub IsSteps : ℤ → Type 0
IsSteps (pos n) = (1 ≤ n) × (n ≤ 1000)
IsSteps (negsuc n) = ⊥

abbrev pub OptAll : {A : Type 0} → (A → Type 0) → Option A → Type 0
OptAll P none = Unit
OptAll P (some a) = P a

-- Activations are never f16, and the steps are in range.
abbrev pub IsValid : Options → Type 0
IsValid o = OptAll (λ t. is_f16 t ≡ false) o.act_dtype × OptAll IsSteps o.num_steps

pub in_steps-IsSteps : (n : ℤ) → in_steps n ≡ true → IsSteps n
in_steps-IsSteps (pos n) h = ground arith
in_steps-IsSteps (negsuc n) h = ground arith

-- What a parsed argument leaves: valid options, and at most one more argument read.
abbrev pub IsTaken : ℕ → Parsed → Type 0
IsTaken i (err why) = Unit
IsTaken i (ok none) = Unit
IsTaken i (ok (some (o, j))) = IsValid o × (i ≤ j) × (j ≤ suc i)

module _ (o : Options) (i : ℕ) (valid : IsValid o) where
  weight-IsTaken : (v : String) → IsTaken i (parse_weight o i v)
  unfolding parse_weight
  weight-IsTaken v = elim (Option-cases (parse_dtype v)) [
    | inl bad ↦ rw (bad, IsTaken) tt
    | inr (t, good) ↦ rw (good, IsTaken) (valid, omega arith, omega arith)
  ]

  act-IsTaken : (v : String) → IsTaken i (parse_act o i v)
  unfolding parse_act
  act-IsTaken v = elim (Option-cases (parse_dtype v)) [
    | inl bad ↦ rw (bad, IsTaken) tt
    | inr (t, good) ↦ elim (Bool-cases (is_f16 t)) [
      | inl half ↦ rw (good, half, IsTaken) tt
      | inr other ↦ rw (good, other, IsTaken) ((other, valid.1), omega arith, omega arith)
    ]
  ]

  flash-IsTaken : (v : Option String) → IsTaken i (parse_flash o i v)
  unfolding parse_flash
  flash-IsTaken none = (valid, omega arith, omega arith)
  flash-IsTaken (some v) = elim (Option-cases (parse_bool v)) [
    | inl bad ↦ rw (bad, IsTaken) (valid, omega arith, omega arith)
    | inr (b, good) ↦ rw (good, IsTaken) (valid, omega arith, omega arith)
  ]

  prec-IsTaken : (v : String) → IsTaken i (parse_prec o i v)
  unfolding parse_prec
  prec-IsTaken v = elim (Bool-cases (v == "default")) [
    | inl first ↦ rw (first, IsTaken) (valid, omega arith, omega arith)
    | inr other ↦ elim (Bool-cases (v == "f32")) [
      | inl second ↦ rw (other, second, IsTaken) (valid, omega arith, omega arith)
      | inr bad ↦ rw (other, bad, IsTaken) tt
    ]
  ]

  module _ (strtol : String → ℤ × Bool) where
    steps-IsTaken : (v : String) → IsTaken i (parse_steps strtol o i v)
    unfolding parse_steps
    steps-IsTaken v =
        let (n, all_read) = strtol v in
        elim (Bool-cases (not all_read || not (in_steps n))) [
          | inl bad ↦ rw (bad, IsTaken) tt
          | inr good ↦
              rw (good, IsTaken)
                ((valid.0, in_steps-IsSteps n (ground arith)), omega arith, omega arith)
        ]

    value-IsTaken :
        (a : String) (v : Option String) (k : String → Parsed)
        → ((w : String) → IsTaken i (k w))
        → IsTaken i (with_value a v k)
    value-IsTaken a none k h = tt
    value-IsTaken a (some w) k h = h w

    -- For valid options and whatever the command line holds: when an argument is taken the options are
    -- valid again, with no f16 activations and between 1 and 1000 steps, and at most the one argument
    -- behind it is read.
    pub parse_arg-IsTaken : (a : String) (v : Option String) → IsTaken i (parse_arg strtol o i a v)
    unfolding parse_arg
    parse_arg-IsTaken a v = elim (Bool-cases (a == "--weight-dtype")) [
      | inl here ↦ rw (here, IsTaken) (value-IsTaken a v _ weight-IsTaken)
      | inr n1 ↦ elim (Bool-cases (a == "--act-dtype")) [
        | inl here ↦ rw (n1, here, IsTaken) (value-IsTaken a v _ act-IsTaken)
        | inr n2 ↦ elim (Bool-cases (a == "--flash-attn")) [
          | inl here ↦ rw (n1, n2, here, IsTaken) (flash-IsTaken v)
          | inr n3 ↦ elim (Bool-cases (a == "--mm-prec")) [
            | inl here ↦ rw (n1, n2, n3, here, IsTaken) (value-IsTaken a v _ prec-IsTaken)
            | inr n4 ↦ elim (Bool-cases (a == "--num-steps")) [
              | inl here ↦ rw (n1, n2, n3, n4, here, IsTaken) (value-IsTaken a v _ steps-IsTaken)
              | inr n5 ↦ rw (n1, n2, n3, n4, n5, IsTaken) tt
            ]
          ]
        ]
      ]
    ]

-- A number that resolve_num_steps gives is between 1 and 1000, whatever the options, the environment
-- and the checkpoint hold, and it is the number of the options if they have one.
pub resolve_num_steps-IsSteps :
    (strtol : String → ℤ × Bool) (o : Options) (env : Option String) (steps n : ℤ)
    → resolve_num_steps strtol o env steps ≡ ok n
    → IsSteps n × ((m : ℤ) → o.num_steps ≡ some m → n ≡ m)
unfolding resolve_num_steps
resolve_num_steps-IsSteps strtol o env steps n h =
    elim (Result-cases (chosen_steps strtol o env steps)) [
      | inl (why, bad) ↦ absurd (err-ne-ok (rw (bad, resolve_num_steps) at h))
      | inr (v, good) ↦ elim (Bool-cases (in_steps v)) [
        | inl inside ↦
            let same = ok-injective (rw (good, inside, resolve_num_steps) at h) in
            rw (← same) (in_steps-IsSteps v inside, λ m e. first m v e good)
        | inr outside ↦ absurd (err-ne-ok (rw (good, outside, resolve_num_steps) at h))
      ]
    ]
  where
    first : (m v : ℤ) → o.num_steps ≡ some m → chosen_steps strtol o env steps ≡ ok v → v ≡ m
    first m v e good = sym (ok-injective (rw (e, chosen_steps) at good))
