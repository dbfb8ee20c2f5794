-- ===== src/Options/Merge.antt =====
-- A policy's config.json does not override the command line, and leaves the options valid.
use Prim.Native.String.{String}
use text.Mathlib.Text.{◌==◌}
use vla_cpp.Common.{
  ◌≡◌, refl, inl, inr, Bool, true, false, not, ◌&&◌, Option, none, some, Result, ok, err, arith,
  Bool-cases, Option-cases, ok-injective, err-ne-ok,
}
use vla_cpp.Common.Int.{ℤ}
use vla_cpp.Options.{Dtype, Options, parse_dtype, is_f16, OptionError, in_steps}
use vla_cpp.Options.Json.{
  Member, absent, other_type, value, Runtime, json_dtype, json_flash, json_prec, json_steps, merge,
  merge_runtime, or_else,
}
use vla_cpp.Options.Valid.{IsSteps, OptAll, IsValid, in_steps-IsSteps}

-- A value that is set stays.
abbrev pub Stays : {A : Type 0} → Option A → Option A → Type 0
Stays {A} old new = (a : A) → old ≡ some a → new ≡ some a

abbrev pub Keeps : Options → Options → Type 0
Keeps o o' =
    Stays o.weight_dtype o'.weight_dtype
    × Stays o.act_dtype o'.act_dtype
    × Stays o.flash_attn o'.flash_attn
    × Stays o.mm_prec_f32 o'.mm_prec_f32
    × Stays o.num_steps o'.num_steps

Stays-or_else : {A : Type 0} (dst : Option A) (v : A) → Stays dst (or_else dst v)
Stays-or_else none v a e = ground arith
Stays-or_else (some old) v a e = e

OptAll-or_else :
    {A : Type 0} (P : A → Type 0) (dst : Option A) (v : A)
    → OptAll P dst
    → P v
    → OptAll P (or_else dst v)
OptAll-or_else P none v h p = p
OptAll-or_else P (some old) v h p = h

merge_lem :
    {A : Type 0} (P : Options → Type 0) (o : Options) (m : Result OptionError A) (set : A → Options)
    (k : Options → Options × Option OptionError)
    → P o
    → ((v : A) → m ≡ ok v → P (set v))
    → ((o' : Options) → P o' → P (k o').0)
    → P (merge o m set k).0
merge_lem P o (err why) set k p q r = p
merge_lem P o (ok v) set k p q r = r (set v) (q v refl)

json_dtype-Stays :
    (allow : Bool) (k : String) (m : Member String) (dst out : Option Dtype)
    → json_dtype allow k m dst ≡ ok out
    → Stays dst out
unfolding json_dtype
json_dtype-Stays allow k absent dst out h = rw (ok-injective h) (λ a e. e)
json_dtype-Stays allow k other_type dst out h = absurd (err-ne-ok h)
json_dtype-Stays allow k (value v) dst out h = elim (Option-cases (parse_dtype v)) [
  | inl bad ↦ absurd (err-ne-ok (rw (bad, json_dtype) at h))
  | inr (t, good) ↦ elim (Bool-cases (not allow && is_f16 t)) [
    | inl half ↦ absurd (err-ne-ok (rw (good, half, json_dtype) at h))
    | inr fine ↦ rw (← ok-injective (rw (good, fine, json_dtype) at h)) (Stays-or_else dst t)
  ]
]

json_dtype-OptAll :
    (k : String) (m : Member String) (dst out : Option Dtype)
    → json_dtype false k m dst ≡ ok out
    → OptAll (λ t. is_f16 t ≡ false) dst
    → OptAll (λ t. is_f16 t ≡ false) out
unfolding json_dtype
json_dtype-OptAll k absent dst out h p = rw (← ok-injective h) p
json_dtype-OptAll k other_type dst out h p = absurd (err-ne-ok h)
json_dtype-OptAll k (value v) dst out h p = elim (Option-cases (parse_dtype v)) [
  | inl bad ↦ absurd (err-ne-ok (rw (bad, json_dtype) at h))
  | inr (t, good) ↦ elim (Bool-cases (is_f16 t)) [
    | inl half ↦ absurd (err-ne-ok (rw (good, half, json_dtype) at h))
    | inr fine ↦
        rw (← ok-injective (rw (good, fine, json_dtype) at h)) (OptAll-or_else _ dst t p fine)
  ]
]

json_flash-Stays :
    (m : Member Bool) (dst out : Option Bool) → json_flash m dst ≡ ok out → Stays dst out
unfolding json_flash
json_flash-Stays absent dst out h = rw (ok-injective h) (λ a e. e)
json_flash-Stays (value b) none out h = λ a e. ground arith
json_flash-Stays other_type none out h = absurd (err-ne-ok h)
json_flash-Stays (value b) (some old) out h = rw (ok-injective h) (λ a e. e)
json_flash-Stays other_type (some old) out h = rw (ok-injective h) (λ a e. e)

json_prec-Stays :
    (m : Member String) (dst out : Option Bool) → json_prec m dst ≡ ok out → Stays dst out
unfolding json_prec
json_prec-Stays absent dst out h = rw (ok-injective h) (λ a e. e)
json_prec-Stays other_type dst out h = absurd (err-ne-ok h)
json_prec-Stays (value v) dst out h = elim (Bool-cases (not (v == "default") && not (v == "f32"))) [
  | inl bad ↦ absurd (err-ne-ok (rw (bad, json_prec) at h))
  | inr fine ↦ rw (← ok-injective (rw (fine, json_prec) at h)) (Stays-or_else dst (v == "f32"))
]

json_steps-Stays :
    (m : Member ℤ) (dst out : Option ℤ)
    → json_steps m dst ≡ ok out
    → OptAll IsSteps dst
    → Stays dst out × OptAll IsSteps out
unfolding json_steps
json_steps-Stays absent dst out h p = rw (← ok-injective h) (λ a e. e, p)
json_steps-Stays other_type dst out h p = absurd (err-ne-ok h)
json_steps-Stays (value n) dst out h p = elim (Bool-cases (in_steps n)) [
  | inl inside ↦
      rw (← ok-injective (rw (inside, json_steps) at h))
        (Stays-or_else dst n, OptAll-or_else IsSteps dst n p (in_steps-IsSteps n inside))
  | inr outside ↦ absurd (err-ne-ok (rw (outside, json_steps) at h))
]

abbrev Kept : Options → Options → Type 0
Kept o o' = IsValid o' × Keeps o o'

-- For valid options and whatever the JSON object holds, also where it is refused half-way: the options
-- stay valid, and each value that was set before is kept.
pub merge_runtime-Keeps :
    (r : Runtime) (o : Options)
    → IsValid o
    → IsValid (merge_runtime r o).0 × Keeps o (merge_runtime r o).0
unfolding merge_runtime
merge_runtime-Keeps r o (va, vs) =
    merge_lem (Kept o) o _ _ _ ((va, vs), (λ a e. e, λ a e. e, λ a e. e, λ a e. e, λ a e. e))
      (λ v h. (
        (va, vs),
        (
          json_dtype-Stays true "weight_dtype" r.j_weight_dtype o.weight_dtype v h,
          λ a e. e,
          λ a e. e,
          λ a e. e,
          λ a e. e,
        ),
      ))
      (λ o1 ((a1, s1), (w1, d1, f1, p1, n1)).
        merge_lem (Kept o) o1 _ _ _ ((a1, s1), (w1, d1, f1, p1, n1))
          (λ v h. (
            (json_dtype-OptAll "act_dtype" r.j_act_dtype o1.act_dtype v h a1, s1),
            (
              w1,
              λ a e. json_dtype-Stays false "act_dtype" r.j_act_dtype o1.act_dtype v h a (d1 a e),
              f1,
              p1,
              n1,
            ),
          ))
          (λ o2 ((a2, s2), (w2, d2, f2, p2, n2)).
            merge_lem (Kept o) o2 _ _ _ ((a2, s2), (w2, d2, f2, p2, n2))
              (λ v h. (
                (a2, s2),
                (
                  w2,
                  d2,
                  λ a e. json_flash-Stays r.j_flash_attn o2.flash_attn v h a (f2 a e),
                  p2,
                  n2,
                ),
              ))
              (λ o3 ((a3, s3), (w3, d3, f3, p3, n3)).
                merge_lem (Kept o) o3 _ _ _ ((a3, s3), (w3, d3, f3, p3, n3))
                  (λ v h. (
                    (a3, s3),
                    (
                      w3,
                      d3,
                      f3,
                      λ a e. json_prec-Stays r.j_mm_prec o3.mm_prec_f32 v h a (p3 a e),
                      n3,
                    ),
                  ))
                  (λ o4 ((a4, s4), (w4, d4, f4, p4, n4)).
                    merge_lem (Kept o) o4 _ _ _ ((a4, s4), (w4, d4, f4, p4, n4))
                      (λ v h.
                        let (stays, inside) = json_steps-Stays r.j_num_steps o4.num_steps v h s4 in
                        ((a4, inside), (w4, d4, f4, p4, λ a e. stays a (n4 a e))))
                      (λ o5 h. h)))))
