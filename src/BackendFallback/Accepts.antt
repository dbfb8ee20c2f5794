-- ===== src/BackendFallback/Accepts.antt =====
-- accel_runs of src/backend_fallback.cpp: what the accelerator is given, and why it is not given the
-- rest.
use vla_cpp.Common.{
  ℕ, zero, suc, ◌*◌, Bool, true, false, not, ◌&&◌, ◌||◌, Option, none, some, ltb, leb, ◌==◌,
  if◌then◌else◌,
}
use vla_cpp.Common.Int.{ℤ, pos, eq_ℤ}
use vla_cpp.BackendFallback.Graph.{
  op_unary, op_add, op_sub, op_mul, op_div, op_im2col, op_concat, op_mul_mat, op_cpy, op_cont,
  op_pad, op_repeat, Ggml, is_weight,
}

-- The texts that report prints.
pub data Why : Type 0 where
  rejects : Why
  gelu_as_quick : Why
  gapped_broadcast : Why
  overlapping_or_padded : Why
  non_row : Why
  weight_against_batch : Why
  weight_reading : Why
  stale_data : Why
  large_transposing : Why

-- The loop of broadcast_has_gap over the dimensions from `d`.
unfoldable pub gap_from : ℕ → ℕ → Bool → (ℕ → ℕ) → (ℕ → ℕ) → Bool
gap_from zero d below a b = false
gap_from (suc n) d below a b =
    let rest = gap_from n (suc d) (below || (b d == 1 && ltb 1 (a d))) a b in
    if b d == 1 && ltb 1 (a d) then rest else (if ltb 1 (b d) && below then true else rest)

unfoldable pub broadcast_has_gap : (ℕ → ℕ) → (ℕ → ℕ) → Bool
unfolding gap_from
broadcast_has_gap a b = gap_from 3 1 false a b

abbrev same_but_rows : (ℕ → ℕ) → (ℕ → ℕ) → Bool
same_but_rows a t = a 0 == t 0 && a 2 == t 2 && a 3 == t 3

unfoldable pub concat_is_dma_row_copy : Ggml → ℕ → Bool
concat_is_dma_row_copy g t =
    let o = g.at t in
    elim (o.src 0) [
      | none ↦ false
      | some i ↦ elim (o.src 1) [
        | none ↦ false
        | some j ↦
            let a = g.at i in
            let b = g.at j in
            eq_ℤ (o.op_params 0) (pos 1)
            && a.type == o.type
            && b.type == o.type
            && g.is_contiguous i
            && g.is_contiguous j
            && g.is_contiguous t
            && same_but_rows a.ne o.ne
            && same_but_rows b.ne o.ne
            && leb (a.ne 1) 65535
            && leb (b.ne 1) 65535
            && leb (o.nb 1) 0xffffff
      ]
    ]

-- A test on `t->src[s]`, which ggml sets for the ops that are asked.
abbrev pub on_src : Ggml → ℕ → ℕ → (ℕ → Bool) → Bool
on_src g t s test = elim ((g.at t).src s) [ none ↦ false | some i ↦ test i ]

-- The patch embeddings that IM2COL was written for; `p` are s0 s1 p0 p1 d0 d1 is_2D.
unfoldable pub is_patch : (ℕ → ℤ) → (ℕ → ℕ) → Bool
is_patch p kernel =
    let flat = eq_ℤ (p 6) (pos 0) in
    let kh = if flat then 1 else kernel 1 in
    eq_ℤ (p 2) (pos 0)
    && eq_ℤ (p 3) (pos 0)
    && eq_ℤ (p 4) (pos 1)
    && eq_ℤ (p 5) (pos 1)
    && ltb 1 (kernel 0)
    && eq_ℤ (p 0) (pos (kernel 0))
    && (flat || eq_ℤ (p 1) (pos kh))

abbrev arithmetic_gap : Ggml → ℕ → Bool
arithmetic_gap g t =
    on_src g t 0 (λ i. on_src g t 1 (λ j. broadcast_has_gap (g.at i).ne (g.at j).ne))

-- The refusals that concern the op of `t`, on an HTP session.
unfoldable pub hexagon_refuses : Ggml → ℕ → Option Why
unfolding broadcast_has_gap concat_is_dma_row_copy is_patch is_weight
hexagon_refuses g t = elim (g.at t).op [
  | op_unary ↦ if g.is_gelu t then some gelu_as_quick else none
  | op_add ↦ if arithmetic_gap g t then some gapped_broadcast else none
  | op_sub ↦ if arithmetic_gap g t then some gapped_broadcast else none
  | op_mul ↦ if arithmetic_gap g t then some gapped_broadcast else none
  | op_div ↦ if arithmetic_gap g t then some gapped_broadcast else none
  | op_im2col ↦
      if on_src g t 0 (λ i. not (is_patch (g.at t).op_params (g.at i).ne))
      then some overlapping_or_padded
      else none
  | op_concat ↦ if concat_is_dma_row_copy g t then none else some non_row
  | op_mul_mat ↦
      if on_src g t 0 (λ i. (g.at i).ne 2 * (g.at i).ne 3 == 1)
        && on_src g t 1 (λ j. ltb 1 ((g.at j).ne 2 * (g.at j).ne 3))
      then some weight_against_batch
      else none
  | op_cpy ↦ if on_src g t 0 (is_weight g) then some weight_reading else none
  | op_pad ↦ if on_src g t 0 (is_weight g) then some weight_reading else none
  | op_repeat ↦ if on_src g t 0 (λ i. not (is_weight g i)) then some stale_data else none
  | op_cont ↦
      if on_src g t 0 (λ i. not ((g.at i).nb 0 == g.type_size (g.at i).type))
        && leb (256 * 1024) (g.nelements t)
      then some large_transposing
      else none
  | _ ↦ none
]

-- `none` when the accelerator runs `t`, else the reason.
unfoldable pub accel_runs : Bool → Ggml → ℕ → Option Why
unfolding hexagon_refuses
accel_runs hexagon g t =
    let asked = if g.supports_op t then none else some rejects in
    if hexagon then (elim (hexagon_refuses g t) [ some why ↦ some why | none ↦ asked ]) else asked
