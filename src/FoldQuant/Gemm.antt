-- ===== src/FoldQuant/Gemm.antt =====
-- The GEMM of src/foldquant_ref.cpp: gemm_dot, and fq_gemm_cpu as each thread runs it.
-- A tensor is what the code reads of it: a weight row is its bytes, a row of the activation blob its
-- code bytes with its scale, and the output a function from flat indices.
pub mod Fill
pub mod Threads
pub mod Values
pub mod Range
use vla_cpp.Common.{
  ℕ, zero, suc, ◌+◌, ◌-◌, ◌*◌, ◌/◌, Bool, true, false, not, Option, none, some, List, [], ◌∷◌, map,
  min, ltb, ◌==◌, if◌then◌else◌,
}
use vla_cpp.Common.Int.{ℤ, pos, ◌+ℤ◌, ◌*ℤ◌}
use vla_cpp.FoldQuant.Floats.{FloatOps}
use vla_cpp.FoldQuant.Pack.{int8_of, unpack_nibbles}
use vla_cpp.FoldQuant.Layout.{GemmShape, fq_out_index, per_thread, first_row, end_row}
use vla_cpp.Common.Loops.{for_range, store}
use vla_cpp.FoldQuant.Activation.{fq_act_tail}

abbrev pub fq_gemm_magic : ℕ
fq_gemm_magic = 0x31474651

-- The node's specification and sources; `row_bytes` is `xq->ne[0]`.
pub record GemmNode (F : Type 0) : Type 0 where
  pub magic : ℕ
  pub K : ℕ
  pub wbits : ℕ
  pub shape : GemmShape
  pub glu : Bool
  pub w : ℕ → List ℕ
  pub xq : ℕ → List ℕ × F
  pub row_bytes : ℕ
  pub wscale : ℕ → F
  pub bias : Option (ℕ → F)
  pub residual : Option (ℕ → F)
  pub gate : Option (ℕ → F)

-- `acc += (int32_t) w_row[k] * (int32_t) x_row[k]`, from `acc`.
unfoldable pub dot_from : ℤ → List ℤ → List ℤ → ℤ
dot_from acc (w ∷ ws) (x ∷ xs) = dot_from (acc +ℤ w *ℤ x) ws xs
dot_from acc _ _ = acc

-- The codes of a row, unpacked if they are nibbles.
unfoldable pub codes_in : ℕ → List ℕ → List ℤ
codes_in bits bytes = if bits == 4 then unpack_nibbles bytes else map int8_of bytes

unfoldable pub blob_bits : {F : Type 0} → GemmNode F → ℕ
blob_bits g = if g.row_bytes == g.K + fq_act_tail then 8 else 4

-- `for (n = n0; n < n1; ++n) for (t = 0; t < T; ++t) y[index] = v`, over the columns that thread
-- `ith` has of `n_out`.
unfoldable pub thread_loop {ℓ} :
    {A : Type ℓ} → (ℕ → ℕ → ℕ) → (ℕ → ℕ → A) → ℕ → ℕ → ℕ → ℕ → (ℕ → A) → ℕ → A
unfolding first_row end_row for_range store
thread_loop index value T n_out ith nth y =
    let n0 = first_row n_out nth ith in
    let n1 = end_row n_out nth ith in
    for_range (n1 - n0) n0 (λ n y'. for_range T 0 (λ t y''. store (index t n) (value t n) y'') y') y

module _ (fl : FloatOps) where
  open fl use {F, zero_f, one_f, add, mul, of_int, tanh, half, sqrt_2_over_pi, gelu_cubic}

  unfoldable pub gemm_dot : List ℤ → List ℤ → F → F → F → F
  unfolding dot_from
  gemm_dot w_row x_row xs ws bias =
      let acc = dot_from (pos 0) w_row x_row in add (mul (mul (of_int acc) xs) ws) bias

  -- `bp ? bp[n] : 0.0f`
  abbrev pub bias_at : Option (ℕ → F) → ℕ → F
  bias_at none n = zero_f
  bias_at (some b) n = b n

  -- `if (rp) v = gtp ? rp[...] + v * gtp[n] : v + rp[...]`, the gate being read with a residual only.
  abbrev pub epilogue : Option (ℕ → F) → Option (ℕ → F) → ℕ → ℕ → F → F
  epilogue none gate i n v = v
  epilogue (some r) none i n v = add v (r i)
  epilogue (some r) (some gate) i n v = add (r i) (mul v (gate n))

  -- The GELU of src/foldquant_ref.h.
  unfoldable pub gelu_tanh : F → F
  gelu_tanh x =
      mul (mul half x)
        (add one_f (tanh (mul (mul sqrt_2_over_pi x) (add one_f (mul (mul gelu_cubic x) x)))))

  -- The GEMM of weight row `n` with token `t`.
  unfoldable pub dot_at : GemmNode F → ℕ → ℕ → F
  unfolding gemm_dot codes_in blob_bits
  dot_at g t n =
      let (x_bytes, xs) = g.xq t in
      gemm_dot (codes_in g.wbits (g.w n)) (codes_in (blob_bits g) x_bytes) xs (g.wscale n)
        (bias_at g.bias n)

  -- The value of output column `n` for token `t`, without and with the GEGLU.
  unfoldable pub gemm_value : GemmNode F → ℕ → ℕ → F
  unfolding dot_at
  gemm_value g t n = epilogue g.residual g.gate (t * g.shape.n_out + n) n (dot_at g t n)

  unfoldable pub glu_value : GemmNode F → ℕ → ℕ → F
  unfolding dot_at gelu_tanh
  glu_value g t n = mul (gelu_tanh (dot_at g t n)) (dot_at g t (n + g.shape.n_out / 2))

  unfoldable pub fq_gemm_cpu : GemmNode F → ℕ → ℕ → ℕ → (ℕ → F) → ℕ → F
  unfolding gemm_value glu_value thread_loop fq_out_index
  fq_gemm_cpu g T ith nth y =
      if not (g.magic == fq_gemm_magic)
      then y
      else (if g.glu
          then (let half_n = g.shape.n_out / 2 in
              thread_loop (λ t n. t * half_n + n) (glu_value g) T half_n ith nth y)
          else thread_loop (fq_out_index g.shape T) (gemm_value g) T g.shape.n_out ith nth y)
