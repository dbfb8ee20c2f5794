-- ===== src/FoldQuant/Node/Rows.antt =====
-- The rows that fq_act_cpu and fq_glu_act_cpu of src/foldquant_ref.cpp leave in the blob.
use mathlib.Core.Path.{fun_ext}
use vla_cpp.Common.{
  ℕ, ◌+◌, ◌*◌, ◌/◌, ◌<◌, ◌≡◌, refl, arith, true, ==_iff, inl, Option, none, List, [], ◌∷◌,
}
use vla_cpp.FoldQuant.Floats.{FloatOps}
use vla_cpp.FoldQuant.Activation.{FqActSpec, act_row}
use vla_cpp.FoldQuant.Gemm.{GemmNode, fq_gemm_magic, glu_value, thread_loop}
use vla_cpp.FoldQuant.Gemm.Fill.{fill_hit}
use vla_cpp.FoldQuant.Gemm.Threads.{run_threads, run_threads-value, IsFull}
use vla_cpp.FoldQuant.Gemm.Values.{fq_gemm_cpu-glu_value}
use vla_cpp.FoldQuant.Node.{
  fq_act_magic, fq_glu_act_magic, fq_act_srcs, fq_act_cpu, without_residual, glu_output,
  fq_glu_act_cpu,
}

module _ (fl : FloatOps) (s : FqActSpec fl.F) where
  open fl use {F}

  abbrev row_value : (ℕ → ℕ → F) → (ℕ → Option (ℕ → F)) → ℕ → List ℕ × F
  row_value x src t =
      let srcs = fq_act_srcs s src in act_row fl s (x t) srcs.ascale srcs.gamma srcs.shift

  act_cpu_loop :
      (x : ℕ → ℕ → F) (src : ℕ → Option (ℕ → F)) (T ith nth : ℕ) (rows : ℕ → List ℕ × F)
      → s.magic ≡ fq_act_magic
      → fq_act_cpu fl s x src T ith nth rows
        ≡ thread_loop (λ _ t. t) (λ _ t. row_value x src t) 1 T ith nth rows
  unfolding fq_act_cpu thread_loop
  act_cpu_loop x src T ith nth rows magic = rw ((==_iff s.magic fq_act_magic).1 magic) refl

  -- For a node with the act's magic and at least one thread: when every thread has run, in any order,
  -- each row below `T` holds the codes and the scale that act_row makes of this row of the source,
  -- with the vectors that the specification announces, whatever was in the blob.
  pub fq_act_cpu-act_row :
      (x : ℕ → ℕ → F) (src : ℕ → Option (ℕ → F)) (T nth t : ℕ) (iths : List ℕ)
      (rows : ℕ → List ℕ × F)
      → s.magic ≡ fq_act_magic
      → t < T
      → 0 < nth
      → IsFull nth iths
      → run_threads (λ ith. fq_act_cpu fl s x src T ith nth) iths rows t
        ≡ (let srcs = fq_act_srcs s src in act_row fl s (x t) srcs.ascale srcs.gamma srcs.shift)
  fq_act_cpu-act_row x src T nth t iths rows magic row some_thread full =
      rw (fun_ext (λ ith. fun_ext (λ rows'. act_cpu_loop x src T ith nth rows' magic))) (
        run_threads-value (λ _ u. u) (λ _ u. row_value x src u) 1 T nth 0 t (omega arith) row
          (λ u m p q e. (omega arith, e)) iths rows some_thread full)

  module _ (g : GemmNode fl.F) (gemm_magic : g.magic ≡ fq_gemm_magic) (glu : g.glu ≡ true) where
    first_alone : IsFull 1 (0 ∷ [])
    first_alone i h = inl (omega arith)

    glu_output-glu_value :
        (T t n : ℕ)
        → t < T
        → n < g.shape.n_out / 2
        → glu_output fl g T (t * (g.shape.n_out / 2) + n) ≡ glu_value fl g t n
    unfolding glu_output glu_value
    glu_output-glu_value T t n row column =
        fq_gemm_cpu-glu_value fl (without_residual fl g) gemm_magic T 1 t n (0 ∷ [])
          (λ _. fl.zero_f) glu row column (omega arith) first_alone

    -- For a node with the magics of its kind and of its GEMM, which has GEGLU: the one thread that
    -- works makes each row below `T` out of the GEGLU values of that row, just as act_row does from a
    -- row that holds them.
    pub fq_glu_act_cpu-act_row :
        (ascale : Option (ℕ → F)) (T t : ℕ) (rows : ℕ → List ℕ × F)
        → t < T
        → ((inter : ℕ → F) × ((n : ℕ) → n < g.shape.n_out / 2 → inter n ≡ glu_value fl g t n)
            × (fq_glu_act_cpu fl fq_glu_act_magic g s ascale T 0 rows t
                ≡ act_row fl s inter ascale none none))
    unfolding fq_glu_act_cpu
    fq_glu_act_cpu-act_row ascale T t rows row =
        let half_n = g.shape.n_out / 2 in
        let inter = glu_output fl g T in
        (
          λ k. inter (t * half_n + k),
          λ n column. glu_output-glu_value T t n row column,
          fill_hit (λ u. u) (λ u. act_row fl s (λ k. inter (u * half_n + k)) ascale none none) T 0 t
              rows (λ u p q e. e) (omega arith) (omega arith),
        )
