-- ===== src/FoldQuant/Gemm/Values.antt =====
-- What fq_gemm_cpu and fq_glu_act_cpu of src/foldquant_ref.cpp leave in the output of the node.
use vla_cpp.Common.{ℕ, ◌+◌, ◌*◌, ◌/◌, ◌<◌, ◌≡◌, refl, true, false, ==_iff, inl, inr, ◌⊎◌, List}
use mathlib.Core.Path.{fun_ext}
use vla_cpp.FoldQuant.Floats.{FloatOps}
use vla_cpp.FoldQuant.Layout.{GemmShape, fq_out_index, split_unique}
use vla_cpp.FoldQuant.Layout.Heads.{fq_out_index-injective}
use vla_cpp.FoldQuant.Gemm.{
  GemmNode, fq_gemm_magic, gemm_value, glu_value, thread_loop, fq_gemm_cpu,
}
use vla_cpp.FoldQuant.Gemm.Threads.{run_threads, run_threads-value, IsFull}

-- The plain layout, or heads that have lanes.
abbrev pub HasLayout : GemmShape → Type 0
HasLayout s = (s.heads ≡ 0) ⊎ ((0 < s.heads) × (0 < s.head_dim))

module _ (fl : FloatOps) (g : GemmNode fl.F) (magic : g.magic ≡ fq_gemm_magic) where
  open fl use {F}

  cpu_plain :
      (T ith nth : ℕ) (y : ℕ → F)
      → g.glu ≡ false
      → fq_gemm_cpu fl g T ith nth y
        ≡ thread_loop (fq_out_index g.shape T) (gemm_value fl g) T g.shape.n_out ith nth y
  unfolding fq_gemm_cpu
  cpu_plain T ith nth y plain = rw ((==_iff g.magic fq_gemm_magic).1 magic, plain) refl

  cpu_glu :
      (T ith nth : ℕ) (y : ℕ → F)
      → g.glu ≡ true
      → fq_gemm_cpu fl g T ith nth y
        ≡ thread_loop
            (λ t n. t * (g.shape.n_out / 2) + n)
            (glu_value fl g)
            T
            (g.shape.n_out / 2)
            ith
            nth
            y
  unfolding fq_gemm_cpu
  cpu_glu T ith nth y glu = rw ((==_iff g.magic fq_gemm_magic).1 magic, glu) refl

  -- For a node without GEGLU that has the GEMM's magic and a layout with lanes in each head, a row and
  -- a column within its shape and at least one thread: when every thread has run, in any order, the
  -- value of that row and column stands where the layout puts it, whatever was in the buffer.
  pub fq_gemm_cpu-gemm_value :
      (T nth t n : ℕ) (iths : List ℕ) (y : ℕ → F)
      → g.glu ≡ false
      → HasLayout g.shape
      → t < T
      → n < g.shape.n_out
      → 0 < nth
      → IsFull nth iths
      → run_threads (λ ith. fq_gemm_cpu fl g T ith nth) iths y (fq_out_index g.shape T t n)
        ≡ gemm_value fl g t n
  fq_gemm_cpu-gemm_value T nth t n iths y plain layout row column some_thread full =
      rw (fun_ext (λ ith. fun_ext (λ y'. cpu_plain T ith nth y' plain))) (
        run_threads-value (fq_out_index g.shape T) (gemm_value fl g) T g.shape.n_out nth t n row
          column
          (λ u m p q e.
            fq_out_index-injective g.shape T t u n m row p
              (elim layout [ inl flat ↦ inl (flat, column, q) | inr heads ↦ inr heads ]) e)
          iths y some_thread full)

  -- The same with GEGLU: half as many columns, stored row by row, each the GELU of the gate column
  -- times the column half the rows further.
  pub fq_gemm_cpu-glu_value :
      (T nth t n : ℕ) (iths : List ℕ) (y : ℕ → F)
      → g.glu ≡ true
      → t < T
      → n < g.shape.n_out / 2
      → 0 < nth
      → IsFull nth iths
      → run_threads (λ ith. fq_gemm_cpu fl g T ith nth) iths y (t * (g.shape.n_out / 2) + n)
        ≡ glu_value fl g t n
  fq_gemm_cpu-glu_value T nth t n iths y glu row column some_thread full =
      rw (fun_ext (λ ith. fun_ext (λ y'. cpu_glu T ith nth y' glu))) (
        run_threads-value (λ u m. u * (g.shape.n_out / 2) + m) (glu_value fl g) T
          (g.shape.n_out / 2) nth t n row column
          (λ u m p q e. split_unique (g.shape.n_out / 2) t n u m column q e) iths y some_thread
          full)
