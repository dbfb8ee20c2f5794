-- ===== src/FoldQuant/Node.antt =====
-- The nodes that make activation rows: fq_act_srcs of src/foldquant_ref.h, fq_act_cpu and
-- fq_glu_act_cpu of src/foldquant_ref.cpp. A source that the node does not have is `none`, and the
-- output is a function from row numbers to the code bytes and scale of the row.
pub mod Rows
use vla_cpp.Common.{
  ℕ, zero, suc, ◌+◌, ◌-◌, ◌*◌, ◌/◌, Bool, true, false, not, ◌||◌, Option, none, some, List, [],
  ◌==◌, if◌then◌else◌,
}
use vla_cpp.FoldQuant.Floats.{FloatOps}
use vla_cpp.FoldQuant.Layout.{first_row, end_row}
use vla_cpp.Common.Loops.{for_range}
use vla_cpp.FoldQuant.Activation.{FqActSpec, act_row}
use vla_cpp.Common.Loops.{store}
use vla_cpp.FoldQuant.Gemm.{GemmNode, fq_gemm_cpu}

abbrev pub fq_act_magic : ℕ
fq_act_magic = 0x31414651

abbrev pub fq_glu_act_magic : ℕ
fq_glu_act_magic = 0x31554651

-- `gamma`, `shift` and `ascale`.
pub record ActSrcs (F : Type 0) : Type 0 where
  pub gamma : Option (ℕ → F)
  pub shift : Option (ℕ → F)
  pub ascale : Option (ℕ → F)

abbrev src_if : {F : Type 0} → Bool → (ℕ → Option (ℕ → F)) → ℕ → Option (ℕ → F) × ℕ
src_if true src i = (src i, suc i)
src_if false src i = (none, i)

-- `src[i++]` for each source that the specification announces, from `src[1]`.
unfoldable pub fq_act_srcs : {F : Type 0} → FqActSpec F → (ℕ → Option (ℕ → F)) → ActSrcs F
fq_act_srcs s src =
    let (gamma, i) = src_if s.has_gamma src 1 in
    let (shift, j) = src_if s.has_shift src i in
    let (ascale, _) = src_if s.has_ascale src j in
    record { gamma = gamma; shift = shift; ascale = ascale }

module _ (fl : FloatOps) where
  open fl use {F, zero_f}

  -- Row `t` of the source is `x t`.
  unfoldable pub fq_act_cpu :
      FqActSpec F
      → (ℕ → ℕ → F)
      → (ℕ → Option (ℕ → F))
      → ℕ
      → ℕ
      → ℕ
      → (ℕ → List ℕ × F)
      → ℕ
      → List ℕ × F
  unfolding fq_act_srcs first_row end_row for_range store act_row
  fq_act_cpu s x src T ith nth rows =
      if not (s.magic == fq_act_magic)
      then rows
      else (let srcs = fq_act_srcs s src in
          let t0 = first_row T nth ith in
          let t1 = end_row T nth ith in
          for_range (t1 - t0) t0
            (λ t. store t (act_row fl s (x t) srcs.ascale srcs.gamma srcs.shift)) rows)

  -- `tmp.src[4] = nullptr; tmp.src[5] = nullptr;`
  abbrev pub without_residual : GemmNode F → GemmNode F
  without_residual g = record {
    magic = g.magic;
    K = g.K;
    wbits = g.wbits;
    shape = g.shape;
    glu = g.glu;
    w = g.w;
    xq = g.xq;
    row_bytes = g.row_bytes;
    wscale = g.wscale;
    bias = g.bias;
    residual = none;
    gate = none;
  }

  -- `inter`, which starts as zeros.
  unfoldable pub glu_output : GemmNode F → ℕ → ℕ → F
  unfolding fq_gemm_cpu
  glu_output g T = fq_gemm_cpu fl (without_residual g) T 0 1 (λ _. zero_f)

  unfoldable pub fq_glu_act_cpu :
      ℕ → GemmNode F → FqActSpec F → Option (ℕ → F) → ℕ → ℕ → (ℕ → List ℕ × F) → ℕ → List ℕ × F
  unfolding glu_output for_range store act_row
  fq_glu_act_cpu magic g s ascale T ith rows =
      if not (magic == fq_glu_act_magic) || not (ith == 0)
      then rows
      else (let half_n = g.shape.n_out / 2 in
          let inter = glu_output g T in
          for_range T 0 (λ t. store t (act_row fl s (λ k. inter (t * half_n + k)) ascale none none))
            rows)
