-- ===== src/FoldQuant/Site/Fits.antt =====
-- What fill_specs and fq_set_heads of src/foldquant.cpp guarantee to the code that runs a site.
use Prim.Native.String.{String}
use mathlib.Core.Path.{subst}
use vla_cpp.Common.{
  ℕ, ◌+◌, ◌*◌, ◌/◌, ◌%◌, ◌^◌, ◌≤◌, ◌<◌, ◌≡◌, ◌⊎◌, inl, inr, Bool, true, false, not, ◌||◌, ◌==◌, ltb,
  ok, ok-injective, err-ne-ok, arith, Bool-cases,
}
use vla_cpp.Common.Int.{ℤ, pos}
use vla_cpp.FoldQuant.Floats.{FloatOps}
use vla_cpp.FoldQuant.Layout.{GemmShape, fq_out_index}
use vla_cpp.FoldQuant.Layout.Heads.{fq_out_index-lt}
use vla_cpp.FoldQuant.Rotate.{fq_rot_block_for}
use vla_cpp.FoldQuant.Rotate.Block.{IsLargest, fq_rot_block_for-IsLargest}
use vla_cpp.FoldQuant.Widths.{FqModuleSpec, wbits_for, abits_for}
use vla_cpp.FoldQuant.Site.{
  Tensors, Specs, fill_specs, fq_set_heads, width_of, is_width, is_vector, ascale_bad, gamma_bad,
}

plain_lt :
    (s : GemmShape) (T t n : ℕ)
    → s.heads ≡ 0
    → t < T
    → n < s.n_out
    → fq_out_index s T t n < s.n_out * T
unfolding fq_out_index
plain_lt s T t n plain row column = rw plain (below t n T s.n_out row column)
  where
    below : (t n T N : ℕ) → t < T → n < N → t * N + n < N * T
    below t n T N p q = grind arith

parts_eq : (n m : ℕ) → 0 < m → n % m ≡ 0 → n ≡ n / m * m
parts_eq n m h e = grind arith

-- For a plain shape and any heads with lanes: whether fq_set_heads lays the output out by heads or
-- leaves it, and whatever `vmask` is, each output of the site stays within its `n_out * T` floats.
pub fq_set_heads-lt :
    (off : Bool) (head_dim heads vmask : ℕ) (s : GemmShape) (T t n : ℕ)
    → s.heads ≡ 0
    → 0 < head_dim
    → 0 < heads
    → t < T
    → n < s.n_out
    → fq_out_index (fq_set_heads off head_dim heads vmask s) T t n < s.n_out * T
unfolding fq_set_heads
fq_set_heads-lt true head_dim heads vmask s T t n plain lanes some_head row column =
    plain_lt s T t n plain row column
fq_set_heads-lt false head_dim heads vmask s T t n plain lanes some_head row column =
    let parts = s.n_out / (head_dim * heads) in
    elim (Bool-cases (ltb parts 1 || ltb 32 parts || not (s.n_out % (head_dim * heads) == 0))) [
      | inl left ↦ rw left (plain_lt s T t n plain row column)
      | inr laid ↦ rw laid (
          fq_out_index-lt _ parts T t n some_head lanes
            (parts_eq s.n_out (head_dim * heads) (grind arith) (ground arith)) row column)
    ]

-- What the kernels ask of a site: its widths, sides that are whole tiles, and a rotation block that is a
-- power of two, fits a chunk and divides the width.
pub record Fits {F : Type 0} (s : Specs F) : Type 0 where
  pub weights : (s.wbits ≡ 8) ⊎ (s.wbits ≡ 4)
  pub activations : (s.abits ≡ 8) ⊎ (s.abits ≡ 4)
  pub chunks : s.K % 64 ≡ 0
  pub tiles : s.N % 64 ≡ 0
  pub stages : ℕ
  pub power : s.rot_block ≡ 2 ^ stages
  pub blocks : s.K % s.rot_block ≡ 0
  pub one_chunk : s.rot_block ≤ 64

power_divides : (K a r : ℕ) → IsLargest K a r → (b : ℕ) × (r ≡ 2 ^ b) × (K % r ≡ 0)
power_divides K a r h = (h.b, h.power, rw h.power h.divides)

block_power :
    (K a : ℕ) (nominal : ℤ)
    → nominal ≡ pos (2 ^ a)
    → (b : ℕ) × (fq_rot_block_for K nominal ≡ 2 ^ b) × (K % fq_rot_block_for K nominal ≡ 0)
block_power K a nominal e = rw e (power_divides K a _ (fq_rot_block_for-IsLargest K a))

checks-Fits :
    {F : Type 0} (s : Specs F) (n_dims : ℕ)
    → (not (is_width s.wbits) || not (is_width s.abits)) ≡ false
    → (not (n_dims == 2) || not (s.K % 64 == 0) || not (s.N % 64 == 0)) ≡ false
    → ltb 64 s.rot_block ≡ false
    → ((b : ℕ) × (s.rot_block ≡ 2 ^ b) × (s.K % s.rot_block ≡ 0))
    → Fits s
checks-Fits s n_dims widths sides block (b, power, divides) = record {
  weights = ground arith;
  activations = ground arith;
  chunks = ground arith;
  tiles = ground arith;
  stages = b;
  power = power;
  blocks = divides;
  one_chunk = ground arith;
}

-- Where the module's nominal block is a power of two, any site that fill_specs accepts has widths of 4
-- or 8 bits, sides that are multiples of 64 and a rotation block that is a power of two, at most 64, and
-- divides the width.
pub fill_specs-Fits :
    (fl : FloatOps) (mod_ : FqModuleSpec fl.F) (site_key : String) (eps : fl.F) (t : Tensors)
    (s : Specs fl.F) (a : ℕ)
    → mod_.rot_block ≡ pos (2 ^ a)
    → fill_specs fl mod_ site_key eps t ≡ ok s
    → Fits s
unfolding fill_specs
fill_specs-Fits fl mod_ site_key eps t s a nominal h =
    let wbits = wbits_for mod_ site_key in
    let abits = abits_for mod_ site_key in
    let K = width_of wbits t.w in
    let N = t.w.ne1 in
    let rot = fq_rot_block_for K mod_.rot_block in
    elim (Bool-cases (not (is_width wbits) || not (is_width abits))) [
      | inl bad ↦ absurd (err-ne-ok (rw (bad, fill_specs) at h))
      | inr widths ↦
          elim (Bool-cases (not (t.w.n_dims == 2) || not (K % 64 == 0) || not (N % 64 == 0))) [
            | inl bad ↦ absurd (err-ne-ok (rw (widths, bad, fill_specs) at h))
            | inr sides ↦ elim (Bool-cases (not (is_vector N t.wscale))) [
              | inl bad ↦ absurd (err-ne-ok (rw (widths, sides, bad, fill_specs) at h))
              | inr scale ↦ elim (Bool-cases (ascale_bad K t.ascale)) [
                | inl bad ↦ absurd (err-ne-ok (rw (widths, sides, scale, bad, fill_specs) at h))
                | inr ascale ↦ elim (Bool-cases (gamma_bad K t.gamma)) [
                  | inl bad ↦
                      absurd (err-ne-ok (rw (widths, sides, scale, ascale, bad, fill_specs) at h))
                  | inr gamma ↦ elim (Bool-cases (ltb 64 rot)) [
                    | inl bad ↦
                        absurd (
                          err-ne-ok
                            (rw (widths, sides, scale, ascale, gamma, bad, fill_specs) at h))
                    | inr block ↦
                        subst (λ x. Fits x)
                          (ok-injective
                            (rw (widths, sides, scale, ascale, gamma, block, fill_specs) at h))
                          (checks-Fits _ t.w.n_dims widths sides block
                            (block_power K a mod_.rot_block nominal))
                  ]
                ]
              ]
            ]
          ]
    ]
