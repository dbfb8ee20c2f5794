-- ===== src/FoldQuant/Layout.antt =====
-- Where things lie: the rows of the activation blob, the output index of a GEMM, and the rows that
-- each thread takes. src/foldquant.h and src/foldquant_ref.cpp.
pub mod Heads
use vla_cpp.Common.{
  ℕ, zero, suc, ◌+◌, ◌-◌, ◌*◌, ◌/◌, ◌%◌, ◌^◌, ◌≤◌, ◌<◌, ◌≡◌, ◌↔◌, refl, sym, ap, ◌∙◌, Bool, true,
  false, ◌==◌, if◌then◌else◌, min, arith,
}

-- The scheme of a GEMM that places its outputs: `heads` 0 is the plain layout.
pub record GemmShape : Type 0 where
  pub n_out : ℕ
  pub head_dim : ℕ
  pub heads : ℕ
  pub vmask : ℕ

unfoldable pub fq_out_index : GemmShape → ℕ → ℕ → ℕ → ℕ
fq_out_index s T t n =
    if s.heads == 0
    then t * s.n_out + n
    else (let dim = s.head_dim * s.heads in
        let p = n / dim in
        let r = n - p * dim in
        let h = r / s.head_dim in
        let d = r - h * s.head_dim in
        let base = p * dim * T in
        if s.vmask / 2 ^ p % 2 == 0
        then base + (h * T + t) * s.head_dim + d
        else base + (h * s.head_dim + d) * T + t)

-- `per`, and the first and last row of thread `ith` of `nth`.
unfoldable pub per_thread : ℕ → ℕ → ℕ
per_thread T nth = (T + nth - 1) / nth

unfoldable pub first_row : ℕ → ℕ → ℕ → ℕ
unfolding per_thread
first_row T nth ith = ith * per_thread T nth

unfoldable pub end_row : ℕ → ℕ → ℕ → ℕ
unfolding first_row
end_row T nth ith = min T (first_row T nth ith + per_thread T nth)

-- Row `t` is among those of thread `ith`.
abbrev pub Takes : ℕ → ℕ → ℕ → ℕ → Type 0
Takes T nth ith t = (first_row T nth ith ≤ t) × (t < end_row T nth ith)

-- A quotient is known by the interval of its multiples.
pub quotient_iff : (per t i : ℕ) → 0 < per → ((i * per ≤ t) × (t < i * per + per)) ↔ (i ≡ t / per)
quotient_iff per t i h = (λ (x, y). grind arith, λ e. grind arith)

-- A quotient and a remainder are found again from their sum.
pub split_unique : (m a b c d : ℕ) → b < m → d < m → a * m + b ≡ c * m + d → (a ≡ c) × (b ≡ d)
split_unique m a b c d p q e =
    let first = (quotient_iff m (a * m + b) a (omega arith)).0 (omega arith, omega arith) in
    let second =
      (quotient_iff m (a * m + b) c (omega arith)).0 (omega (arith, e), omega (arith, e)) in
    let same : a ≡ c = first ∙ sym second in (same, omega (arith, e, ap (λ (k : ℕ). k * m) same))

module _ (T nth : ℕ) where
  per_thread_bounds : 0 < nth → (T ≤ nth * per_thread T nth) × (0 < T → 0 < per_thread T nth)
  unfolding per_thread
  per_thread_bounds some_thread = (grind arith, λ h. grind arith)

  -- With at least one thread each of the `T` rows is taken by one thread and no other: by the thread
  -- `t / per`, which is among the `nth`.
  pub Takes-iff :
      (t : ℕ)
      → 0 < nth
      → t < T
      → (t / per_thread T nth < nth) × ((i : ℕ) → Takes T nth i t ↔ (i ≡ t / per_thread T nth))
  unfolding end_row
  Takes-iff t some_thread h =
      let (enough, pos_per) = per_thread_bounds some_thread in
      let per = per_thread T nth in
      (
        below nth per t (pos_per (omega arith)) (omega (arith, enough)),
        λ i.
            let both = quotient_iff per t i (pos_per (omega arith)) in
            (
              λ (lo, hi). both.0 (lo, omega arith),
              λ e. let (lo, hi) = both.1 e in (lo, omega arith),
            ),
      )
    where
      below : (n per t : ℕ) → 0 < per → t < n * per → t / per < n
      below n per t p q = grind arith
