-- ===== src/FoldQuant/Layout/Heads.antt =====
-- The output index of a GEMM gives every output element a place of its own.
use native.Mathlib.Nat.{mul_comm}
use vla_cpp.Common.{
  ℕ, ◌+◌, ◌-◌, ◌*◌, ◌/◌, ◌%◌, ◌^◌, ◌<◌, ◌≡◌, sym, ap, ◌∙◌, ◌⊎◌, inl, inr, Bool, true, false, ◌==◌,
  if◌then◌else◌, arith,
}
use vla_cpp.FoldQuant.Layout.{GemmShape, fq_out_index, split_unique}

-- The index within a part: Q and K are laid out by head, row and lane, V by head, lane and row.
inner : ℕ → ℕ → ℕ → ℕ → ℕ → Bool → ℕ
inner T t head_dim h d by_row =
    if by_row then (h * T + t) * head_dim + d else (h * head_dim + d) * T + t

-- The part, head and lane of a column, and the index that they make.
record Place (s : GemmShape) (T t n : ℕ) : Type 0 where
  p : ℕ
  h : ℕ
  d : ℕ
  head : h < s.heads
  lane : d < s.head_dim
  column : n ≡ p * (s.head_dim * s.heads) + (h * s.head_dim + d)
  index :
      fq_out_index s T t n
      ≡ p * (s.head_dim * s.heads) * T + inner T t s.head_dim h d (s.vmask / 2 ^ p % 2 == 0)

below : (n per t : ℕ) → 0 < per → t < n * per → t / per < n
below n per t p q = grind arith

remainder : (n m : ℕ) → 0 < m → (n ≡ n / m * m + (n - n / m * m)) × (n - n / m * m < m)
remainder n m h = grind arith

mul-pos : (a b : ℕ) → 0 < a → 0 < b → 0 < a * b
mul-pos a b p q = grind arith

in_range : (r c w h : ℕ) → r < h → c < w → r * w + c < h * w
in_range r c w h p q = grind arith

place : (s : GemmShape) (T t n : ℕ) → 0 < s.heads → 0 < s.head_dim → Place s T t n
unfolding fq_out_index inner
place s T t n some_head some_lane =
    let dim = s.head_dim * s.heads in
    let (split, small) = remainder n dim (mul-pos s.head_dim s.heads some_lane some_head) in
    let r = n - n / dim * dim in
    let (split_r, small_r) = remainder r s.head_dim some_lane in
    record {
      p = n / dim;
      h = r / s.head_dim;
      d = r - r / s.head_dim * s.head_dim;
      head =
          below s.heads s.head_dim r some_lane (omega (arith, small, mul_comm s.head_dim s.heads));
      lane = small_r;
      column = omega (arith, split, split_r);
      index = ground arith;
    }

inner-lt :
    (T t head_dim heads h d : ℕ) (by_row : Bool)
    → t < T
    → h < heads
    → d < head_dim
    → inner T t head_dim h d by_row < head_dim * heads * T
unfolding inner
inner-lt T t head_dim heads h d true p q r =
    omega (arith, in_range (h * T + t) d head_dim (heads * T) (in_range h t T heads q p) r)
inner-lt T t head_dim heads h d false p q r =
    omega (
      arith,
      in_range (h * head_dim + d) t T (heads * head_dim) (in_range h d head_dim heads q r) p,
    )

-- Equal indices within one part come from one row, head and lane.
inner-injective :
    (T t u head_dim h h' d d' : ℕ) (by_row : Bool)
    → t < T
    → u < T
    → d < head_dim
    → d' < head_dim
    → inner T t head_dim h d by_row ≡ inner T u head_dim h' d' by_row
    → (t ≡ u) × (h ≡ h') × (d ≡ d')
unfolding inner
inner-injective T t u head_dim h h' d d' true p q r r' e =
    let (rows, lanes) = split_unique head_dim (h * T + t) d (h' * T + u) d' r r' e in
    let (hs, ts) = split_unique T h t h' u p q rows in (ts, hs, lanes)
inner-injective T t u head_dim h h' d d' false p q r r' e =
    let (columns, ts) = split_unique T (h * head_dim + d) t (h' * head_dim + d') u p q e in
    let (hs, lanes) = split_unique head_dim h d h' d' r r' columns in (ts, hs, lanes)

plain_eq :
    (s : GemmShape) (T t u n m : ℕ)
    → s.heads ≡ 0
    → fq_out_index s T t n ≡ fq_out_index s T u m
    → t * s.n_out + n ≡ u * s.n_out + m
unfolding fq_out_index
plain_eq s T t u n m plain e = ground arith

module _ (s : GemmShape) (T t u n m : ℕ) (row : t < T) (row' : u < T) where
  heads_injective :
      0 < s.heads
      → Place s T t n
      → Place s T u m
      → fq_out_index s T t n ≡ fq_out_index s T u m
      → (t ≡ u) × (n ≡ m)
  heads_injective some_head a b e =
      let (ps, inners) =
        split_unique (s.head_dim * s.heads * T) a.p _ b.p _
          (inner-lt T t s.head_dim s.heads a.h a.d (s.vmask / 2 ^ a.p % 2 == 0) row a.head a.lane)
          (inner-lt T u s.head_dim s.heads b.h b.d (s.vmask / 2 ^ b.p % 2 == 0) row' b.head b.lane)
          (omega (arith, a.index, b.index, e)) in
      let (ts, hs, ds) =
        inner-injective T t u s.head_dim a.h b.h a.d b.d (s.vmask / 2 ^ b.p % 2 == 0) row row'
          a.lane b.lane (simp ps at inners) in
      (ts, a.column ∙ simp (ps, hs, ds) (sym b.column))

  -- For rows below `T`, and in the plain layout columns below `n_out`, two different outputs never get
  -- the same index, in the plain layout and in the head layout with lanes in each head.
  pub fq_out_index-injective :
      ((s.heads ≡ 0) × (n < s.n_out) × (m < s.n_out)) ⊎ ((0 < s.heads) × (0 < s.head_dim))
      → fq_out_index s T t n ≡ fq_out_index s T u m
      → (t ≡ u) × (n ≡ m)
  fq_out_index-injective (inl (plain, small, small')) e =
      split_unique s.n_out t n u m small small' (plain_eq s T t u n m plain e)
  fq_out_index-injective (inr (some_head, some_lane)) e =
      heads_injective some_head (place s T t n some_head some_lane)
        (place s T u m some_head some_lane) e

part_lt : (p parts dim r : ℕ) → p * dim + r < parts * dim → p < parts
part_lt p parts dim r h = grind arith

-- The outputs of `parts` whole parts fill a buffer of `n_out * T` floats without leaving it.
pub fq_out_index-lt :
    (s : GemmShape) (parts T t n : ℕ)
    → 0 < s.heads
    → 0 < s.head_dim
    → s.n_out ≡ parts * (s.head_dim * s.heads)
    → t < T
    → n < s.n_out
    → fq_out_index s T t n < s.n_out * T
fq_out_index-lt s parts T t n some_head some_lane whole row column =
    let a = place s T t n some_head some_lane in
    let dim = s.head_dim * s.heads in
    let part = part_lt a.p parts dim (a.h * s.head_dim + a.d) (omega (arith, a.column, whole)) in
    let small =
      in_range a.p _ (dim * T) parts part
        (inner-lt T t s.head_dim s.heads a.h a.d (s.vmask / 2 ^ a.p % 2 == 0) row a.head a.lane) in
    omega (arith, small, a.index, ap (λ (k : ℕ). k * T) whole)
