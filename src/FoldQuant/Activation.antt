-- ===== src/FoldQuant/Activation.antt =====
-- One activation row: block_sum, qmax_for and act_row of src/foldquant_ref.cpp, the specification
-- FqActSpec and the row layout of src/foldquant.h. Rows are functions from indices; a row of the
-- blob is its code bytes, the scale behind them is kept as the float that it is.
pub mod Codes
use Prim.Native.Nat.{bit_xor}
use vla_cpp.Common.{
  ℕ, zero, suc, ◌+◌, ◌-◌, ◌*◌, ◌/◌, ◌%◌, Bool, true, false, ◌&&◌, not, Option, none, some, List, [],
  ◌∷◌, map, ltb, ◌==◌, if◌then◌else◌,
}
use vla_cpp.Common.Int.{ℤ, pos, negsuc}
use vla_cpp.FoldQuant.Floats.{FloatOps}
use vla_cpp.FoldQuant.Pack.{pack_nibbles}
use vla_cpp.Common.Loops.{for_range}
use vla_cpp.FoldQuant.Rotate.{fwht_row}

pub record FqActSpec (F : Type 0) : Type 0 where
  pub magic : ℕ
  pub K : ℕ
  pub abits : ℕ
  pub rot_block : ℕ
  pub fold_before : Bool
  pub has_gamma : Bool
  pub has_ascale : Bool
  pub clip : F
  pub eps : F
  pub wide4 : Bool
  pub has_shift : Bool

unfoldable pub fq_act_store_bits : {F : Type 0} → FqActSpec F → ℕ
fq_act_store_bits s = if s.abits == 4 && not s.wide4 then 4 else 8

unfoldable pub fq_act_kpack : ℕ → ℕ → ℕ
fq_act_kpack K abits = if abits == 4 then K / 2 else K

abbrev pub fq_act_tail : ℕ
fq_act_tail = 16

unfoldable pub fq_act_row_bytes : ℕ → ℕ → ℕ
unfolding fq_act_kpack
fq_act_row_bytes K abits = fq_act_kpack K abits + fq_act_tail

abbrev pub lanes : ℕ
lanes = 32

abbrev pub chunk : ℕ
chunk = 64

-- 0, 1, ..., n - 1, each put through `f`.
unfoldable pub tabulate {ℓ} : {A : Type ℓ} → ℕ → ℕ → (ℕ → A) → List A
tabulate zero i f = []
tabulate (suc n) i f = f i ∷ tabulate n (suc i) f

-- `(int8_t) i` as the byte that is stored.
unfoldable pub to_byte : ℤ → ℕ
to_byte (pos n) = n % 256
to_byte (negsuc n) = 255 - n % 256

unfoldable pub qmax_int : ℕ → ℕ
qmax_int bits = if bits == 4 then 7 else 127

module _ (fl : FloatOps) where
  open fl use {
    F, zero_f, one_f, add, mul, div, neg, sqrt, fabs, lt, nearbyint, trunc, of_int, inv_sqrt, tiny,
  }

  -- `std::max` and `std::min`, which return the first argument unless the comparison says otherwise.
  abbrev pub std_max : F → F → F
  std_max a b = if lt a b then b else a

  abbrev pub std_min : F → F → F
  std_min a b = if lt b a then b else a

  unfoldable pub qmax_for : ℕ → F
  unfolding qmax_int
  qmax_for bits = of_int (pos (qmax_int bits))

  -- `for (int off = 16; off > 0; off >>= 1)`: t[l] = p[l] + p[l ^ off].
  unfoldable pub reduce_loop : ℕ → ℕ → (ℕ → F) → ℕ → F
  reduce_loop zero off p = p
  reduce_loop (suc fuel) off p =
      let rest = reduce_loop fuel (off / 2) (λ l. add (p l) (p (bit_xor l off))) in
      if ltb 0 off then rest else p

  unfoldable pub block_sum : (ℕ → F) → F
  unfolding reduce_loop
  block_sum p = reduce_loop 5 16 p 0

  -- `partial[lane] = partial[lane] + v * v` with lane = (k / CHUNK) % NT
  unfoldable pub add_square : (ℕ → F) → ℕ → (ℕ → F) → ℕ → F
  add_square x k partial l =
      if l == k / chunk % lanes then add (partial l) (mul (x k) (x k)) else partial l

  unfoldable pub row_rstd : FqActSpec F → (ℕ → F) → F
  unfolding add_square block_sum for_range
  row_rstd s x =
      let sumsq = block_sum (for_range s.K 0 (add_square x) (λ _. zero_f)) in
      div one_f (sqrt (add (div sumsq (of_int (pos s.K))) s.eps))

  -- The fused RMSNorm and shift, or the row as it is.
  unfoldable pub normalised : FqActSpec F → (ℕ → F) → Option (ℕ → F) → Option (ℕ → F) → ℕ → F
  unfolding row_rstd
  normalised s x none shift k = x k
  normalised s x (some gamma) none k =
      if s.has_gamma then mul (mul (x k) (row_rstd s x)) (gamma k) else x k
  normalised s x (some gamma) (some shift) k =
      if s.has_gamma then add (mul (mul (x k) (row_rstd s x)) (gamma k)) (shift k) else x k

  abbrev pub divided : Bool → Option (ℕ → F) → (ℕ → F) → ℕ → F
  divided now none tmp k = tmp k
  divided now (some ascale) tmp k = if now then div (tmp k) (ascale k) else tmp k

  -- `tmp` when the codes are made.
  unfoldable pub transformed :
      FqActSpec F → (ℕ → F) → Option (ℕ → F) → Option (ℕ → F) → Option (ℕ → F) → ℕ → F
  unfolding normalised fwht_row
  transformed s x ascale gamma shift =
      let before = divided s.fold_before ascale (normalised s x gamma shift) in
      let rotated =
        if ltb 1 s.rot_block
        then fwht_row fl s.K 0 s.K s.rot_block (inv_sqrt s.rot_block) before
        else before in
      divided (not s.fold_before) ascale rotated

  unfoldable pub abs_max : ℕ → (ℕ → F) → F
  unfolding for_range
  abs_max K tmp = for_range K 0 (λ k amax. std_max amax (fabs (tmp k))) zero_f

  unfoldable pub row_scale : FqActSpec F → (ℕ → F) → F
  unfolding abs_max qmax_for
  row_scale s tmp =
      let scale = div (mul s.clip (abs_max s.K tmp)) (qmax_for s.abits) in
      if lt scale tiny then tiny else scale

  -- `(int) std::min(qmax, std::max(-qmax, std::nearbyint(v * inv)))`
  unfoldable pub quantize : ℕ → F → F → ℤ
  unfolding qmax_for
  quantize abits inv v =
      let qmax = qmax_for abits in trunc (std_min qmax (std_max (neg qmax) (nearbyint (mul v inv))))

  unfoldable pub row_codes : FqActSpec F → (ℕ → F) → List ℤ
  unfolding quantize row_scale tabulate
  row_codes s tmp = tabulate s.K 0 (λ k. quantize s.abits (div one_f (row_scale s tmp)) (tmp k))

  -- The code bytes and the scale of a row; `K` is even wherever codes are packed.
  unfoldable pub act_row :
      FqActSpec F → (ℕ → F) → Option (ℕ → F) → Option (ℕ → F) → Option (ℕ → F) → List ℕ × F
  unfolding transformed row_codes pack_nibbles to_byte
  act_row s x ascale gamma shift =
      let tmp = transformed s x ascale gamma shift in
      (
        if s.abits == 4 && not s.wide4
            then pack_nibbles (row_codes s tmp)
            else (map to_byte (row_codes s tmp)),
        row_scale s tmp,
      )
