-- ===== src/Loader/Sized.antt =====
-- How many codes and scales the quantization of src/loader.cpp gives.
use vla_cpp.Common.{
  ℕ, zero, suc, ◌+◌, ◌*◌, ◌/◌, ◌%◌, ◌<◌, ◌≡◌, refl, ap, ◌∙◌, inl, inr, false, not, some, List, [],
  ◌∷◌, map, length, length-append, length-take, length-drop, length-map, take, drop, ◌==◌,
  Bool-cases, Option-cases, arith,
}
use mathlib.Core.Option.{some-injective, none-ne-some}
use mathlib.Core.Path.{subst}
use vla_cpp.Common.Int.{ℤ}
use vla_cpp.HfFetch.Names.{Str}
use vla_cpp.FoldQuant.Pack.{pack_nibbles}
use vla_cpp.Gguf.{Reader, Codec, t_f32, t_i8}
use vla_cpp.Loader.{Ggml, Loader}
use vla_cpp.Loader.Upload.{
  Rounding, read_resident, quant_groups, quant_matrix, quant_sources, transpose_from, scale_of,
}

-- Floats are four bytes, and INT8 codes one.
pub record IsSized {F : Type 0} (gg : Ggml F) (codec : Codec F) : Type 0 where
  pub f32_rows : (n : ℕ) → gg.row_size t_f32 n ≡ n * 4
  pub i8_rows : (n : ℕ) → gg.row_size t_i8 n ≡ n
  pub to_f32 : (fs : List F) → length (codec.to_f32 fs) ≡ length fs * 4
  pub from_f32 : (n : ℕ) (bytes : Str) → length bytes ≡ n * 4 → length (codec.from_f32 bytes) ≡ n

module _ {F : Type 0} (gg : Ggml F) (g : Reader F) (codec : Codec F) (fl : Rounding F) where
  length-quant_groups :
      (bits group left : ℕ) (row : List F)
      → length row ≡ left * group
      → (length (quant_groups gg g codec fl bits group left row).0 ≡ left * group)
        × (length (quant_groups gg g codec fl bits group left row).1 ≡ left)
  unfolding quant_groups
  length-quant_groups bits group zero row e = (omega arith, refl)
  length-quant_groups bits group (suc left) row e =
      let split : suc left * group ≡ left * group + group = grind arith in
      let (codes, scales) =
        length-quant_groups bits group left (drop group row)
          (omega (arith, e, split, length-drop group row)) in
      let code = λ (x : F).
        fl.clamp_round (fl.qmax bits) (fl.div x (scale_of gg g codec fl bits (take group row))) in
      (
        length-append (map code (take group row))
              (quant_groups gg g codec fl bits group left (drop group row)).0
            ∙ omega
                (arith, codes, split, e, length-map code (take group row), length-take group row),
        ap suc scales,
      )

  length-quant_matrix :
      (bits group K n : ℕ) (w : List F)
      → K / group * group ≡ K
      → length w ≡ n * K
      → (length (quant_matrix gg g codec fl bits group K n w).0 ≡ n * K)
        × (length (quant_matrix gg g codec fl bits group K n w).1 ≡ n * (K / group))
  unfolding quant_matrix
  length-quant_matrix bits group K zero w d e = (omega arith, omega arith)
  length-quant_matrix bits group K (suc n) w d e =
      let split : suc n * K ≡ n * K + K = grind arith in
      let split' : suc n * (K / group) ≡ n * (K / group) + K / group = grind arith in
      let (codes, scales) =
        length-quant_groups bits group (K / group) (take K w)
          (omega (arith, d, e, split, length-take K w)) in
      let (codes', scales') =
        length-quant_matrix bits group K n (drop K w) d
          (omega (arith, e, split, length-drop K w)) in
      let row = quant_groups gg g codec fl bits group (K / group) (take K w) in
      let rest = quant_matrix gg g codec fl bits group K n (drop K w) in
      (
        length-append row.0 rest.0 ∙ omega (arith, codes, codes', d, split),
        length-append row.1 rest.1 ∙ omega (arith, scales, scales', split'),
      )

  -- The sources have a number of rows together.
  pub record AreRows (K per : ℕ) (r : List ℤ × List F) : Type 0 where
    pub n : ℕ
    pub codes : length r.0 ≡ n * K
    pub scales : length r.1 ≡ n * per

  whole_rows : (K b : ℕ) → 0 < K → b % (K * 4) ≡ 0 → b ≡ (b / (K * 4) * K) * 4
  whole_rows K b k e =
      let wide : 0 < K * 4 = omega (arith, k) in
      let parts : b ≡ b / (K * 4) * (K * 4) = grind (arith, e, wide) in parts ∙ grind arith

  pub quant_sources-AreRows :
      (L : Loader F) (bits group K : ℕ) (srcs : List Str) (r : List ℤ × List F)
      → IsSized gg codec
      → 0 < K
      → K / group * group ≡ K
      → quant_sources gg g codec fl L bits group K srcs ≡ some r
      → AreRows K (K / group) r
  unfolding quant_sources
  quant_sources-AreRows L bits group K [] r sized k d e =
      subst (AreRows K (K / group)) (some-injective _ _ e)
        (record { n = 0; codes = omega arith; scales = omega arith })
  quant_sources-AreRows L bits group K (s ∷ srcs) r sized k d e =
      elim (Option-cases (read_resident gg g codec L s t_f32 false)) [
        | inl missing ↦ absurd (none-ne-some r (rw (quant_sources, missing) at e))
        | inr (b, got) ↦ elim (Bool-cases (not (length b % (K * 4) == 0))) [
          | inl part ↦ absurd (none-ne-some r (rw (quant_sources, got, part) at e))
          | inr whole ↦ elim (Option-cases (quant_sources gg g codec fl L bits group K srcs)) [
            | inl missing ↦ absurd (none-ne-some r (rw (quant_sources, got, whole, missing) at e))
            | inr (rest, more) ↦
                let n = length b / (K * 4) in
                let bytes : length b ≡ (n * K) * 4 =
                  whole_rows K (length b) k (ground (arith, whole)) in
                let (codes, scales) =
                  length-quant_matrix bits group K n (codec.from_f32 b) d
                    (sized.from_f32 (n * K) b bytes) in
                let others = quant_sources-AreRows L bits group K srcs rest sized k d more in
                let first = quant_matrix gg g codec fl bits group K n (codec.from_f32 b) in
                subst (AreRows K (K / group))
                  (some-injective _ _ (rw (quant_sources, got, whole, more) at e))
                  (record {
                    n = n + others.n;
                    codes = length-append first.0 rest.0 ∙ grind (arith, codes, others.codes);
                    scales = length-append first.1 rest.1 ∙ grind (arith, scales, others.scales);
                  })
          ]
        ]
      ]

  pub length-transpose_from :
      (G N : ℕ) (scales : List F) (left i : ℕ)
      → length (transpose_from gg g codec fl G N scales left i) ≡ left
  unfolding transpose_from
  length-transpose_from G N scales zero i = refl
  length-transpose_from G N scales (suc left) i =
      ap suc (length-transpose_from G N scales left (suc i))

pub length-pack_nibbles : (codes : List ℤ) → length (pack_nibbles codes) ≡ length codes / 2
unfolding pack_nibbles
length-pack_nibbles [] = omega arith
length-pack_nibbles (x ∷ []) = omega arith
length-pack_nibbles (x ∷ y ∷ codes) = omega (arith, length-pack_nibbles codes)
