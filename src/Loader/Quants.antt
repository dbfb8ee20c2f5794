-- ===== src/Loader/Quants.antt =====
-- The writes of the quantized weights, and of the whole upload, in src/loader.cpp.
use vla_cpp.Common.{
  ℕ, zero, suc, ◌+◌, ◌*◌, ◌/◌, ◌%◌, ◌<◌, ◌≡◌, refl, sym, ap, ◌∙◌, inl, inr, Bool, true, false, ◌||◌,
  some, List, [], ◌∷◌, ◌++◌, map, get_or, length, length-map, All, ◌==◌, ==_iff, if◌then◌else◌,
  Bool-cases, Option-cases, arith,
}
use mathlib.Core.Path.{subst}
use vla_cpp.Common.Int.{ℤ, pos, negsuc}
use vla_cpp.HfFetch.Names.{Str}
use vla_cpp.FoldQuant.Pack.{
  IsInt4, IsInt8, int8_of, pack_nibbles, unpack_nibbles, unpack_nibbles-pack_nibbles,
}
use vla_cpp.Gguf.{Reader, Codec, Tensor}
use vla_cpp.Loader.{Made, Ggml, Quant, Loader}
use vla_cpp.Loader.Fuse.{codes_made, scales_made}
use vla_cpp.Loader.Upload.{
  Rounding, Writes, nbytes, byte_of, is_quant_part, quant_sources, quant_writes, transpose_from,
  fill_quant,
}
use vla_cpp.Loader.Shapes.{IsQuant}
use vla_cpp.Loader.Sized.{
  IsSized, quant_sources-AreRows, length-transpose_from, length-pack_nibbles,
}
use vla_cpp.Loader.Exact.{
  IsWritten, IsWritten-append_right, In, Decodes, HasScales, IsQuantized, Fits, Extends,
  Extends-IsWritten, Extends-none, Extends-after, not_true, Bool-pair,
}

module _ {F : Type 0} (gg : Ggml F) (g : Reader F) (codec : Codec F) (fl : Rounding F)
    (L : Loader F) (wide : (s : Str) (t : Tensor) → g.tensor s ≡ some t → 0 < t.ne0)
    (sized : IsSized gg codec) where
  nbytes-codes :
      (name : Str) (bits K N : ℕ)
      → nbytes gg g codec (codes_made gg g name bits K N) ≡ (if bits == 4 then K / 2 else K) * N
  unfolding nbytes codes_made
  nbytes-codes name bits K N = rw (sized.i8_rows (if bits == 4 then K / 2 else K)) (omega arith)

  nbytes-scales :
      (name : Str) (bits group K N : ℕ)
      → nbytes gg g codec (scales_made gg g name bits group K N)
        ≡ (if bits == 4 then K / group * N else N) * 4
  unfolding nbytes scales_made
  nbytes-scales name bits group K N =
      rw (sized.f32_rows (if bits == 4 then K / group * N else N)) (omega arith)

  codes_ne1 : (name : Str) (bits K N : ℕ) → (codes_made gg g name bits K N).ne1 ≡ N
  unfolding codes_made
  codes_ne1 name bits K N = refl

  quotient : (n K : ℕ) → 0 < K → n * K / K ≡ n
  quotient n K k = grind (arith, k)

  half : (n K : ℕ) → K % 2 ≡ 0 → n * K / 2 ≡ K / 2 * n
  half n K e =
      let twice : K ≡ K / 2 * 2 = omega (arith, e) in
      let same : n * K ≡ (K / 2 * n) * 2 = ap (λ (k : ℕ). n * k) twice ∙ grind arith in
      omega (arith, same)

  int8_of-byte_of : (c : ℤ) → IsInt8 c → int8_of (byte_of c) ≡ c
  unfolding int8_of byte_of
  int8_of-byte_of (pos n) h = ground arith
  int8_of-byte_of (negsuc n) h = ground arith

  map-int8_of : (codes : List ℤ) → All IsInt8 codes → map int8_of (map byte_of codes) ≡ codes
  map-int8_of [] h = refl
  map-int8_of (c ∷ codes) (p, h) = rw (int8_of-byte_of c p, map-int8_of codes h) refl

  true-ne-false : {A : Type 0} (b : Bool) → b ≡ true → b ≡ false → A
  true-ne-false b t f = absurd (cc (t, f))

  unpacked :
      (n K : ℕ) (codes : List ℤ)
      → length codes ≡ n * K
      → K % 2 ≡ 0
      → All IsInt4 codes
      → unpack_nibbles (pack_nibbles codes) ≡ codes
  unpacked n K codes e even h =
      let pairs : length codes ≡ 2 * (n * K / 2) =
        let halves = half n K even in
        let twice : K ≡ K / 2 * 2 = omega (arith, even) in
        let same : n * K ≡ 2 * (K / 2 * n) = ap (λ (k : ℕ). n * k) twice ∙ grind arith in
        omega (arith, e, halves, same) in
      (unpack_nibbles-pack_nibbles (n * K / 2) codes pairs h).0

  get_or-transpose_from :
      (G N : ℕ) (scales : List F) (left i k : ℕ)
      → k < left
      → get_or (transpose_from gg g codec fl G N scales left i) k fl.zero_f
        ≡ get_or scales ((i + k) % N * G + (i + k) / N) fl.zero_f
  unfolding transpose_from
  get_or-transpose_from G N scales zero i k h = absurd (omega (arith, h))
  get_or-transpose_from G N scales (suc left) i zero h =
      let same : i ≡ i + 0 = omega arith in
      ap (λ m. get_or scales (m % N * G + m / N) fl.zero_f) same
  get_or-transpose_from G N scales (suc left) i (suc k) h =
      let next : suc i + k ≡ i + suc k = omega arith in
      get_or-transpose_from G N scales left (suc i) k (omega (arith, h))
      ∙ ap (λ m. get_or scales (m % N * G + m / N) fl.zero_f) next

  -- The scale of group `j` of row `n`.
  transposed :
      (G N : ℕ) (scales : List F) (n j : ℕ)
      → n < N
      → j < G
      → get_or (transpose_from gg g codec fl G N scales (G * N) 0) (j * N + n) fl.zero_f
        ≡ get_or scales (n * G + j) fl.zero_f
  transposed G N scales n j a b =
      let inside : j * N + n < G * N = grind (arith, a, b) in
      let (column, row) = split_of j N n a in
      get_or-transpose_from G N scales (G * N) 0 (j * N + n) inside
      ∙ ap (λ m. get_or scales m fl.zero_f) (joined column row)
    where
      split_of : (j N n : ℕ) → n < N → ((j * N + n) % N ≡ n) × ((j * N + n) / N ≡ j)
      split_of j N n a = (grind (arith, a), grind (arith, a))

      joined :
          (j * N + n) % N ≡ n
          → (j * N + n) / N ≡ j
          → (0 + (j * N + n)) % N * G + (0 + (j * N + n)) / N ≡ n * G + j
      joined p q = let same : 0 + (j * N + n) ≡ j * N + n = omega arith in rw (same, p, q) refl

  -- The codes and scales of `N` rows fill both tensors.
  quant_writes-Fits :
      (f : Quant) (h : IsQuant gg g wide L.tensors f) (codes : List ℤ) (scales : List F)
      → In f L.quants
      → IsQuantized gg g codec fl L f (codes, scales)
      → length codes ≡ h.N * f.K
      → length scales ≡ h.N * (f.K / (if f.q.bits == 4 then f.q.group else f.K))
      → All (Fits gg g codec fl L) (quant_writes gg g codec fl f h.N codes scales)
  unfolding quant_writes
  quant_writes-Fits f h codes scales there quantized c s =
      let mw = codes_made gg g h.name f.q.bits f.K h.N in
      let ms = scales_made gg g h.name f.q.bits f.q.group f.K h.N in
      elim (Bool-cases (f.q.bits == 4)) [
        | inl four ↦
            let (even, whole) = h.even four in
            let w_size : nbytes gg g codec mw ≡ f.K / 2 * h.N =
              nbytes-codes h.name f.q.bits f.K h.N ∙ rw four refl in
            let s_size : nbytes gg g codec ms ≡ f.K / f.q.group * h.N * 4 =
              nbytes-scales h.name f.q.bits f.q.group f.K h.N ∙ rw four refl in
            let st =
              transpose_from gg g codec fl (f.K / f.q.group) h.N scales (f.K / f.q.group * h.N) 0 in
            let w_fits : length (pack_nibbles codes) ≡ nbytes gg g codec mw =
              length-pack_nibbles codes
              ∙ ap (λ (n : ℕ). n / 2) c
              ∙ half h.N f.K even
              ∙ sym w_size in
            let s_fits : length (codec.to_f32 st) ≡ nbytes gg g codec ms =
              sized.to_f32 st
              ∙ ap (λ (n : ℕ). n * 4)
                  (length-transpose_from gg g codec fl (f.K / f.q.group) h.N scales
                    (f.K / f.q.group * h.N) 0)
              ∙ sym s_size in
            let rows : h.N ≡ f.q.w_made.ne1 =
              sym (ap (λ (m : Made). m.ne1) h.w_is ∙ codes_ne1 h.name f.q.bits f.K h.N) in
            let scales_are : HasScales gg g codec fl L f (codec.to_f32 st) scales = (
              λ e. true-ne-false _ four e,
              λ e. (
                st,
                refl,
                subst
                    (λ (N : ℕ).
                      (n j : ℕ)
                      → n < N
                      → j < f.K / f.q.group
                      → get_or st (j * N + n) fl.zero_f
                        ≡ get_or scales (n * (f.K / f.q.group) + j) fl.zero_f)
                    rows (transposed (f.K / f.q.group) h.N scales),
              ),
            ) in
            let decodes : Decodes gg g codec fl L f.q.bits (pack_nibbles codes) codes =
              (λ e. unpacked h.N f.K codes c even, λ e. true-ne-false _ four e) in
            rw (quant_writes, four)
              (
                (
                  mw,
                  h.w_at,
                  w_fits,
                  inr (inr (f, there, (codes, scales), quantized, inl (refl, decodes))),
                ),
                (
                  (
                    ms,
                    h.s_at,
                    s_fits,
                    inr (inr (f, there, (codes, scales), quantized, inr (refl, scales_are))),
                  ),
                  tt,
                ),
              )
        | inr eight ↦
            let w_size : nbytes gg g codec mw ≡ f.K * h.N =
              nbytes-codes h.name f.q.bits f.K h.N ∙ rw eight refl in
            let s_size : nbytes gg g codec ms ≡ h.N * 4 =
              nbytes-scales h.name f.q.bits f.q.group f.K h.N ∙ rw eight refl in
            let per_row : length scales ≡ h.N * (f.K / f.K) = s ∙ rw eight refl in
            let one : f.K / f.K ≡ 1 = grind (arith, h.some_width) in
            let w_fits : length (map byte_of codes) ≡ nbytes gg g codec mw =
              length-map byte_of codes ∙ c ∙ grind arith ∙ sym w_size in
            let s_fits : length (codec.to_f32 scales) ≡ nbytes gg g codec ms =
              sized.to_f32 scales
              ∙ ap (λ (n : ℕ). n * 4) (per_row ∙ ap (λ (n : ℕ). h.N * n) one ∙ omega arith)
              ∙ sym s_size in
            let scales_are : HasScales gg g codec fl L f (codec.to_f32 scales) scales =
              (λ e. refl, λ e. true-ne-false _ e eight) in
            let decodes : Decodes gg g codec fl L f.q.bits (map byte_of codes) codes =
              (λ e. true-ne-false _ e eight, λ e. map-int8_of codes) in
            rw (quant_writes, eight)
              (
                (
                  mw,
                  h.w_at,
                  w_fits,
                  inr (inr (f, there, (codes, scales), quantized, inl (refl, decodes))),
                ),
                (
                  (
                    ms,
                    h.s_at,
                    s_fits,
                    inr (inr (f, there, (codes, scales), quantized, inr (refl, scales_are))),
                  ),
                  tt,
                ),
              )
      ]

  quant_writes-IsWritten :
      (f : Quant) (N i : ℕ) (codes : List ℤ) (scales : List F)
      → (f.q.w == i || f.q.s == i) ≡ true
      → IsWritten i (quant_writes gg g codec fl f N codes scales)
  unfolding quant_writes
  quant_writes-IsWritten f N i codes scales e = elim (Bool-cases (f.q.bits == 4)) [
    | inl four ↦
        rw (quant_writes, four)
          (elim (Bool-cases (f.q.w == i)) [
            | inl w ↦ inl ((==_iff f.q.w i).0 w)
            | inr other ↦ inr (inl (ground (arith, e, other)))
          ])
    | inr eight ↦
        rw (quant_writes, eight)
          (elim (Bool-cases (f.q.w == i)) [
            | inl w ↦ inl ((==_iff f.q.w i).0 w)
            | inr other ↦ inr (inl (ground (arith, e, other)))
          ])
  ]

  group_divides :
      (f : Quant)
      → IsQuant gg g wide L.tensors f
      → f.K
          / (if f.q.bits == 4 then f.q.group else f.K)
          * (if f.q.bits == 4 then f.q.group else f.K)
        ≡ f.K
  group_divides f h = elim (Bool-cases (f.q.bits == 4)) [
    | inl four ↦ rw four (h.even four).1
    | inr eight ↦ rw eight (grind (arith, h.some_width))
  ]

  pub fill_quant-Extends :
      (fs : List Quant) (done out : Writes)
      → All (λ f. IsQuant gg g wide L.tensors f × In f L.quants) fs
      → fill_quant gg g codec fl L fs done ≡ (true, out)
      → Extends gg g codec fl L done out
        × ((i : ℕ) → is_quant_part gg g codec i fs ≡ true → IsWritten i out)
  unfolding fill_quant is_quant_part
  fill_quant-Extends [] done out at e = (
    subst (Extends gg g codec fl L done) (Bool-pair gg g codec fl L e).1
        (Extends-none gg g codec fl L done),
    λ i h. absurd (cc),
  )
  fill_quant-Extends (f ∷ fs) done out ((h, there), hs) e =
      let G = if f.q.bits == 4 then f.q.group else f.K in
      elim (Option-cases (quant_sources gg g codec fl L f.q.bits G f.K f.srcs)) [
        | inl failed ↦ absurd (not_true gg g codec fl L (rw (fill_quant, failed) at e))
        | inr ((codes, scales), got) ↦ elim (Bool-cases (length codes / f.K == f.q.w_made.ne1)) [
          | inr wrong ↦ absurd (not_true gg g codec fl L (rw (fill_quant, got, wrong) at e))
          | inl right ↦
              let rows =
                quant_sources-AreRows gg g codec fl L f.q.bits G f.K f.srcs (codes, scales) sized
                  h.some_width (group_divides f h) got in
              let counted : length codes / f.K ≡ rows.n =
                ap (λ (n : ℕ). n / f.K) rows.codes ∙ quotient rows.n f.K h.some_width in
              let wanted : f.q.w_made.ne1 ≡ h.N =
                ap (λ (m : Made). m.ne1) h.w_is ∙ codes_ne1 h.name f.q.bits f.K h.N in
              let same : rows.n ≡ h.N = sym counted ∙ (==_iff _ _).0 right ∙ wanted in
              let N_is : length codes / f.K ≡ h.N = counted ∙ same in
              let new = quant_writes gg g codec fl f (length codes / f.K) codes scales in
              let (more, rest) =
                fill_quant-Extends fs (done ++ new) out hs (rw (fill_quant, got, right) at e) in
              let fit : All (Fits gg g codec fl L) new =
                subst
                  (λ n. All (Fits gg g codec fl L) (quant_writes gg g codec fl f n codes scales))
                  (sym N_is)
                  (quant_writes-Fits f h codes scales there got
                    (rows.codes ∙ ap (λ (n : ℕ). n * f.K) same)
                    (rows.scales ∙ ap (λ (n : ℕ). n * (f.K / G)) same)) in
              (
                Extends-after gg g codec fl L done new out fit more,
                λ i p. elim (Bool-cases (f.q.w == i || f.q.s == i)) [
                  | inl here ↦ Extends-IsWritten gg g codec fl L i more (
                      IsWritten-append_right i done new
                        (quant_writes-IsWritten f (length codes / f.K) i codes scales here))
                  | inr later ↦ rest i (ground (arith, p, later))
                ],
              )
        ]
      ]
