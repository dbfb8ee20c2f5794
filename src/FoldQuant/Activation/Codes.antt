-- ===== src/FoldQuant/Activation/Codes.antt =====
-- The codes of a row are in range, whatever floats go in, and the blob holds them.
use vla_cpp.Common.{
  ℕ, zero, suc, ◌*◌, ◌^◌, ◌≤◌, ◌≡◌, refl, ap, ◌∙◌, false, Option, List, [], ◌∷◌, map, length,
  length-map, All, arith, Bool-cases, inl, inr,
}
use vla_cpp.Common.Int.{ℤ, pos, negsuc, neg_ℤ}
use vla_cpp.FoldQuant.Floats.{FloatOps, Converts, Magnitude}
use vla_cpp.FoldQuant.Pack.{
  int8_of, pack_nibbles, unpack_nibbles, IsInt4, unpack_nibbles-pack_nibbles,
}
use vla_cpp.FoldQuant.Activation.{
  FqActSpec, to_byte, fq_act_store_bits, tabulate, qmax_int, quantize, row_codes, transformed,
  act_row, std_max, std_min,
}

length-tabulate {ℓ} : {A : Type ℓ} (n i : ℕ) (f : ℕ → A) → length (tabulate n i f) ≡ n
unfolding tabulate
length-tabulate zero i f = refl
length-tabulate (suc n) i f = ap suc (length-tabulate n (suc i) f)

All-tabulate {ℓ} :
    {A : Type ℓ} (P : A → Type 0) (n i : ℕ) (f : ℕ → A)
    → ((k : ℕ) → P (f k))
    → All P (tabulate n i f)
unfolding tabulate
All-tabulate P zero i f h = tt
All-tabulate P (suc n) i f h = (h i, All-tabulate P n (suc i) f h)

qmax_small : (bits : ℕ) → qmax_int bits ≤ 2 ^ 24
unfolding qmax_int
qmax_small bits = ground arith

qmax_byte : (bits : ℕ) → qmax_int bits ≤ 127
unfolding qmax_int
qmax_byte bits = ground arith

qmax_four : qmax_int 4 ≡ 7
unfolding qmax_int
qmax_four = refl

All-IsInt4 : (xs : List ℤ) → All (Magnitude 7) xs → All IsInt4 xs
All-IsInt4 [] h = tt
All-IsInt4 (pos n ∷ xs) (p, h) = (omega arith, All-IsInt4 xs h)
All-IsInt4 (negsuc n ∷ xs) (p, h) = (omega arith, All-IsInt4 xs h)

int8_of-to_byte : (i : ℤ) (n : ℕ) → n ≤ 127 → Magnitude n i → int8_of (to_byte i) ≡ i
unfolding int8_of to_byte
int8_of-to_byte (pos k) n h m = ground arith
int8_of-to_byte (negsuc k) n h m = ground arith

map-int8_of :
    (xs : List ℤ) (n : ℕ) → n ≤ 127 → All (Magnitude n) xs → map int8_of (map to_byte xs) ≡ xs
map-int8_of [] n h m = refl
map-int8_of (x ∷ xs) n h (m, ms) = rw (int8_of-to_byte x n h m, map-int8_of xs n h ms)

module _ (fl : FloatOps) (law : Converts fl) where
  open fl use {F}

  neg-Magnitude : (n : ℕ) → Magnitude n (neg_ℤ (pos n))
  neg-Magnitude zero = omega arith
  neg-Magnitude (suc n) = omega arith

  -- Both clamps, at the limit `n`: a NaN ends at the lower limit.
  clamp-Magnitude :
      (n : ℕ) (v : F)
      → n ≤ 2 ^ 24
      → Magnitude n
          (fl.trunc (std_min fl (fl.of_int (pos n)) (std_max fl (fl.neg (fl.of_int (pos n))) v)))
  clamp-Magnitude n v h = elim (Bool-cases (fl.lt (fl.neg (fl.of_int (pos n))) v)) [
    | inl above ↦ elim (Bool-cases (fl.lt v (fl.of_int (pos n)))) [
      | inl below ↦ rw (above, below) (law.within n v h above below)
      | inr high ↦ rw (above, high, law.exact n h) (omega arith)
    ]
    | inr low ↦ elim (Bool-cases (fl.lt (fl.neg (fl.of_int (pos n))) (fl.of_int (pos n)))) [
      | inl apart ↦ rw (low, apart, law.exact_neg n h) (neg-Magnitude n)
      | inr same ↦ rw (low, same, law.exact n h) (omega arith)
    ]
  ]

  quantize-Magnitude :
      (abits : ℕ) (inv v : F) → Magnitude (qmax_int abits) (quantize fl abits inv v)
  unfolding quantize
  quantize-Magnitude abits inv v =
      clamp-Magnitude (qmax_int abits) (fl.nearbyint (fl.mul v inv)) (qmax_small abits)

  row_codes-Magnitude :
      (s : FqActSpec F) (tmp : ℕ → F) → All (Magnitude (qmax_int s.abits)) (row_codes fl s tmp)
  unfolding row_codes
  row_codes-Magnitude s tmp = All-tabulate _ s.K 0 _ (λ k. quantize-Magnitude s.abits _ (tmp k))

  length-row_codes : (s : FqActSpec F) (tmp : ℕ → F) → length (row_codes fl s tmp) ≡ s.K
  unfolding row_codes
  length-row_codes s tmp = length-tabulate s.K 0 _

  module _ (s : FqActSpec F) (x : ℕ → F) (ascale gamma shift : Option (ℕ → F)) where
    -- The codes that the row's floats are rounded to.
    abbrev pub codes_of : List ℤ
    codes_of = row_codes fl s (transformed fl s x ascale gamma shift)

    packed_eq :
        s.abits ≡ 4
        → s.wide4 ≡ false
        → (act_row fl s x ascale gamma shift).0 ≡ pack_nibbles codes_of
    unfolding act_row
    packed_eq four narrow = simp (four, narrow)

    bytes_eq :
        fq_act_store_bits s ≡ 8 → (act_row fl s x ascale gamma shift).0 ≡ map to_byte codes_of
    unfolding act_row fq_act_store_bits
    bytes_eq e = ground arith

    -- With packed nibbles and a row of `2 * n` floats, the `n` bytes that are stored unpack to the
    -- row's codes, all between -7 and 7. It holds for all floats, also if some are not finite.
    pub act_row_packed :
        (n : ℕ)
        → s.K ≡ 2 * n
        → s.abits ≡ 4
        → s.wide4 ≡ false
        → (unpack_nibbles (act_row fl s x ascale gamma shift).0 ≡ codes_of)
          × All (Magnitude 7) codes_of
          × (length (act_row fl s x ascale gamma shift).0 ≡ n)
    act_row_packed n even four narrow =
        let seven : qmax_int s.abits ≡ 7 = rw four qmax_four in
        let small = rw seven at (row_codes-Magnitude s (transformed fl s x ascale gamma shift)) in
        let (same, count, _) =
          unpack_nibbles-pack_nibbles n codes_of (length-row_codes s _ ∙ even)
            (All-IsInt4 codes_of small) in
        rw (packed_eq four narrow) (same, small, count)

    -- With a byte for each code, the `K` bytes that are stored read as `int8_t` are the row's codes,
    -- all between -7 and 7 for four bits and between -127 and 127 otherwise. It holds for all floats,
    -- also if some are not finite.
    pub act_row_bytes :
        fq_act_store_bits s ≡ 8
        → (map int8_of (act_row fl s x ascale gamma shift).0 ≡ codes_of)
          × All (Magnitude (qmax_int s.abits)) codes_of
          × (length (act_row fl s x ascale gamma shift).0 ≡ s.K)
    act_row_bytes e =
        let small = row_codes-Magnitude s (transformed fl s x ascale gamma shift) in
        rw (bytes_eq e) (
          map-int8_of codes_of (qmax_int s.abits) (qmax_byte s.abits) small,
          small,
          length-map to_byte codes_of ∙ length-row_codes s _,
        )
