-- ===== src/FoldQuant/Pack.antt =====
-- Two's-complement nibbles: the packing at the end of act_row and unpack_nibbles, of
-- src/foldquant_ref.cpp. A byte is its value below 256.
use vla_cpp.Common.{
  ℕ, ◌+◌, ◌-◌, ◌*◌, ◌/◌, ◌%◌, ◌<◌, ◌≡◌, refl, List, [], ◌∷◌, ltb, if◌then◌else◌, length, All, arith,
}
use vla_cpp.Common.Int.{ℤ, pos, negsuc}

-- `i & 0xF`
unfoldable pub low_nibble : ℤ → ℕ
low_nibble (pos n) = n % 16
low_nibble (negsuc n) = 15 - n % 16

-- `(int8_t) ((i0 & 0xF) | ((i1 & 0xF) << 4))`; the two halves share no bit.
unfoldable pub pack_pair : ℤ → ℤ → ℕ
unfolding low_nibble
pack_pair i0 i1 = low_nibble i0 + low_nibble i1 * 16

-- A nibble shifted to the top of an `int8_t` and back.
unfoldable pub sign_extend : ℕ → ℤ
sign_extend n = if ltb n 8 then pos n else negsuc (15 - n)

-- A byte read as an `int8_t`.
unfoldable pub int8_of : ℕ → ℤ
int8_of b = if ltb b 128 then pos b else negsuc (255 - b)

-- One round of the nibble loop for each pair of codes.
unfoldable pub pack_nibbles : List ℤ → List ℕ
unfolding pack_pair
pack_nibbles (i0 ∷ i1 ∷ rest) = pack_pair i0 i1 ∷ pack_nibbles rest
pack_nibbles _ = []

unfoldable pub unpack_nibbles : List ℕ → List ℤ
unfolding sign_extend
unpack_nibbles [] = []
unpack_nibbles (b ∷ bs) = sign_extend (b % 16) ∷ sign_extend (b / 16 % 16) ∷ unpack_nibbles bs

-- The values of four bits, and of the codes that act_row makes of them.
abbrev pub IsInt4 : ℤ → Type 0
IsInt4 (pos n) = n < 8
IsInt4 (negsuc n) = n < 8

-- The values of an `int8_t`.
abbrev pub IsInt8 : ℤ → Type 0
IsInt8 (pos n) = n < 128
IsInt8 (negsuc n) = n < 128

sign_extend-low_nibble : (i : ℤ) → IsInt4 i → sign_extend (low_nibble i) ≡ i
unfolding sign_extend low_nibble
sign_extend-low_nibble (pos n) h = ground arith
sign_extend-low_nibble (negsuc n) h = ground arith

low_nibble-lt : (i : ℤ) → low_nibble i < 16
unfolding low_nibble
low_nibble-lt (pos n) = omega arith
low_nibble-lt (negsuc n) = omega arith

pub unpack_pair :
    (i0 i1 : ℤ)
    → IsInt4 i0
    → IsInt4 i1
    → (sign_extend (pack_pair i0 i1 % 16) ≡ i0) × (sign_extend (pack_pair i0 i1 / 16 % 16) ≡ i1)
unfolding pack_pair
unpack_pair i0 i1 p q =
    let lo : pack_pair i0 i1 % 16 ≡ low_nibble i0 = omega (arith, low_nibble-lt i0) in
    let hi : pack_pair i0 i1 / 16 % 16 ≡ low_nibble i1 =
      omega (arith, low_nibble-lt i0, low_nibble-lt i1) in
    (rw lo (sign_extend-low_nibble i0 p), rw hi (sign_extend-low_nibble i1 q))

-- A row of an even number 2 * n of codes between -8 and 7 takes n bytes, each below 256, and
-- unpacking these bytes gives back the codes.
pub unpack_nibbles-pack_nibbles :
    (n : ℕ) (codes : List ℤ)
    → length codes ≡ 2 * n
    → All IsInt4 codes
    → (unpack_nibbles (pack_nibbles codes) ≡ codes)
      × (length (pack_nibbles codes) ≡ n)
      × All (λ b. b < 256) (pack_nibbles codes)
unfolding unpack_nibbles pack_nibbles
unpack_nibbles-pack_nibbles n [] e h = (refl, omega arith, tt)
unpack_nibbles-pack_nibbles n (i0 ∷ []) e h = absurd (omega arith)
unpack_nibbles-pack_nibbles n (i0 ∷ i1 ∷ rest) e (p, (q, h)) =
    let (same, count, bytes) = unpack_nibbles-pack_nibbles (n - 1) rest (omega arith) h in
    let (lo, hi) = unpack_pair i0 i1 p q in
    (
      rw (lo, hi, same),
      omega (arith, count),
      (omega (arith, low_nibble-lt i0, low_nibble-lt i1), bytes),
    )
