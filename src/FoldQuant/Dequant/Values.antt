-- ===== src/FoldQuant/Dequant/Values.antt =====
-- Which floats fq_dequant_rows of src/foldquant.cpp makes, entry by entry.
use vla_cpp.Common.{
  ℕ, zero, suc, ◌+◌, ◌*◌, ◌/◌, ◌%◌, ◌<◌, ◌≡◌, refl, ap, ◌∙◌, inl, inr, Bool, true, false, Option,
  none, some, List, [], ◌∷◌, ◌++◌, length, length-take, length-drop, map, take, drop, get_or, ltb,
  ◌==◌, if◌then◌else◌, Bool-cases, arith,
}
use mathlib.Core.Path.{fun_ext}
use vla_cpp.Common.Int.{ℤ, pos}
use vla_cpp.HfFetch.Names.{Str}
use vla_cpp.FoldQuant.Floats.{FloatOps}
use vla_cpp.FoldQuant.Pack.{sign_extend, int8_of, unpack_nibbles}
use vla_cpp.FoldQuant.Rotate.{fwht_row}
use vla_cpp.FoldQuant.Dequant.{tabulate, fold, dequant_row, fq_dequant_rows, fq_w_kpack}

module _ {A : Type 0} where
  get_or-take : (n i : ℕ) (xs : List A) (d : A) → i < n → get_or (take n xs) i d ≡ get_or xs i d
  get_or-take zero i xs d h = absurd (omega (arith, h))
  get_or-take (suc n) i [] d h = refl
  get_or-take (suc n) zero (x ∷ xs) d h = refl
  get_or-take (suc n) (suc i) (x ∷ xs) d h = get_or-take n i xs d (omega (arith, h))

  get_or-drop : (n i : ℕ) (xs : List A) (d : A) → get_or (drop n xs) i d ≡ get_or xs (n + i) d
  get_or-drop zero i xs d = ap (λ j. get_or xs j d) (omega arith)
  get_or-drop (suc n) i [] d = refl
  get_or-drop (suc n) i (x ∷ xs) d =
      let next : suc (n + i) ≡ suc n + i = omega arith in
      get_or-drop n i xs d ∙ ap (λ j. get_or (x ∷ xs) j d) next

  get_or-append_left :
      (xs ys : List A) (i : ℕ) (d : A) → i < length xs → get_or (xs ++ ys) i d ≡ get_or xs i d
  get_or-append_left [] ys i d h = absurd (omega (arith, h))
  get_or-append_left (x ∷ xs) ys zero d h = refl
  get_or-append_left (x ∷ xs) ys (suc i) d h = get_or-append_left xs ys i d (omega (arith, h))

  get_or-append_right :
      (xs ys : List A) (n i : ℕ) (d : A)
      → length xs ≡ n
      → get_or (xs ++ ys) (n + i) d ≡ get_or ys i d
  get_or-append_right [] ys zero i d e = ap (λ j. get_or ys j d) (omega arith)
  get_or-append_right [] ys (suc n) i d e = absurd (omega (arith, e))
  get_or-append_right (x ∷ xs) ys zero i d e = absurd (omega (arith, e))
  get_or-append_right (x ∷ xs) ys (suc n) i d e =
      let next : suc n + i ≡ suc (n + i) = omega arith in
      ap (λ j. get_or (x ∷ (xs ++ ys)) j d) next
      ∙ get_or-append_right xs ys n i d (omega (arith, e))

  get_or-tabulate :
      (f : ℕ → A) (n k i : ℕ) (d : A) → i < n → get_or (tabulate f n k) i d ≡ f (k + i)
  unfolding tabulate
  get_or-tabulate f zero k i d h = absurd (omega (arith, h))
  get_or-tabulate f (suc n) k zero d h = ap f (omega arith)
  get_or-tabulate f (suc n) k (suc i) d h =
      get_or-tabulate f n (suc k) i d (omega (arith, h)) ∙ ap f (omega arith)

-- The low nibble of a byte, or its high one.
abbrev pub nibble_at : ℕ → ℕ → ℤ
nibble_at b zero = sign_extend (b % 16)
nibble_at b (suc i) = sign_extend (b / 16 % 16)

-- The code in row `n` and column `j` of rows of `K` codes: a byte each, or two to a byte.
abbrev pub code_at : ℕ → ℕ → Str → ℕ → ℕ → ℤ
code_at wbits K codes n j =
    if ltb j K
    then (if wbits == 4
        then nibble_at (get_or codes (n * (K / 2) + j / 2) 0) (j % 2)
        else int8_of (get_or codes (n * K + j) 0))
    else pos 0

get_or-map :
    (xs : Str) (i : ℕ)
    → get_or (map int8_of xs) i (pos 0)
      ≡ (if ltb i (length xs) then int8_of (get_or xs i 0) else pos 0)
get_or-map [] i = let none_left : ltb i 0 ≡ false = ground arith in rw none_left refl
get_or-map (x ∷ xs) zero = let here : ltb 0 (suc (length xs)) ≡ true = ground arith in rw here refl
get_or-map (x ∷ xs) (suc i) =
    let same : ltb i (length xs) ≡ ltb (suc i) (suc (length xs)) = ground arith in
    get_or-map xs i ∙ ap (λ b. if b then int8_of (get_or xs i 0) else pos 0) same

get_or-unpack_nibbles :
    (xs : Str) (i : ℕ)
    → get_or (unpack_nibbles xs) i (pos 0)
      ≡ (if ltb i (2 * length xs) then nibble_at (get_or xs (i / 2) 0) (i % 2) else pos 0)
unfolding unpack_nibbles
get_or-unpack_nibbles [] i = let none_left : ltb i 0 ≡ false = ground arith in rw none_left refl
get_or-unpack_nibbles (x ∷ xs) zero =
    let here : ltb 0 (2 * suc (length xs)) ≡ true = ground arith in rw here refl
get_or-unpack_nibbles (x ∷ xs) (suc zero) =
    let here : ltb 1 (2 * suc (length xs)) ≡ true = ground arith in rw here refl
get_or-unpack_nibbles (x ∷ xs) (suc (suc i)) =
    let within : ltb i (2 * length xs) ≡ ltb (suc (suc i)) (2 * suc (length xs)) = ground arith in
    let quotient : suc (suc i) / 2 ≡ suc (i / 2) = omega arith in
    let remainder : suc (suc i) % 2 ≡ i % 2 = omega arith in
    get_or-unpack_nibbles xs i ∙ rw (within, quotient, remainder) refl

-- What is decoded of the first row.
decoded : ℕ → ℕ → Str → List ℤ
unfolding fq_w_kpack
decoded K wbits codes =
    let row = take (fq_w_kpack K wbits) codes in
    if wbits == 4 then unpack_nibbles row else map int8_of row

decoded-code_at :
    (K wbits n : ℕ) (codes : Str)
    → K % 2 ≡ 0
    → length codes ≡ fq_w_kpack K wbits * suc n
    → (λ k. get_or (decoded K wbits codes) k (pos 0)) ≡ code_at wbits K codes 0
unfolding decoded fq_w_kpack
decoded-code_at K wbits n codes even e = fun_ext (λ k. elim (Bool-cases (wbits == 4)) [
  | inl four ↦
      let size : length codes ≡ K / 2 * suc n = e ∙ rw four refl in
      let split : K / 2 * suc n ≡ K / 2 + K / 2 * n = grind arith in
      let row : 2 * length (take (K / 2) codes) ≡ K =
        omega (arith, even, size, split, length-take (K / 2) codes) in
      rw four (
        get_or-unpack_nibbles (take (K / 2) codes) k ∙ elim (Bool-cases (ltb k K)) [
          | inl inside ↦
              let first : k / 2 ≡ 0 * (K / 2) + k / 2 = omega arith in
              rw (row, inside)
                (ap (λ b. nibble_at b (k % 2))
                  (get_or-take (K / 2) (k / 2) codes 0 (ground (arith, inside, even))
                    ∙ ap (λ i. get_or codes i 0) first))
          | inr outside ↦ rw (row, outside) refl
        ])
  | inr eight ↦
      let size : length codes ≡ K * suc n = e ∙ rw eight refl in
      let split : K * suc n ≡ K + K * n = grind arith in
      let row : length (take K codes) ≡ K = omega (arith, size, split, length-take K codes) in
      rw eight (
        get_or-map (take K codes) k ∙ elim (Bool-cases (ltb k K)) [
          | inl inside ↦
              let first : k ≡ 0 * K + k = omega arith in
              rw (row, inside)
                (ap int8_of (
                  get_or-take K k codes 0 (ground (arith, inside))
                  ∙ ap (λ i. get_or codes i 0) first))
          | inr outside ↦ rw (row, outside) refl
        ])
])

code_at-drop :
    (wbits K n j : ℕ) (codes : Str)
    → code_at wbits K (drop (fq_w_kpack K wbits) codes) n j ≡ code_at wbits K codes (suc n) j
unfolding fq_w_kpack
code_at-drop wbits K n j codes = elim (Bool-cases (wbits == 4)) [
  | inl four ↦
      let next : K / 2 + (n * (K / 2) + j / 2) ≡ suc n * (K / 2) + j / 2 = grind arith in
      rw four (
        ap (λ b. if ltb j K then nibble_at b (j % 2) else pos 0)
          (get_or-drop (K / 2) (n * (K / 2) + j / 2) codes 0 ∙ ap (λ i. get_or codes i 0) next))
  | inr eight ↦
      let next : K + (n * K + j) ≡ suc n * K + j = grind arith in
      rw eight (
        ap (λ b. if ltb j K then int8_of b else pos 0)
          (get_or-drop K (n * K + j) codes 0 ∙ ap (λ i. get_or codes i 0) next))
]

module _ (fl : FloatOps) where
  open fl use {F, zero_f, one_f, mul, div, of_int, inv_sqrt}

  -- `x / a`, where there is an `a`.
  abbrev pub divided : Option (List F) → (ℕ → F) → ℕ → F
  divided none x = x
  divided (some a) x = λ k. div (x k) (get_or a k one_f)

  -- The rotation in blocks of `rot`, of which there is none for 1.
  abbrev pub rotated : ℕ → ℕ → (ℕ → F) → ℕ → F
  rotated K rot x = if ltb 1 rot then fwht_row fl K 0 K rot (inv_sqrt rot) x else x

  -- Each code by the scale of its row.
  abbrev pub scaled : ℕ → ℕ → Str → List F → ℕ → ℕ → F
  scaled wbits K codes ws n j = mul (of_int (code_at wbits K codes n j)) (get_or ws n zero_f)

  -- Row `n` of the float weight: R(w) / a where the activations are divided before the rotation, and
  -- R(w / a) where they are divided after it.
  abbrev pub weight_row : ℕ → ℕ → ℕ → Bool → Option (List F) → Str → List F → ℕ → ℕ → F
  weight_row K wbits rot true as_ codes ws n =
      divided as_ (rotated K rot (scaled wbits K codes ws n))
  weight_row K wbits rot false as_ codes ws n =
      rotated K rot (divided as_ (scaled wbits K codes ws n))

  dequant_row-tabulate :
      (K rot : ℕ) (before : Bool) (as_ : Option (List F)) (codes : Str) (ws : List F) (wbits n : ℕ)
      → K % 2 ≡ 0
      → length codes ≡ fq_w_kpack K wbits * suc n
      → dequant_row fl K rot before as_ (decoded K wbits codes) (get_or ws 0 zero_f)
        ≡ tabulate (weight_row K wbits rot before as_ codes ws 0) K 0
  unfolding dequant_row fold
  dequant_row-tabulate K rot true none codes ws wbits n even e =
      let q = decoded-code_at K wbits n codes even e in
      ap (λ f. tabulate (rotated K rot (λ k. mul (of_int (f k)) (get_or ws 0 zero_f))) K 0) q
  dequant_row-tabulate K rot false none codes ws wbits n even e =
      let q = decoded-code_at K wbits n codes even e in
      ap (λ f. tabulate (rotated K rot (λ k. mul (of_int (f k)) (get_or ws 0 zero_f))) K 0) q
  dequant_row-tabulate K rot true (some a) codes ws wbits n even e =
      let q = decoded-code_at K wbits n codes even e in
      ap
        (λ f.
          tabulate (divided (some a) (rotated K rot (λ k. mul (of_int (f k)) (get_or ws 0 zero_f))))
            K 0)
        q
  dequant_row-tabulate K rot false (some a) codes ws wbits n even e =
      let q = decoded-code_at K wbits n codes even e in
      ap
        (λ f.
          tabulate (rotated K rot (divided (some a) (λ k. mul (of_int (f k)) (get_or ws 0 zero_f))))
            K 0)
        q

  weight_row-drop :
      (K wbits rot : ℕ) (before : Bool) (as_ : Option (List F)) (codes : Str) (ws : List F) (n : ℕ)
      → weight_row K wbits rot before as_ (drop (fq_w_kpack K wbits) codes) (drop 1 ws) n
        ≡ weight_row K wbits rot before as_ codes ws (suc n)
  weight_row-drop K wbits rot before as_ codes ws n =
      let same : scaled wbits K (drop (fq_w_kpack K wbits) codes) (drop 1 ws) n
          ≡ scaled wbits K codes ws (suc n) =
        fun_ext (λ j.
          ap (λ c. mul (of_int c) (get_or (drop 1 ws) n zero_f)) (code_at-drop wbits K n j codes)
          ∙ ap (λ x. mul (of_int (code_at wbits K codes (suc n) j)) x)
              (get_or-drop 1 n ws zero_f ∙ ap (λ i. get_or ws i zero_f) (omega arith))) in
      by_order before as_ same
    where
      by_order :
          (before : Bool) (as_ : Option (List F))
          → scaled wbits K (drop (fq_w_kpack K wbits) codes) (drop 1 ws) n
            ≡ scaled wbits K codes ws (suc n)
          → weight_row K wbits rot before as_ (drop (fq_w_kpack K wbits) codes) (drop 1 ws) n
            ≡ weight_row K wbits rot before as_ codes ws (suc n)
      by_order true as_ e = ap (λ x. divided as_ (rotated K rot x)) e
      by_order false as_ e = ap (λ x. rotated K rot (divided as_ x)) e

  length-tabulate_row : (f : ℕ → F) (n k : ℕ) → length (tabulate f n k) ≡ n
  unfolding tabulate
  length-tabulate_row f zero k = refl
  length-tabulate_row f (suc n) k = ap suc (length-tabulate_row f n (suc k))

  -- Entry `k` of row `n` of the floats that are made of codes for all rows.
  pub fq_dequant_rows-weight_row :
      (K wbits rot : ℕ) (before : Bool) (as_ : Option (List F)) (left : ℕ) (codes : Str)
      (ws : List F) (n k : ℕ)
      → K % 2 ≡ 0
      → length codes ≡ fq_w_kpack K wbits * left
      → n < left
      → k < K
      → get_or (fq_dequant_rows fl K wbits rot before as_ left codes ws) (n * K + k) zero_f
        ≡ weight_row K wbits rot before as_ codes ws n k
  unfolding fq_dequant_rows decoded
  fq_dequant_rows-weight_row K wbits rot before as_ zero codes ws n k even e h i =
      absurd (omega (arith, h))
  fq_dequant_rows-weight_row K wbits rot before as_ (suc left) codes ws zero k even e h i =
      let rest_floats =
        fq_dequant_rows fl K wbits rot before as_ left (drop (fq_w_kpack K wbits) codes)
          (drop 1 ws) in
      let row = weight_row K wbits rot before as_ codes ws 0 in
      let first = dequant_row-tabulate K rot before as_ codes ws wbits left even e in
      let here : 0 * K + k ≡ k = omega arith in
      let same : 0 + k ≡ k = omega arith in
      ap (λ r. get_or (r ++ rest_floats) (0 * K + k) zero_f) first
      ∙ ap (λ j. get_or (tabulate row K 0 ++ rest_floats) j zero_f) here
      ∙ get_or-append_left (tabulate row K 0) rest_floats k zero_f
          (omega (arith, i, length-tabulate_row row K 0))
      ∙ get_or-tabulate row K 0 k zero_f i
      ∙ ap row same
  fq_dequant_rows-weight_row K wbits rot before as_ (suc left) codes ws (suc m) k even e h i =
      let kpack = fq_w_kpack K wbits in
      let rest_floats =
        fq_dequant_rows fl K wbits rot before as_ left (drop (fq_w_kpack K wbits) codes)
          (drop 1 ws) in
      let row = weight_row K wbits rot before as_ codes ws 0 in
      let first = dequant_row-tabulate K rot before as_ codes ws wbits left even e in
      let later : suc m * K + k ≡ K + (m * K + k) = grind arith in
      let split : kpack * suc left ≡ kpack + kpack * left = grind arith in
      let rest =
        fq_dequant_rows-weight_row K wbits rot before as_ left (drop kpack codes) (drop 1 ws) m k
          even (omega (arith, e, split, length-drop kpack codes)) (omega (arith, h)) i in
      ap (λ r. get_or (r ++ rest_floats) (suc m * K + k) zero_f) first
      ∙ ap (λ j. get_or (tabulate row K 0 ++ rest_floats) j zero_f) later
      ∙ get_or-append_right (tabulate row K 0) rest_floats K (m * K + k) zero_f
          (length-tabulate_row row K 0)
      ∙ rest
      ∙ ap (λ f. f k) (weight_row-drop K wbits rot before as_ codes ws m)
