-- ===== src/Serving/Decode/Bounds.antt =====
-- What holds of a decoded view: its dimensions are in range, its pixels fill it exactly and its
-- floats are finite; and which images are accepted.
use vla_cpp.Common.{
  ℕ, suc, ◌-◌, ◌*◌, ◌%◌, ◌^◌, ◌≤◌, ◌≡◌, ◌≢◌, refl, inl, inr, true, false, none, some, List, [], ◌∷◌,
  length, take, All, arith, Bool-cases, Option-cases, length-take, ◌∙◌,
}
use vla_cpp.Common.Int.{ℤ, pos, negsuc}
use vla_cpp.Serving.Message.{
  Image, Encoding, Pixels, u8, f32, ImageView, jpeg, rgb_u8, f32_rgb_01, unknown,
}
use vla_cpp.Serving.Decode.{
  Floats, Stb, max_image_dim, size_mul, int_dims_bad, dims_bad, to_ℕ, floats_of, find_from,
  find_non_finite, decode_jpeg, decode_rgb, decode_f32, decode_image,
}

area_bound : (w h : ℕ) → w ≤ 8192 → h ≤ 8192 → 3 * w * h ≤ 2 ^ 28
area_bound w h p q = grind arith

none-ne-some {ℓ} : {A : Type ℓ} {a : A} → none ≢ some a
none-ne-some e = cc

-- No dimension that passes the test makes the size arithmetic wrap.
pub size_mul_exact :
    (w h : ℕ)
    → w ≤ 8192
    → h ≤ 8192
    → (size_mul (size_mul 3 w) h ≡ 3 * w * h)
      × (size_mul (size_mul (size_mul 3 w) h) 4 ≡ 4 * (3 * w * h))
unfolding size_mul
size_mul_exact w h p q =
    let one : 3 * w % 2 ^ 64 ≡ 3 * w = omega arith in
    let two : 3 * w * h % 2 ^ 64 ≡ 3 * w * h = omega (arith, area_bound w h p q) in
    (rw (one, two), rw (one, two) (omega (arith, area_bound w h p q)))

pub dims_bad-eq-false :
    (w h : ℕ) → dims_bad w h ≡ false → (1 ≤ w) × (w ≤ max_image_dim) × (1 ≤ h) × (h ≤ max_image_dim)
unfolding dims_bad
dims_bad-eq-false w h e = ground arith

pub int_dims_bad-eq-false :
    (w h : ℤ)
    → int_dims_bad w h ≡ false
    → (w ≡ pos (to_ℕ w)) × (h ≡ pos (to_ℕ h)) × (dims_bad (to_ℕ w) (to_ℕ h) ≡ false)
unfolding int_dims_bad dims_bad
int_dims_bad-eq-false (pos w) (pos h) e = ground arith
int_dims_bad-eq-false (pos w) (negsuc h) e = ground arith
int_dims_bad-eq-false (negsuc w) h e = ground arith

module _ (fl : Floats) where
  open fl use {F, is_finite}

  abbrev pub IsFinite : F → Type 0
  IsFinite x = is_finite x ≡ true

  pub find_from-eq-none : (i : ℕ) (xs : List F) → find_from fl i xs ≡ none → All IsFinite xs
  unfolding find_from
  find_from-eq-none i [] e = tt
  find_from-eq-none i (x ∷ xs) e = ground (arith, find_from-eq-none (suc i) xs)

  pub find_from_of_All : (i : ℕ) (xs : List F) → All IsFinite xs → find_from fl i xs ≡ none
  unfolding find_from
  find_from_of_All i [] h = refl
  find_from_of_All i (x ∷ xs) (p, h) = rw p (find_from_of_All (suc i) xs h)

  length-floats_of : (n : ℕ) (bs : List ℕ) → length bs ≡ 4 * n → length (floats_of fl bs) ≡ n
  unfolding floats_of
  length-floats_of n (a ∷ b ∷ c ∷ d ∷ rest) h =
      omega (arith, length-floats_of (n - 1) rest (omega arith))
  length-floats_of n _ h = omega arith

  -- The pixels fill the view, and floats among them are finite.
  abbrev pub Fit : ℕ → ℕ → Pixels F → Type 0
  Fit w h (u8 bytes) = length bytes ≡ 3 * w * h
  Fit w h (f32 values) = (length values ≡ 3 * w * h) × All IsFinite values

  pub record IsDecoded (v : ImageView F) : Type 0 where
    pub w_pos : 1 ≤ v.w
    pub w_max : v.w ≤ max_image_dim
    pub h_pos : 1 ≤ v.h
    pub h_max : v.h ≤ max_image_dim
    pub fit : Fit v.w v.h v.pixels

  -- stb_image documents that a decoded image with three channels has w * h * 3 bytes.
  abbrev pub FillsImage : Stb → Type 0
  FillsImage stb =
      (bytes : List ℕ) (w h : ℕ) (px : List ℕ)
      → stb.load bytes ≡ some (pos w, pos h, px)
      → length px ≡ 3 * w * h

  decode_rgb-IsDecoded : (img : Image) (v : ImageView F) → decode_rgb fl img ≡ some v → IsDecoded v
  unfolding decode_rgb dims_bad
  decode_rgb-IsDecoded img v e = ground (arith, size_mul_exact img.width img.height)

  view_sound :
      (w h : ℕ) (px : Pixels F)
      → dims_bad w h ≡ false
      → Fit w h px
      → IsDecoded (record { pixels = px; w = w; h = h })
  view_sound w h px good fit =
      let (w_pos, w_max, h_pos, h_max) = dims_bad-eq-false w h good in
      record { w_pos = w_pos; w_max = w_max; h_pos = h_pos; h_max = h_max; fit = fit }

  module _ (img : Image) (good : dims_bad img.width img.height ≡ false) where
    floats_fit :
        length img.bytes ≡ size_mul (size_mul (size_mul 3 img.width) img.height) 4
        → length (floats_of fl img.bytes) ≡ 3 * img.width * img.height
    floats_fit e =
        let (_, w_max, _, h_max) = dims_bad-eq-false img.width img.height good in
        length-floats_of _ img.bytes (e ∙ (size_mul_exact img.width img.height w_max h_max).1)

  decode_f32-IsDecoded : (img : Image) (v : ImageView F) → decode_f32 fl img ≡ some v → IsDecoded v
  unfolding decode_f32
  decode_f32-IsDecoded img v e = elim (Bool-cases (dims_bad img.width img.height)) [
    | inl bad ↦ absurd (none-ne-some (rw (bad, decode_f32) at e))
    | inr good ↦ elim (Option-cases (find_non_finite fl (floats_of fl img.bytes))) [
      | inl clean ↦ ground (
        arith,
        view_sound img.width img.height (f32 (floats_of fl img.bytes)) good,
        floats_fit img good,
        find_from-eq-none 0 (floats_of fl img.bytes) clean,
      )
      | inr (i, found) ↦ ground arith
    ]
  ]

  int_view_sound :
      (w h : ℤ) (px : List ℕ)
      → int_dims_bad w h ≡ false
      → ((a b : ℕ) → w ≡ pos a → h ≡ pos b → length px ≡ 3 * a * b)
      → IsDecoded (record {
        pixels = u8 (take (size_mul (size_mul 3 (to_ℕ w)) (to_ℕ h)) px);
        w = to_ℕ w;
        h = to_ℕ h;
      })
  int_view_sound w h px good filled =
      let (w_nat, h_nat, small) = int_dims_bad-eq-false w h good in
      let (_, w_max, _, h_max) = dims_bad-eq-false (to_ℕ w) (to_ℕ h) small in
      view_sound (to_ℕ w) (to_ℕ h) _ small (
        omega (
          arith,
          length-take (size_mul (size_mul 3 (to_ℕ w)) (to_ℕ h)) px,
          filled (to_ℕ w) (to_ℕ h) w_nat h_nat,
          (size_mul_exact (to_ℕ w) (to_ℕ h) w_max h_max).0,
        ))

  decode_jpeg-IsDecoded :
      (stb : Stb) (bytes : List ℕ) (v : ImageView F)
      → FillsImage stb
      → decode_jpeg fl stb bytes ≡ some v
      → IsDecoded v
  unfolding decode_jpeg
  decode_jpeg-IsDecoded stb bytes v fills e = elim (Option-cases (stb.info bytes)) [
    | inl unread ↦ ground arith
    | inr ((w, h), read) ↦ elim (Option-cases (stb.load bytes)) [
      | inl failed ↦ ground arith
      | inr ((w', h', px), loaded) ↦ ground (
        arith,
        int_view_sound w' h' px,
        λ (a b : ℕ) (p : w' ≡ pos a) (q : h' ≡ pos b). fills bytes a b px (cc),
      )
    ]
  ]

  -- A view that decode_image produces has both sides in 1..8192, exactly 3 * w * h samples, and no
  -- float sample that is not finite, if the JPEG decoder fills the image that it reports.
  pub decode_image-IsDecoded :
      (stb : Stb) (img : Image) (v : ImageView F)
      → FillsImage stb
      → decode_image fl stb img ≡ some v
      → IsDecoded v
  unfolding decode_image
  decode_image-IsDecoded stb img v fills e = by_encoding img.encoding refl
    where
      by_encoding : (c : Encoding) → img.encoding ≡ c → IsDecoded v
      by_encoding jpeg c = decode_jpeg-IsDecoded stb img.bytes v fills (rw (c, decode_image) at e)
      by_encoding rgb_u8 c = decode_rgb-IsDecoded img v (rw (c, decode_image) at e)
      by_encoding f32_rgb_01 c = decode_f32-IsDecoded img v (rw (c, decode_image) at e)
      by_encoding (unknown n) c = absurd (none-ne-some (rw (c, decode_image) at e))
