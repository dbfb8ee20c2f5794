-- ===== src/Vlm/Request/Bounded.antt =====
-- What the checks of src/serving/vlm-server.cpp leave for the engine: pictures of a bounded size that
-- are filled, and a bounded length of the answer.
use mathlib.Core.Path.{subst}
use vla_cpp.Common.{
  ℕ, suc, ◌+◌, ◌*◌, ◌%◌, ◌^◌, ◌≤◌, min, ◌≡◌, refl, sym, ap, ◌∙◌, inl, inr, false, not, some, List,
  [], ◌∷◌, length, length-take, take, All, ltb, ◌==◌, if◌then◌else◌, Result, ok, >>=-eq-ok,
  refuse_if, refuse_if-eq-ok, ok-injective, err-ne-ok, arith, Bool-cases, Option-cases,
}
use mathlib.Core.Option.{some-injective}
use vla_cpp.Common.Int.{ℤ, pos, leb_ℤ}
use vla_cpp.HfFetch.Names.{Str}
use vla_cpp.Serving.Decode.{Stb, int_dims_bad, dims_bad, size_mul, to_ℕ, int_max, max_image_dim}
use vla_cpp.Serving.Decode.Bounds.{size_mul_exact, dims_bad-eq-false, int_dims_bad-eq-false}
use vla_cpp.Vlm.{Encoding, jpeg, rgb_u8, other_encoding, Image, Sampling, ChatRequest, Picture, Why}
use vla_cpp.Vlm.Request.{
  max_total_pixels, add_pixels, take_jpeg, take_rgb, take_as, take_images, text_bytes,
  check_request, sampling_params,
}

-- The decoder gives the size that the header announced, and three bytes for each pixel.
abbrev pub IsHonest : Stb → Type 0
IsHonest stb =
    (d : Str) (w h : ℤ) (px : Str)
    → stb.load d ≡ some (w, h, px)
    → (stb.info d ≡ some (w, h)) × (3 * to_ℕ w * to_ℕ h ≤ length px)

abbrev pub IsFilled : Picture → Type 0
IsFilled p =
    ((1 ≤ p.width) × (p.width ≤ max_image_dim))
    × ((1 ≤ p.height) × (p.height ≤ max_image_dim))
    × (length p.rgb ≡ 3 * p.width * p.height)

abbrev pub total_pixels : List Picture → ℕ
total_pixels [] = 0
total_pixels (p ∷ ps) = p.width * p.height + total_pixels ps

-- A picture that was taken, with the pixels before and after it.
abbrev IsTaken : ℕ → Picture × ℕ → Type 0
IsTaken total (p, sum) = IsFilled p × (sum ≡ total + p.width * p.height) × (sum ≤ max_total_pixels)

area_bound : (w h : ℕ) → w ≤ 8192 → h ≤ 8192 → w * h ≤ 2 ^ 26
area_bound w h p q = grind arith

add_pixels_exact :
    (total w h sum : ℕ)
    → total ≤ max_total_pixels
    → w ≤ 8192
    → h ≤ 8192
    → add_pixels total w h ≡ ok sum
    → (sum ≡ total + w * h) × (sum ≤ max_total_pixels)
unfolding add_pixels size_mul
add_pixels_exact total w h sum t p q e =
    let one : w * h % 2 ^ 64 ≡ w * h = omega (arith, area_bound w h p q) in
    let two : (total + w * h) % 2 ^ 64 ≡ total + w * h = omega (arith, area_bound w h p q, t) in
    elim (Bool-cases (ltb max_total_pixels (total + w * h))) [
      | inl over ↦ absurd (err-ne-ok (rw (add_pixels, one, two, over) at e))
      | inr room ↦
          let same = ok-injective (rw (add_pixels, one, two, room) at e) in
          (sym same, ground (arith, same, room))
    ]

filled_lem :
    (w h : ℕ) (px : Str)
    → dims_bad w h ≡ false
    → length px ≡ 3 * w * h
    → IsFilled (record { width = w; height = h; rgb = px })
filled_lem w h px d l = let (a, b, c, e) = dims_bad-eq-false w h d in ((a, b), (c, e), l)

module _ (stb : Stb) (honest : IsHonest stb) where
  take_rgb-IsTaken :
      (v : ℕ) (im : Image) (total : ℕ) (out : Picture × ℕ)
      → total ≤ max_total_pixels
      → take_rgb v im total ≡ ok out
      → IsTaken total out
  unfolding take_rgb
  take_rgb-IsTaken v im total out t e =
      let (u, dims, e1) = >>=-eq-ok (refuse_if (dims_bad im.width im.height) _) _ e in
      let (u', size, e2) =
        >>=-eq-ok (refuse_if (not (length im.bytes == size_mul (size_mul 3 im.width) im.height)) _)
          _ e1 in
      let (sum, added, e3) = >>=-eq-ok (add_pixels total im.width im.height) _ e2 in
      let fine = refuse_if-eq-ok _ _ dims in
      let (a, b, c, d) = dims_bad-eq-false im.width im.height fine in
      let same : length im.bytes ≡ size_mul (size_mul 3 im.width) im.height =
        ground (arith, refuse_if-eq-ok _ _ size) in
      subst (IsTaken total) (ok-injective e3) (
        filled_lem im.width im.height im.bytes fine
            (same ∙ (size_mul_exact im.width im.height b d).0),
        (add_pixels_exact total im.width im.height sum t b d added).0,
        (add_pixels_exact total im.width im.height sum t b d added).1,
      )

  jpeg_lem :
      (d : Str) (total : ℕ) (jw jh w h : ℤ) (px : Str) (sum : ℕ) (out : Picture × ℕ)
      → total ≤ max_total_pixels
      → stb.load d ≡ some (w, h, px)
      → stb.info d ≡ some (jw, jh)
      → int_dims_bad jw jh ≡ false
      → add_pixels total (to_ℕ jw) (to_ℕ jh) ≡ ok sum
      → ◌≡◌ {A = Result Why (Picture × ℕ)}
          (ok (
            record {
              width = to_ℕ w;
              height = to_ℕ h;
              rgb = take (size_mul (size_mul 3 (to_ℕ w)) (to_ℕ h)) px;
            },
            sum,
          ))
          (ok out)
      → IsTaken total out
  jpeg_lem d total jw jh w h px sum out t loaded header dims added e =
      let (announced, long) = honest d w h px loaded in
      let same : ◌≡◌ {A = ℤ × ℤ} (jw, jh) (w, h) = some-injective _ _ (sym header ∙ announced) in
      let dims' = subst (λ p. int_dims_bad p.0 p.1 ≡ false) same dims in
      let added' = subst (λ p. add_pixels total (to_ℕ p.0) (to_ℕ p.1) ≡ ok sum) same added in
      let bad = (int_dims_bad-eq-false w h dims').2 in
      let (a, b, c, f) = dims_bad-eq-false (to_ℕ w) (to_ℕ h) bad in
      let n = size_mul (size_mul 3 (to_ℕ w)) (to_ℕ h) in
      let full : length (take n px) ≡ 3 * to_ℕ w * to_ℕ h =
        length-take n px ∙ rw (size_mul_exact (to_ℕ w) (to_ℕ h) b f).0 (omega (arith, long)) in
      let (sums, room) = add_pixels_exact total (to_ℕ w) (to_ℕ h) sum t b f added' in
      subst (IsTaken total) (ok-injective e)
        (filled_lem (to_ℕ w) (to_ℕ h) (take n px) bad full, sums, room)

  take_jpeg-IsTaken :
      (v : ℕ) (d : Str) (total : ℕ) (out : Picture × ℕ)
      → total ≤ max_total_pixels
      → take_jpeg stb v d total ≡ ok out
      → IsTaken total out
  unfolding take_jpeg
  take_jpeg-IsTaken v d total out t e =
      let (u, small, e1) = >>=-eq-ok (refuse_if (ltb int_max (length d)) _) _ e in
      elim (Option-cases (stb.info d)) [
        | inl bad ↦ absurd (err-ne-ok (rw bad at e1))
        | inr ((jw, jh), header) ↦
            let (u', dims, e2) = >>=-eq-ok (refuse_if (int_dims_bad jw jh) _) _ (rw header at e1) in
            let (sum, added, e3) = >>=-eq-ok (add_pixels total (to_ℕ jw) (to_ℕ jh)) _ e2 in
            elim (Option-cases (stb.load d)) [
              | inl bad ↦ absurd (err-ne-ok (rw bad at e3))
              | inr ((w, h, px), loaded) ↦
                  jpeg_lem d total jw jh w h px sum out t loaded header (refuse_if-eq-ok _ _ dims)
                    added (rw loaded at e3)
            ]
      ]

  take_as-IsTaken :
      (c : Encoding) (v : ℕ) (im : Image) (total : ℕ) (out : Picture × ℕ)
      → total ≤ max_total_pixels
      → take_as c stb v im total ≡ ok out
      → IsTaken total out
  unfolding take_as
  take_as-IsTaken jpeg v im total out t e = take_jpeg-IsTaken v im.bytes total out t e
  take_as-IsTaken rgb_u8 v im total out t e = take_rgb-IsTaken v im total out t e
  take_as-IsTaken other_encoding v im total out t e = absurd (err-ne-ok e)

  abbrev AreBounded : ℕ → List Image → List Picture → Type 0
  AreBounded total images ps =
      All IsFilled ps × (total + total_pixels ps ≤ max_total_pixels) × (length ps ≡ length images)

  take_images-AreBounded :
      (v : ℕ) (images : List Image) (total : ℕ) (ps : List Picture)
      → total ≤ max_total_pixels
      → take_images stb v images total ≡ ok ps
      → AreBounded total images ps
  unfolding take_images
  take_images-AreBounded v [] total ps t e =
      subst (AreBounded total []) (ok-injective e) (tt, omega arith, refl)
  take_images-AreBounded v (im ∷ images) total ps t e =
      let (taken, first, e1) = >>=-eq-ok (take_as im.encoding stb v im total) _ e in
      let (rest, others, e2) = >>=-eq-ok (take_images stb (suc v) images taken.1) _ e1 in
      let (filled, sum, room) = take_as-IsTaken im.encoding v im total taken t first in
      let (all, bound, count) = take_images-AreBounded (suc v) images taken.1 rest room others in
      subst (AreBounded total (im ∷ images)) (ok-injective e2)
        ((filled, all), omega (arith, sum, bound), ap suc count)

  -- A request that passes the checks gives the engine between 1 and 512 messages and at most 16
  -- pictures, one for each image, of 1 to 8192 pixels a side and together at most 64 Mi pixels,
  -- each with exactly three bytes for each pixel. It assumes that the JPEG decoder gives the size
  -- that its header announced, filled.
  pub check_request-AreBounded :
      {K : Type 0} (req : ChatRequest K) (ps : List Picture)
      → check_request stb req ≡ ok ps
      → All IsFilled ps
        × (total_pixels ps ≤ max_total_pixels)
        × (length ps ≡ length req.images)
        × (length ps ≤ 16)
        × (1 ≤ length req.messages)
        × (length req.messages ≤ 512)
  unfolding check_request
  check_request-AreBounded req ps e =
      let (u, some_messages, e1) = >>=-eq-ok (refuse_if (ltb (length req.messages) 1) _) _ e in
      let (u, few_messages, e2) = >>=-eq-ok (refuse_if (ltb 512 (length req.messages)) _) _ e1 in
      let (u, short, e3) =
        >>=-eq-ok (refuse_if (ltb (4 * 1024 * 1024) (text_bytes req.messages)) _) _ e2 in
      let (u, few_images, e4) = >>=-eq-ok (refuse_if (ltb 16 (length req.images)) _) _ e3 in
      let (all, bound, count) = take_images-AreBounded 0 req.images 0 ps (omega arith) e4 in
      let a = refuse_if-eq-ok _ _ some_messages in
      let b = refuse_if-eq-ok _ _ few_messages in
      let c = refuse_if-eq-ok _ _ few_images in
      (all, omega (arith, bound), count, ground arith, ground arith, ground arith)

-- Whatever length the client asks for, the engine is asked for at least one token and at most as
-- many as the context holds, or 4096 if no context length was given.
pub sampling_params-bounds :
    {K : Type 0} (defaults : K) (n_ctx : ℤ) (s : Sampling K)
    → (n : ℕ) × ((sampling_params defaults n_ctx (some s)).max_tokens ≡ pos n)
      × (1 ≤ n)
      × (n ≤ (if leb_ℤ n_ctx (pos 0) then 4096 else to_ℕ n_ctx))
unfolding sampling_params
sampling_params-bounds defaults n_ctx s =
    let cap = if leb_ℤ n_ctx (pos 0) then 4096 else to_ℕ n_ctx in
    let want = if leb_ℤ s.max_tokens (pos 0) then 256 else to_ℕ s.max_tokens in
    let one : 1 ≤ cap = ground arith in
    let two : 1 ≤ want = ground arith in (min want cap, refl, omega (arith, one, two), omega arith)
