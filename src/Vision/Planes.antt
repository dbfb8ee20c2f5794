-- ===== src/Vision/Planes.antt =====
-- image_to_chw of src/modules/preprocess.h: which float stands where, and what is read.
use vla_cpp.Common.{
  ℕ, ◌+◌, ◌*◌, ◌≤◌, ◌<◌, ◌≡◌, refl, ap, ◌∙◌, inl, inr, true, some, ◌&&◌, ==_iff, Bool-cases, arith,
}
use mathlib.Core.Path.{subst}
use mathlib.Core.Option.{some-injective, none-ne-some}
use vla_cpp.Common.Int.{ℤ, pos, negsuc, eq_ℤ, ◌*ℤ◌}
use vla_cpp.Common.Loops.{for_range, store}
use vla_cpp.FoldQuant.Layout.{split_unique}
use vla_cpp.Serving.Message.{Pixels}
use vla_cpp.Vision.{
  Arith, View, view_is_side, area, plane_value, image_to_chw, preprocess_image_chw,
}
use vla_cpp.Vision.Loops.{for_range_keeps, for_range_makes, store_hit, store_keeps}

module _ (fl : Arith) (px : Pixels fl.F) (n : ℕ) (mean std : ℕ → fl.F) where
  open fl use {F}

  plane : ℕ → (ℕ → F) → ℕ → F
  plane c y =
      for_range n 0 (λ i y'. store (c * n + i) (plane_value fl px (mean c) (std c) c i) y') y

  value_at : ℕ → ℕ → F
  value_at c i = plane_value fl px (mean c) (std c) c i

  module _ (c i : ℕ) (channel : c < 3) (inside : i < n) where
    Holds : (ℕ → F) → Type 0
    Holds y = y (c * n + i) ≡ value_at c i

    plane_keeps : (d : ℕ) (y : ℕ → F) → Holds y → Holds (plane d y)
    unfolding plane value_at Holds
    plane_keeps d y h =
        for_range_keeps Holds (λ j y'. store (d * n + j) (value_at d j) y') n 0 y
          (λ j z lo hi p.
            store_keeps (d * n + j) (c * n + i) (value_at d j) (value_at c i) z
              (λ e.
                let (cs, js) = split_unique n d j c i (omega (arith, hi)) inside e in
                ap (λ a. value_at a j) cs ∙ ap (value_at c) js)
              p)
          h

    plane_makes : (y : ℕ → F) → Holds (plane c y)
    unfolding plane value_at Holds
    plane_makes y =
        for_range_makes Holds (λ j y'. store (c * n + j) (value_at c j) y') n 0 i y
          (λ j z lo hi p.
            store_keeps (c * n + j) (c * n + i) (value_at c j) (value_at c i) z
              (λ e. ap (value_at c) (split_unique n c j c i (omega (arith, hi)) inside e).1) p)
          (omega arith) (omega (arith, inside)) (λ z. store_hit (c * n + i) (value_at c i) z)

    pub image_to_chw-value :
        (out : ℕ → F)
        → image_to_chw fl px n mean std out (c * n + i) ≡ plane_value fl px (mean c) (std c) c i
    unfolding image_to_chw plane value_at Holds
    image_to_chw-value out =
        for_range_makes Holds plane 3 0 c out (λ d y lo hi. plane_keeps d y) (omega arith)
          (omega (arith, channel)) plane_makes

  pub image_to_chw-rest :
      (k : ℕ) (out : ℕ → F) → 3 * n ≤ k → image_to_chw fl px n mean std out k ≡ out k
  unfolding image_to_chw plane value_at
  image_to_chw-rest k out beyond =
      for_range_keeps (λ y. y k ≡ out k) plane 3 0 out
        (λ d y lo hi p.
          for_range_keeps (λ z. z k ≡ out k) (λ j z. store (d * n + j) (value_at d j) z) n 0 y
            (λ j z a b q.
              store_keeps (d * n + j) k (value_at d j) (out k) z
                (λ e. absurd (grind (arith, hi, b, e, beyond))) q)
            p)
        refl

eq_ℤ-pos : (a : ℤ) (n : ℕ) → eq_ℤ a (pos n) ≡ true → a ≡ pos n
eq_ℤ-pos (pos m) n e = ap pos ((==_iff m n).0 e)
eq_ℤ-pos (negsuc m) n e = absurd (cc)

pub view_is_side-pos :
    {F : Type 0} (v : View F) (px : Pixels F) (side : ℕ)
    → v.pixels ≡ some px
    → view_is_side v side ≡ true
    → (v.w ≡ pos side) × (v.h ≡ pos side)
unfolding view_is_side
view_is_side-pos v px side there square =
    let both : (eq_ℤ v.w (pos side) && eq_ℤ v.h (pos side)) ≡ true =
      rw (view_is_side, there) at square in
    (eq_ℤ-pos v.w side (ground (arith, both)), eq_ℤ-pos v.h side (ground (arith, both)))

area-side :
    {F : Type 0} (v : View F) (side : ℕ) → v.w ≡ pos side → v.h ≡ pos side → area v ≡ side * side
unfolding area ◌*ℤ◌
area-side v side w h = rw (w, h, area) refl

-- The floats of a square view: the planes one after the other, each with the value of every pixel in
-- the order of the pixels, and behind them what was there.
abbrev pub ArePlanes :
    (fl : Arith) → Pixels fl.F → ℕ → (ℕ → fl.F) → (ℕ → fl.F) → (ℕ → fl.F) → ℕ × (ℕ → fl.F) → Type 0
ArePlanes fl px side mean std out made =
    (made.0 ≡ 3 * (side * side))
    × ((c r col : ℕ)
        → c < 3
        → r < side
        → col < side
        → made.1 (c * (side * side) + (r * side + col))
          ≡ plane_value fl px (mean c) (std c) c (r * side + col))
    × ((k : ℕ) → made.0 ≤ k → made.1 k ≡ out k)

image_to_chw-ArePlanes :
    (fl : Arith) (px : Pixels fl.F) (side n : ℕ) (mean std out : ℕ → fl.F)
    → n ≡ side * side
    → ArePlanes fl px side mean std out (3 * side * side, image_to_chw fl px n mean std out)
image_to_chw-ArePlanes fl px side n mean std out e =
    let size : 3 * side * side ≡ 3 * (side * side) = grind arith in
    (
      size,
      λ c r col channel row column.
          let inside : r * side + col < n = grind (arith, e, row, column) in
          subst
            (λ m.
              image_to_chw fl px n mean std out (c * m + (r * side + col))
              ≡ plane_value fl px (mean c) (std c) c (r * side + col))
            e (image_to_chw-value fl px n mean std c (r * side + col) channel inside out),
      λ k beyond. image_to_chw-rest fl px n mean std k out (omega (arith, beyond, size, e)),
    )

-- Planes are given only of a view that is as wide and as high as the tower wants, and then each float of
-- a plane is the normalised channel of the pixel at its place, and nothing behind the planes is written.
pub preprocess_image_chw-ArePlanes :
    (fl : Arith) (v : View fl.F) (px : Pixels fl.F) (side : ℕ) (mean std out : ℕ → fl.F)
    (made : ℕ × (ℕ → fl.F))
    → v.pixels ≡ some px
    → preprocess_image_chw fl v side mean std out ≡ some made
    → (v.w ≡ pos side) × (v.h ≡ pos side) × ArePlanes fl px side mean std out made
unfolding preprocess_image_chw
preprocess_image_chw-ArePlanes fl v px side mean std out made there e =
    elim (Bool-cases (view_is_side v side)) [
      | inl square ↦
          let (w, h) = view_is_side-pos v px side there square in
          let planes : ArePlanes fl px side mean std out made =
            subst (ArePlanes fl px side mean std out)
              (some-injective _ _ (rw (preprocess_image_chw, there, square) at e))
              (image_to_chw-ArePlanes fl px side (area v) mean std out (area-side v side w h)) in
          (w, h, planes)
      | inr other ↦ absurd (none-ne-some _ (rw (preprocess_image_chw, there, other) at e))
    ]
