-- ===== src/Vision/Patches.antt =====
-- preprocess_image_patches of src/modules/preprocess.h: every pixel of the view in its place of its patch.
use vla_cpp.Common.{
  ℕ, ◌+◌, ◌*◌, ◌/◌, ◌%◌, ◌≤◌, ◌<◌, ◌≡◌, refl, sym, ap, get_or, ◌∙◌, inl, inr, some, Bool-cases,
  arith,
}
use mathlib.Core.Path.{subst}
use mathlib.Core.Option.{some-injective, none-ne-some}
use vla_cpp.Common.Int.{pos}
use vla_cpp.Common.Loops.{for_range, store}
use vla_cpp.FoldQuant.Layout.{split_unique}
use vla_cpp.Serving.Message.{Pixels, u8, f32}
use vla_cpp.Vision.{
  Arith, View, view_is_side, pixel_at, patch_index, patch_value, fill_patches,
  preprocess_image_patches,
}
use vla_cpp.Vision.Loops.{for_range_keeps, for_range_makes, store_hit, store_keeps}
use vla_cpp.Vision.Planes.{view_is_side-pos}

-- One place of the patches.
record Place : Type 0 where
  pub row : ℕ
  pub col : ℕ
  pub ph : ℕ
  pub pw : ℕ
  pub ch : ℕ

module _ (fl : Arith) (px : Pixels fl.F) (side grid ps : ℕ) where
  open fl use {F}

  record IsIn (p : Place) : Type 0 where
    pub row_in : p.row < grid
    pub col_in : p.col < grid
    pub ph_in : p.ph < ps
    pub pw_in : p.pw < ps
    pub ch_in : p.ch < 3

  index : Place → ℕ
  index p = patch_index fl grid ps p.row p.col p.ph p.pw p.ch

  value : Place → F
  value p = patch_value fl px side ps p.row p.col p.ph p.pw p.ch

  inside_row : (ph pw ch : ℕ) → pw < ps → ch < 3 → pw * 3 + ch < ps * 3
  inside_row ph pw ch b c = omega (arith, b, c)

  inside_patch :
      (ph pw ch : ℕ) → ph < ps → pw < ps → ch < 3 → ph * (ps * 3) + (pw * 3 + ch) < 3 * ps * ps
  inside_patch ph pw ch a b c =
      let low = inside_row ph pw ch b c in
      let up : ph * (ps * 3) + ps * 3 ≤ ps * (ps * 3) = grind (arith, a) in
      let same : ps * (ps * 3) ≡ 3 * ps * ps = grind arith in omega (arith, low, up, same)

  nested :
      (row col ph pw ch : ℕ)
      → patch_index fl grid ps row col ph pw ch
        ≡ (row * grid + col) * (3 * ps * ps) + (ph * (ps * 3) + (pw * 3 + ch))
  unfolding patch_index
  nested row col ph pw ch =
      let same : ph * (ps * 3) ≡ ph * ps * 3 = grind arith in omega (arith, same)

  -- Two places with one index are the same.
  unique : (p q : Place) → IsIn p → IsIn q → index p ≡ index q → value p ≡ value q
  unfolding index value
  unique p q i j e =
      let joined =
        sym (nested p.row p.col p.ph p.pw p.ch) ∙ e ∙ nested q.row q.col q.ph q.pw q.ch in
      let (ts, rest) =
        split_unique (3 * ps * ps) (p.row * grid + p.col) (p.ph * (ps * 3) + (p.pw * 3 + p.ch))
          (q.row * grid + q.col) (q.ph * (ps * 3) + (q.pw * 3 + q.ch))
          (inside_patch p.ph p.pw p.ch i.ph_in i.pw_in i.ch_in)
          (inside_patch q.ph q.pw q.ch j.ph_in j.pw_in j.ch_in) joined in
      let (rows, cols) = split_unique grid p.row p.col q.row q.col i.col_in j.col_in ts in
      let (phs, inner) =
        split_unique (ps * 3) p.ph (p.pw * 3 + p.ch) q.ph (q.pw * 3 + q.ch)
          (inside_row p.ph p.pw p.ch i.pw_in i.ch_in) (inside_row q.ph q.pw q.ch j.pw_in j.ch_in)
          rest in
      let (pws, chs) = split_unique 3 p.pw p.ch q.pw q.ch i.ch_in j.ch_in inner in
      cc (rows, cols, phs, pws, chs)

  module _ (p : Place) (p_in : IsIn p) where
    Holds : (ℕ → F) → Type 0
    Holds y = y (index p) ≡ value p

    put : Place → (ℕ → F) → ℕ → F
    put q y = store (index q) (value q) y

    put_keeps : (q : Place) (y : ℕ → F) → IsIn q → Holds y → Holds (put q y)
    unfolding Holds put
    put_keeps q y q_in h =
        store_keeps (index q) (index p) (value q) (value p) y (unique q p q_in p_in) h

    at : ℕ → ℕ → ℕ → ℕ → ℕ → Place
    at row col ph pw ch = record { row = row; col = col; ph = ph; pw = pw; ch = ch }

    channels : ℕ → ℕ → ℕ → ℕ → (ℕ → F) → ℕ → F
    channels row col ph pw y = for_range 3 0 (λ ch y'. put (at row col ph pw ch) y') y

    pixels : ℕ → ℕ → ℕ → (ℕ → F) → ℕ → F
    pixels row col ph y = for_range ps 0 (λ pw y'. channels row col ph pw y') y

    rows : ℕ → ℕ → (ℕ → F) → ℕ → F
    rows row col y = for_range ps 0 (λ ph y'. pixels row col ph y') y

    columns : ℕ → (ℕ → F) → ℕ → F
    columns row y = for_range grid 0 (λ col y'. rows row col y') y

    channels_keeps :
        (row col ph pw : ℕ) (y : ℕ → F)
        → row < grid
        → col < grid
        → ph < ps
        → pw < ps
        → Holds y
        → Holds (channels row col ph pw y)
    unfolding channels at
    channels_keeps row col ph pw y a b c d h =
        for_range_keeps Holds (λ ch y'. put (at row col ph pw ch) y') 3 0 y
          (λ ch z lo hi k.
            put_keeps (at row col ph pw ch) z
              (record { row_in = a; col_in = b; ph_in = c; pw_in = d; ch_in = omega (arith, hi) })
              k)
          h

    pixels_keeps :
        (row col ph : ℕ) (y : ℕ → F)
        → row < grid
        → col < grid
        → ph < ps
        → Holds y
        → Holds (pixels row col ph y)
    unfolding pixels
    pixels_keeps row col ph y a b c h =
        for_range_keeps Holds (channels row col ph) ps 0 y
          (λ pw z lo hi k. channels_keeps row col ph pw z a b c (omega (arith, hi)) k) h

    rows_keeps :
        (row col : ℕ) (y : ℕ → F) → row < grid → col < grid → Holds y → Holds (rows row col y)
    unfolding rows
    rows_keeps row col y a b h =
        for_range_keeps Holds (pixels row col) ps 0 y
          (λ ph z lo hi k. pixels_keeps row col ph z a b (omega (arith, hi)) k) h

    columns_keeps : (row : ℕ) (y : ℕ → F) → row < grid → Holds y → Holds (columns row y)
    unfolding columns
    columns_keeps row y a h =
        for_range_keeps Holds (rows row) grid 0 y
          (λ col z lo hi k. rows_keeps row col z a (omega (arith, hi)) k) h

    channels_makes : (y : ℕ → F) → Holds (channels p.row p.col p.ph p.pw y)
    unfolding channels put Holds at
    channels_makes y =
        for_range_makes Holds (λ ch y'. put (at p.row p.col p.ph p.pw ch) y') 3 0 p.ch y
          (λ ch z lo hi k.
            put_keeps (at p.row p.col p.ph p.pw ch) z
              (record {
                row_in = p_in.row_in;
                col_in = p_in.col_in;
                ph_in = p_in.ph_in;
                pw_in = p_in.pw_in;
                ch_in = omega (arith, hi);
              })
              k)
          (omega arith) (omega (arith, p_in.ch_in)) (λ z. store_hit (index p) (value p) z)

    pixels_makes : (y : ℕ → F) → Holds (pixels p.row p.col p.ph y)
    unfolding pixels
    pixels_makes y =
        for_range_makes Holds (channels p.row p.col p.ph) ps 0 p.pw y
          (λ pw z lo hi k.
            channels_keeps p.row p.col p.ph pw z p_in.row_in p_in.col_in p_in.ph_in
              (omega (arith, hi)) k)
          (omega arith) (omega (arith, p_in.pw_in)) channels_makes

    rows_makes : (y : ℕ → F) → Holds (rows p.row p.col y)
    unfolding rows
    rows_makes y =
        for_range_makes Holds (pixels p.row p.col) ps 0 p.ph y
          (λ ph z lo hi k.
            pixels_keeps p.row p.col ph z p_in.row_in p_in.col_in (omega (arith, hi)) k)
          (omega arith) (omega (arith, p_in.ph_in)) pixels_makes

    columns_makes : (y : ℕ → F) → Holds (columns p.row y)
    unfolding columns
    columns_makes y =
        for_range_makes Holds (rows p.row) grid 0 p.col y
          (λ col z lo hi k. rows_keeps p.row col z p_in.row_in (omega (arith, hi)) k) (omega arith)
          (omega (arith, p_in.col_in)) rows_makes

    fill_patches-value : (y : ℕ → F) → Holds (fill_patches fl px side grid ps y)
    unfolding fill_patches columns rows pixels channels put at index value Holds
    fill_patches-value y =
        for_range_makes Holds columns grid 0 p.row y
          (λ row z lo hi k. columns_keeps row z (omega (arith, hi)) k) (omega arith)
          (omega (arith, p_in.row_in)) columns_makes

  slot_in : (t n m : ℕ) → t < n → t * m + m ≤ n * m
  slot_in t n m h = grind (arith, h)

  index_in : (p : Place) → IsIn p → index p < 3 * ps * ps * (grid * grid)
  unfolding index
  index_in p i =
      let patch : p.row * grid + p.col < grid * grid = grind (arith, i.row_in, i.col_in) in
      let whole = slot_in (p.row * grid + p.col) (grid * grid) (3 * ps * ps) patch in
      let same : (grid * grid) * (3 * ps * ps) ≡ 3 * ps * ps * (grid * grid) = grind arith in
      omega (
        arith,
        whole,
        same,
        nested p.row p.col p.ph p.pw p.ch,
        inside_patch p.ph p.pw p.ch i.ph_in i.pw_in i.ch_in,
      )

-- The entry `i` of an image as a float between 0 and 1.
abbrev pub entry : (fl : Arith) → Pixels fl.F → ℕ → fl.F
entry fl (u8 bytes) i = fl.div (fl.of_byte (get_or bytes i 0)) (fl.of_byte 255)
entry fl (f32 floats) i = get_or floats i fl.zero_f

-- The place of the channel `ch` of the pixel in line `y` and column `x` of the view: the patch, then the
-- line and the column in it.
abbrev pub place : ℕ → ℕ → ℕ → ℕ → ℕ → ℕ
place grid ps y x ch =
    ((y / ps) * grid + x / ps) * (3 * ps * ps) + ((y % ps) * ps + x % ps) * 3 + ch

-- Every channel of every pixel of the view that a whole patch covers stands at its place, moved to between
-- -1 and 1. It is read at its line, column and channel of the view.
abbrev pub ArePatches : (fl : Arith) → Pixels fl.F → ℕ → ℕ → ℕ → ℕ × (ℕ → fl.F) → Type 0
ArePatches fl px side grid ps made =
    (y x ch : ℕ)
    → y < grid * ps
    → x < grid * ps
    → ch < 3
    → ((y * side + x) * 3 + ch < 3 * side * side)
      × (place grid ps y x ch < made.0)
      × (made.1 (place grid ps y x ch)
          ≡ fl.sub (fl.mul (entry fl px ((y * side + x) * 3 + ch)) fl.two_f) fl.one_f)

read_in :
    (y x ch n side : ℕ)
    → y < n
    → x < n
    → ch < 3
    → n ≤ side
    → (y * side + x) * 3 + ch < 3 * side * side
read_in y x ch n side a b c fits =
    let line : y * side + side ≤ side * side = grind (arith, a, fits) in
    let same : 3 * side * side ≡ 3 * (side * side) = grind arith in
    omega (arith, line, same, b, c, fits)

place-patch_index :
    (fl : Arith) (grid ps y x ch : ℕ)
    → patch_index fl grid ps (y / ps) (x / ps) (y % ps) (x % ps) ch ≡ place grid ps y x ch
unfolding patch_index
place-patch_index fl grid ps y x ch =
    let same : ((y % ps) * ps + x % ps) * 3 ≡ (y % ps) * ps * 3 + x % ps * 3 = grind arith in
    omega (arith, same)

patch_value-entry :
    (fl : Arith) (px : Pixels fl.F) (side ps row col ph pw ch : ℕ)
    → patch_value fl px side ps row col ph pw ch
      ≡ fl.sub
          (fl.mul (entry fl px (((row * ps + ph) * side + (col * ps + pw)) * 3 + ch)) fl.two_f)
          fl.one_f
unfolding patch_value pixel_at
patch_value-entry fl (u8 bytes) side ps row col ph pw ch = refl
patch_value-entry fl (f32 floats) side ps row col ph pw ch = refl

division : (n ps : ℕ) → 0 < ps → (n / ps * ps + n % ps ≡ n) × (n % ps < ps)
division n ps h = (grind (arith, h), grind (arith, h))

quotient-lt : (n ps grid : ℕ) → 0 < ps → n < grid * ps → n / ps < grid
quotient-lt n ps grid h k = grind (arith, h, k)

fill_patches-ArePatches :
    (fl : Arith) (px : Pixels fl.F) (side grid ps : ℕ) (out : ℕ → fl.F)
    → 0 < ps
    → grid * ps ≤ side
    → ArePatches fl px side grid ps
        (3 * ps * ps * (grid * grid), fill_patches fl px side grid ps out)
unfolding index value Holds
fill_patches-ArePatches fl px side grid ps out some_width fits y x ch a b c =
    let (y_is, ph_in) = division y ps some_width in
    let (x_is, pw_in) = division x ps some_width in
    let p : Place = record { row = y / ps; col = x / ps; ph = y % ps; pw = x % ps; ch = ch } in
    let p_in : IsIn fl px side grid ps p = record {
      row_in = quotient-lt y ps grid some_width a;
      col_in = quotient-lt x ps grid some_width b;
      ph_in = ph_in;
      pw_in = pw_in;
      ch_in = c;
    } in
    let at_place = place-patch_index fl grid ps y x ch in
    let made = fill_patches fl px side grid ps out in
    (
      read_in y x ch (grid * ps) side a b c fits,
      subst (λ i. i < 3 * ps * ps * (grid * grid)) at_place (index_in fl px side grid ps p p_in),
      ap made (sym at_place)
          ∙ fill_patches-value fl px side grid ps p p_in out
          ∙ patch_value-entry fl px side ps (y / ps) (x / ps) (y % ps) (x % ps) ch
          ∙ rw (y_is, x_is) refl,
    )

-- Patches are given only of a view that is as wide and as high as the tower wants. Then there are
-- 3 ps ps floats for each of the patches, and every channel of every pixel that a whole patch covers
-- stands at its place among them, read from within the view and moved to between -1 and 1.
pub preprocess_image_patches-ArePatches :
    (fl : Arith) (v : View fl.F) (px : Pixels fl.F) (side ps : ℕ) (made : ℕ × (ℕ → fl.F))
    → v.pixels ≡ some px
    → 0 < ps
    → preprocess_image_patches fl v side ps ≡ some made
    → (v.w ≡ pos side)
      × (v.h ≡ pos side)
      × (made.0 ≡ 3 * ps * ps * ((side / ps) * (side / ps)))
      × ArePatches fl px side (side / ps) ps made
unfolding preprocess_image_patches
preprocess_image_patches-ArePatches fl v px side ps made there some_width e =
    elim (Bool-cases (view_is_side v side)) [
      | inl square ↦
          let (w, h) = view_is_side-pos v px side there square in
          let same = some-injective _ _ (rw (preprocess_image_patches, there, square) at e) in
          let patches : ArePatches fl px side (side / ps) ps made =
            subst (ArePatches fl px side (side / ps) ps) same (
              fill_patches-ArePatches fl px side (side / ps) ps (λ i. fl.zero_f) some_width
                (grind (arith, some_width))) in
          (w, h, sym (ap (λ p. p.0) same), patches)
      | inr other ↦ absurd (none-ne-some _ (rw (preprocess_image_patches, there, other) at e))
    ]
