-- ===== src/Vision/Tests.antt =====
-- Views at concrete inputs; a float is a number, and the operations drop what they cannot keep.
use vla_cpp.Common.{ℕ, ◌-◌, ◌*◌, ◌/◌, ◌≡◌, refl, some, [], ◌∷◌, arith}
use vla_cpp.Common.Int.{pos}
use vla_cpp.Serving.Message.{Pixels, f32}
use vla_cpp.Vision.{
  Arith, View, image_to_chw, preprocess_image_chw, fill_patches, preprocess_image_patches,
}
use vla_cpp.Vision.Patches.{ArePatches, preprocess_image_patches-ArePatches}

abbrev numbers : Arith
numbers = record {
  F = ℕ;
  zero_f = 0;
  one_f = 1;
  two_f = 2;
  half_f = 1;
  of_byte = λ k. k;
  sub = λ a b. a - b;
  mul = λ a b. a * b;
  div = λ a b. a;
}

abbrev pixels : Pixels ℕ
pixels = f32 (1 ∷ 2 ∷ 3 ∷ 4 ∷ 5 ∷ 6 ∷ 7 ∷ 8 ∷ 9 ∷ 10 ∷ 11 ∷ 12 ∷ [])

abbrev view : View ℕ
view = record { pixels = some pixels; w = pos 2; h = pos 2 }

abbrev none_taken : ℕ → ℕ
none_taken c = 0

abbrev planes : ℕ × (ℕ → ℕ)
planes = (12, image_to_chw numbers pixels 4 none_taken none_taken none_taken)

planes_given : preprocess_image_chw numbers view 2 none_taken none_taken none_taken ≡ some planes
unfolding preprocess_image_chw
planes_given = refl

-- The second plane begins at 4, with the second channel.
second_plane : planes.1 4 ≡ 2
unfolding image_to_chw
second_plane = refl

abbrev patches : ℕ × (ℕ → ℕ)
patches = (12, fill_patches numbers pixels 2 2 1 none_taken)

patches_given : preprocess_image_patches numbers view 2 1 ≡ some patches
unfolding preprocess_image_patches
patches_given = refl

-- The fourth patch begins at 9, with the first channel of the last pixel: 10 * 2 - 1.
fourth_patch : patches.1 9 ≡ 19
unfolding fill_patches
fourth_patch = refl

preprocess_image_patches-ArePatches_example :
    (pos 2 ≡ pos 2)
    × (pos 2 ≡ pos 2)
    × (patches.0 ≡ 3 * 1 * 1 * ((2 / 1) * (2 / 1)))
    × ArePatches numbers pixels 2 (2 / 1) 1 patches
preprocess_image_patches-ArePatches_example =
    preprocess_image_patches-ArePatches numbers view pixels 2 1 patches refl (omega arith)
      patches_given
