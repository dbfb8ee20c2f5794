-- ===== src/Common/Slices.antt =====
-- Parts of lists: what `take` and `drop` do at a seam, and writing a block over a part.
use Prim.Native.Nat.{ℕ, zero, suc, ◌+◌}
use mathlib.Core.Path.{◌≡◌, refl, ap, sym, ◌∙◌}
use mathlib.Core.List.{List, [], ◌∷◌, ◌++◌}
use native.Mathlib.Omega.{arith}
use vla_cpp.Common.Lists.{length, take, drop}

module _ {ℓ} {A : Type ℓ} where
  -- `memcpy` of a block to the position `off` of a buffer.
  abbrev pub write_at : ℕ → List A → List A → List A
  write_at off block buffer = take off buffer ++ (block ++ drop (off + length block) buffer)

  pub take-append : (n : ℕ) (xs ys : List A) → length xs ≡ n → take n (xs ++ ys) ≡ xs
  take-append zero [] ys e = refl
  take-append zero (x ∷ xs) ys e = absurd (omega (arith, e))
  take-append (suc n) [] ys e = absurd (omega (arith, e))
  take-append (suc n) (x ∷ xs) ys e = ap (λ l. x ∷ l) (take-append n xs ys (omega (arith, e)))

  pub drop-append : (n : ℕ) (xs ys : List A) → length xs ≡ n → drop n (xs ++ ys) ≡ ys
  drop-append zero [] ys e = refl
  drop-append zero (x ∷ xs) ys e = absurd (omega (arith, e))
  drop-append (suc n) [] ys e = absurd (omega (arith, e))
  drop-append (suc n) (x ∷ xs) ys e = drop-append n xs ys (omega (arith, e))

  drop_nil : (n : ℕ) → ◌≡◌ {A = List A} (drop n []) []
  drop_nil zero = refl
  drop_nil (suc n) = refl

  pub drop-drop : (a b : ℕ) (xs : List A) → drop a (drop b xs) ≡ drop (b + a) xs
  drop-drop a zero xs = let same : a ≡ 0 + a = omega arith in ap (λ n. drop n xs) same
  drop-drop zero (suc b) xs = let same : suc b ≡ suc b + 0 = omega arith in ap (λ n. drop n xs) same
  drop-drop (suc a) (suc b) [] = sym (drop_nil (suc b + suc a))
  drop-drop (suc a) (suc b) (x ∷ xs) =
      let next : suc (b + suc a) ≡ suc b + suc a = omega arith in
      drop-drop (suc a) b xs ∙ ap (λ n. drop n (x ∷ xs)) next

  -- A block written between two parts.
  pub write_at-append :
      (off : ℕ) (before old after block : List A)
      → length before ≡ off
      → length old ≡ length block
      → write_at off block (before ++ (old ++ after)) ≡ before ++ (block ++ after)
  write_at-append off before old after block e same =
      let front : take off (before ++ (old ++ after)) ≡ before =
        take-append off before (old ++ after) e in
      let back : drop (off + length block) (before ++ (old ++ after)) ≡ after =
        sym (drop-drop (length block) off (before ++ (old ++ after)))
        ∙ ap (drop (length block)) (drop-append off before (old ++ after) e)
        ∙ drop-append (length block) old after same in
      rw (front, back) refl
