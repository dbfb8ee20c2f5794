-- ===== src/FoldQuant/Gemm/Fill.antt =====
-- Nested loops that store a value at an index for each pair, where no two pairs share an index.
use vla_cpp.Common.{
  ℕ, zero, suc, ◌+◌, ◌≤◌, ◌<◌, ◌≡◌, ◌≢◌, refl, ◌∙◌, arith, ◌==◌, ==_iff, Bool-cases, inl, inr,
}
use vla_cpp.Common.Loops.{for_range}
use vla_cpp.Common.Loops.{store}

module _ {A : Type 0} where
  store_same : (i : ℕ) (v : A) (y : ℕ → A) → store i v y i ≡ v
  unfolding store
  store_same i v y = ground arith

  store_other : (i k : ℕ) (v : A) (y : ℕ → A) → k ≢ i → store i v y k ≡ y k
  unfolding store
  store_other i k v y h = ground arith

  module _ (idx : ℕ → ℕ) (val : ℕ → A) where
    -- The inner loop.
    abbrev pub fill : ℕ → ℕ → (ℕ → A) → ℕ → A
    fill m i y = for_range m i (λ t. store (idx t) (val t)) y

    pub fill_miss :
        (m i k : ℕ) (y : ℕ → A) → ((t : ℕ) → i ≤ t → t < i + m → k ≢ idx t) → fill m i y k ≡ y k
    unfolding for_range
    fill_miss zero i k y h = refl
    fill_miss (suc m) i k y h =
        fill_miss m (suc i) k (store (idx i) (val i) y) (λ t p q. h t (omega arith) (omega arith))
        ∙ store_other (idx i) k (val i) y (h i (omega arith) (omega arith))

    store_at : (i t : ℕ) (y : ℕ → A) → t ≡ i → store (idx i) (val i) y (idx t) ≡ val t
    store_at i t y e = rw e (store_same (idx i) (val i) y)

    pub fill_hit :
        (m i t : ℕ) (y : ℕ → A)
        → ((u : ℕ) → i ≤ u → u < i + m → idx t ≡ idx u → t ≡ u)
        → i ≤ t
        → t < i + m
        → fill m i y (idx t) ≡ val t
    unfolding for_range
    fill_hit zero i t y inj p q = absurd (omega arith)
    fill_hit (suc m) i t y inj p q = elim (Bool-cases (t == i)) [
      | inl same ↦
          fill_miss m (suc i) (idx t) (store (idx i) (val i) y)
            (λ u a b e. omega (arith, inj u (omega arith) (omega arith) e, (==_iff t i).0 same))
          ∙ store_at i t y ((==_iff t i).0 same)
      | inr other ↦
          fill_hit m (suc i) t (store (idx i) (val i) y)
            (λ u a b. inj u (omega arith) (omega arith)) (ground arith) (omega arith)
    ]

  module _ (idx : ℕ → ℕ → ℕ) (val : ℕ → ℕ → A) (T : ℕ) where
    -- Both loops: columns `i` to `i + m`, and for each the rows below `T`.
    abbrev pub grid : ℕ → ℕ → (ℕ → A) → ℕ → A
    grid m i y = for_range m i (λ n. fill (λ t. idx t n) (λ t. val t n) T 0) y

    pub grid_miss :
        (m i k : ℕ) (y : ℕ → A)
        → ((t n : ℕ) → t < T → i ≤ n → n < i + m → k ≢ idx t n)
        → grid m i y k ≡ y k
    unfolding for_range
    grid_miss zero i k y h = refl
    grid_miss (suc m) i k y h =
        grid_miss m (suc i) k (fill (λ t. idx t i) (λ t. val t i) T 0 y)
          (λ t n p q r. h t n p (omega arith) (omega arith))
        ∙ fill_miss (λ t. idx t i) (λ t. val t i) T 0 k y
            (λ t p q. h t i (omega arith) (omega arith) (omega arith))

    pub grid_hit :
        (m i t n : ℕ) (y : ℕ → A)
        → ((u k : ℕ) → u < T → i ≤ k → k < i + m → idx t n ≡ idx u k → (t ≡ u) × (n ≡ k))
        → t < T
        → i ≤ n
        → n < i + m
        → grid m i y (idx t n) ≡ val t n
    unfolding for_range
    grid_hit zero i t n y inj row p q = absurd (omega arith)
    grid_hit (suc m) i t n y inj row p q =
        let y' = fill (λ u. idx u i) (λ u. val u i) T 0 y in
        elim (Bool-cases (n == i)) [
          | inl same ↦
              grid_miss m (suc i) (idx t n) y' (λ u k a b c e.
                omega (arith, (inj u k a (omega arith) (omega arith) e).1, (==_iff n i).0 same))
              ∙ column t n i y ((==_iff n i).0 same) row
                  (λ u a e. (inj u i a (omega arith) (omega arith) e).0)
          | inr other ↦
              grid_hit m (suc i) t n y' (λ u k a b c. inj u k a (omega arith) (omega arith)) row
                (ground arith) (omega arith)
        ]
      where
        column :
            (t n i : ℕ) (y : ℕ → A)
            → n ≡ i
            → t < T
            → ((u : ℕ) → u < T → idx t n ≡ idx u i → t ≡ u)
            → fill (λ u. idx u i) (λ u. val u i) T 0 y (idx t n) ≡ val t n
        column t n i y e row inj = rw e (
            fill_hit (λ u. idx u i) (λ u. val u i) T 0 t y (λ u p q d. inj u (omega arith) (rw e d))
              (omega arith) (omega arith))
