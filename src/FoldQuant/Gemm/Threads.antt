-- ===== src/FoldQuant/Gemm/Threads.antt =====
-- The threads of a node together: thread_loop, which fq_gemm_cpu of src/foldquant_ref.cpp runs in
-- each thread, once for every thread of a schedule.
use vla_cpp.Common.{
  ℕ, ◌-◌, ◌/◌, ◌≤◌, ◌<◌, ◌≡◌, refl, ◌∙◌, arith, ◌==◌, ==_iff, Bool-cases, inl, inr, ◌⊎◌, List, [],
  ◌∷◌,
}
use vla_cpp.FoldQuant.Layout.{per_thread, first_row, end_row, Takes, Takes-iff}
use vla_cpp.FoldQuant.Gemm.{thread_loop}
use vla_cpp.FoldQuant.Gemm.Fill.{grid, grid_miss, grid_hit}

-- The thread `i` is in the schedule.
abbrev pub Has : ℕ → List ℕ → Type 0
Has i [] = ⊥
Has i (j ∷ js) = (i ≡ j) ⊎ Has i js

-- Every thread below `nth` is in the schedule.
abbrev pub IsFull : ℕ → List ℕ → Type 0
IsFull nth iths = (i : ℕ) → i < nth → Has i iths

-- The threads of a schedule, one after the other: no two of them store at the same place.
abbrev pub run_threads {ℓ} : {S : Type ℓ} → (ℕ → S → S) → List ℕ → S → S
run_threads thread [] y = y
run_threads thread (ith ∷ iths) y = run_threads thread iths (thread ith y)

module _ {A : Type 0} (index : ℕ → ℕ → ℕ) (value : ℕ → ℕ → A) (T n_out nth : ℕ) where
  -- A thread fills the grid of its columns.
  thread_loop-grid :
      (i : ℕ) (y : ℕ → A)
      → thread_loop index value T n_out i nth y
        ≡ (let n0 = first_row n_out nth i in grid index value T (end_row n_out nth i - n0) n0 y)
  unfolding thread_loop
  thread_loop-grid i y = refl

  end_row-le : (i : ℕ) → end_row n_out nth i ≤ n_out
  unfolding end_row
  end_row-le i = omega arith

  module _ (t n : ℕ) (row : t < T) (column : n < n_out)
      (unique : (u m : ℕ) → u < T → m < n_out → index t n ≡ index u m → (t ≡ u) × (n ≡ m)) where
    taken :
        (i : ℕ) (y : ℕ → A)
        → Takes n_out nth i n
        → thread_loop index value T n_out i nth y (index t n) ≡ value t n
    taken i y (lo, hi) = rw (thread_loop-grid i y) (
        grid_hit index value T _ _ t n y
          (λ u m p q r e. unique u m p (omega (arith, end_row-le i)) e) row lo (omega arith))

    kept :
        (i : ℕ) (y : ℕ → A)
        → ¬ Takes n_out nth i n
        → thread_loop index value T n_out i nth y (index t n) ≡ y (index t n)
    kept i y free = rw (thread_loop-grid i y) (
        grid_miss index value T _ _ (index t n) y (λ u m p q r e.
          let (ts, ns) = unique u m p (omega (arith, end_row-le i)) e in
          free (omega (arith, ns), omega (arith, ns))))

    settled :
        (iths : List ℕ) (y : ℕ → A)
        → 0 < nth
        → (y (index t n) ≡ value t n) ⊎ Has (n / per_thread n_out nth) iths
        → run_threads (λ ith. thread_loop index value T n_out ith nth) iths y (index t n)
          ≡ value t n
    settled [] y some_thread (inl done) = done
    settled [] y some_thread (inr none) = absurd none
    settled (ith ∷ iths) y some_thread h =
        let takes = (Takes-iff n_out nth n some_thread column).1 ith in
        let y' = thread_loop index value T n_out ith nth y in
        elim (Bool-cases (ith == n / per_thread n_out nth)) [
          | inl same ↦
              settled iths y' some_thread (inl (taken ith y (takes.1 ((==_iff ith _).0 same))))
          | inr other ↦
              let free : ¬ Takes n_out nth ith n = λ a. ground (arith, takes.0 a) in
              settled iths y' some_thread (elim h [
                | inl done ↦ inl (kept ith y free ∙ done)
                | inr (inl e) ↦ absurd (ground arith)
                | inr (inr rest) ↦ inr rest
              ])
        ]

    pub run_threads-value :
        (iths : List ℕ) (y : ℕ → A)
        → 0 < nth
        → IsFull nth iths
        → run_threads (λ ith. thread_loop index value T n_out ith nth) iths y (index t n)
          ≡ value t n
    run_threads-value iths y some_thread full =
        settled iths y some_thread (inr (full _ (Takes-iff n_out nth n some_thread column).0))
