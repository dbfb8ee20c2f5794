-- ===== src/BackendFallback/Place/Refused.antt =====
-- What the accelerator refuses runs on the CPU.
use vla_cpp.Common.{
  ℕ, zero, suc, ◌+◌, ◌≤◌, ◌<◌, ◌≡◌, ◌≢◌, refl, sym, ◌∙◌, ◌⊎◌, inl, inr, Bool, true, false, ◌&&◌,
  ◌||◌, some, ◌==◌, if◌then◌else◌, arith, Bool-cases, Option-cases,
}
use vla_cpp.Common.Loops.{for_range, store}
use vla_cpp.BackendFallback.Graph.{Ggml, is_view_op, is_copy_op, producer}
use vla_cpp.BackendFallback.Accepts.{Why, accel_runs}
use vla_cpp.BackendFallback.Place.{
  Where, accel, cpu, either, is_cpu, is_accel, is_either, classify, index_of, pull_source,
  pull_node, pull_loop, settle, place,
}

-- Some places of the accelerator have become places of the CPU, and nothing else has changed.
abbrev pub Pulls : (ℕ → Where) → (ℕ → Where) → Type 0
Pulls w w' = (k : ℕ) → (w' k ≡ w k) ⊎ ((w k ≡ accel) × (w' k ≡ cpu))

is_accel_iff : (p : Where) → is_accel p ≡ true → p ≡ accel
is_accel_iff accel h = refl
is_accel_iff cpu h = ground arith
is_accel_iff either h = ground arith

pub accel-ne-cpu : accel ≢ cpu
accel-ne-cpu e = ground arith

pub Pulls-refl : (w : ℕ → Where) → Pulls w w
Pulls-refl w k = inl refl

pub Pulls-trans : (a b c : ℕ → Where) → Pulls a b → Pulls b c → Pulls a c
Pulls-trans a b c p q k = elim (p k) [
  | inl same ↦ elim (q k) [
    | inl again ↦ inl (again ∙ same)
    | inr (was, now) ↦ inr (sym same ∙ was, now)
  ]
  | inr (was, now) ↦ elim (q k) [
    | inl again ↦ inr (was, again ∙ now)
    | inr (was', now') ↦ absurd (accel-ne-cpu (sym was' ∙ now))
  ]
]

Pulls-store : (k : ℕ) (w : ℕ → Where) → w k ≡ accel → Pulls w (store k cpu w)
unfolding store
Pulls-store k w h j = elim (Bool-cases (j == k)) [
  | inl same ↦ inr (ground (arith, h), rw same refl)
  | inr other ↦ inl (rw other refl)
]

module _ (g : Ggml) (fuel n : ℕ) (nodes : ℕ → ℕ) where
  pub Pulls-pull_source : (i s : ℕ) (w : ℕ → Where) → Pulls w (pull_source g fuel n nodes i s w)
  unfolding pull_source
  Pulls-pull_source i s w = elim (Option-cases (producer g fuel ((g.at (nodes i)).src s))) [
    | inl no_producer ↦ rw (no_producer, pull_source) (Pulls-refl w)
    | inr (p, found) ↦ elim (Option-cases (index_of nodes n p)) [
      | inl outside ↦ rw (found, outside, pull_source) (Pulls-refl w)
      | inr (k, inside) ↦ elim (Bool-cases (is_accel (w k) && is_copy_op (g.at p).op)) [
        | inl pulled ↦
            rw (found, inside, pulled, pull_source)
              (Pulls-store k w (is_accel_iff (w k) (ground arith)))
        | inr left ↦ rw (found, inside, left, pull_source) (Pulls-refl w)
      ]
    ]
  ]

  pub Pulls-sources :
      (m i s : ℕ) (w : ℕ → Where) → Pulls w (for_range m s (pull_source g fuel n nodes i) w)
  unfolding for_range
  Pulls-sources zero i s w = Pulls-refl w
  Pulls-sources (suc m) i s w =
      Pulls-trans w _ _ (Pulls-pull_source i s w) (Pulls-sources m i (suc s) _)

  pub Pulls-pull_node : (i : ℕ) (w : ℕ → Where) → Pulls w (pull_node g fuel n nodes i w)
  unfolding pull_node
  Pulls-pull_node i w = elim (Bool-cases (is_cpu (w i))) [
    | inl here ↦ rw here (Pulls-sources g.max_src i 0 w)
    | inr elsewhere ↦ rw elsewhere (Pulls-refl w)
  ]

  pub Pulls-pull_loop : (i : ℕ) (w : ℕ → Where) → Pulls w (pull_loop g fuel n nodes i w)
  unfolding pull_loop
  Pulls-pull_loop zero w = Pulls-refl w
  Pulls-pull_loop (suc i) w = Pulls-trans w _ _ (Pulls-pull_node i w) (Pulls-pull_loop i _)

is_either_iff : (p : Where) → (is_either p ≡ true) ⊎ ((p ≢ either) × (is_either p ≡ false))
is_either_iff either = inl refl
is_either_iff accel = inr (λ e. ground arith, refl)
is_either_iff cpu = inr (λ e. ground arith, refl)

pub settle_before : (m i k : ℕ) (prev : Where) (w : ℕ → Where) → k < i → settle m i prev w k ≡ w k
unfolding settle store
settle_before zero i k prev w h = refl
settle_before (suc m) i k prev w h =
    let here = if is_either (w i) then prev else w i in
    settle_before m (suc i) k here (store i here w) (omega arith) ∙ ground arith

-- A place that is settled stays.
pub settle_kept :
    (m i k : ℕ) (prev p : Where) (w : ℕ → Where) → p ≢ either → w k ≡ p → settle m i prev w k ≡ p
unfolding settle store
settle_kept zero i k prev p w settled h = h
settle_kept (suc m) i k prev p w settled h =
    let here = if is_either (w i) then prev else w i in
    settle_kept m (suc i) k here p (store i here w) settled (elim (Bool-cases (k == i)) [
      | inl same ↦ elim (is_either_iff (w i)) [
        | inl open_ ↦ absurd (ground (arith, settled, h))
        | inr (closed, test) ↦ rw (same, test) (ground (arith, h))
      ]
      | inr other ↦ rw other h
    ])

-- What the loop leaves at index `k`: its place, or that of the index before.
pub settle_at :
    (m i k : ℕ) (prev : Where) (w : ℕ → Where)
    → prev ≢ either
    → i ≤ k
    → k < i + m
    → settle m i prev w k ≢ either
unfolding settle store
settle_at zero i k prev w h p q = absurd (omega arith)
settle_at (suc m) i k prev w h p q =
    let here = if is_either (w i) then prev else w i in
    let here_settled : here ≢ either = elim (is_either_iff (w i)) [
      | inl open_ ↦ rw open_ h
      | inr (closed, test) ↦ rw test closed
    ] in
    elim (Bool-cases (k == i)) [
      | inl same ↦ λ e.
          here_settled (
            ground (arith, sym (settle_before m (suc i) k here (store i here w) (ground arith)), e))
      | inr other ↦
          settle_at m (suc i) k here (store i here w) here_settled (ground arith) (omega arith)
    ]

refused_cpu :
    (hexagon : Bool) (g : Ggml) (t : ℕ) (why : Why)
    → (is_view_op (g.at t).op || g.is_empty t) ≡ false
    → accel_runs hexagon g t ≡ some why
    → classify hexagon g t ≡ cpu
unfolding classify
refused_cpu hexagon g t why computes refused = rw (computes, refused) refl

cpu_stays : (w w' : ℕ → Where) (k : ℕ) → Pulls w w' → w k ≡ cpu → w' k ≡ cpu
cpu_stays w w' k p h = elim (p k) [ inl same ↦ same ∙ h | inr (was, now) ↦ now ]

-- For every graph on every device: the accelerator is given no op that accel_runs refuses, unless the
-- op computes nothing, and each op of the graph is placed on one of the two.
pub place-refused :
    (hexagon : Bool) (g : Ggml) (fuel n : ℕ) (nodes : ℕ → ℕ) (i : ℕ)
    → i < n
    → (place hexagon g fuel n nodes i ≢ either)
      × ((why : Why)
          → (is_view_op (g.at (nodes i)).op || g.is_empty (nodes i)) ≡ false
          → accel_runs hexagon g (nodes i) ≡ some why
          → place hexagon g fuel n nodes i ≡ cpu)
unfolding place
place-refused hexagon g fuel n nodes i h =
    let w : ℕ → Where = λ k. classify hexagon g (nodes k) in
    (
      settle_at n 0 i accel _ (λ e. ground arith) (omega arith) (omega arith),
      λ why computes refused.
          let here = refused_cpu hexagon g (nodes i) why computes refused in
          settle_kept n 0 i accel cpu _ (λ e. ground arith) (pulled hexagon w here),
    )
  where
    pulled :
        (hexagon : Bool) (w : ℕ → Where)
        → w i ≡ cpu
        → (if hexagon then pull_loop g fuel n nodes n w else w) i ≡ cpu
    pulled true w here = cpu_stays w _ i (Pulls-pull_loop g fuel n nodes n w) here
    pulled false w here = here
