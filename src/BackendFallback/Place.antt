-- ===== src/BackendFallback/Place.antt =====
-- Where the ops of a graph run: the first half of fb_graph_compute of src/backend_fallback.cpp. The
-- nodes of a graph are addresses by index, `fc->where` is a function from indices.
pub mod Refused
pub mod Copies
use vla_cpp.Common.{
  ℕ, zero, suc, ◌-◌, Bool, true, false, not, ◌||◌, ◌&&◌, Option, none, some, ◌==◌, if◌then◌else◌,
}
use vla_cpp.Common.Loops.{for_range, store}
use vla_cpp.BackendFallback.Graph.{Ggml, is_view_op, is_copy_op, producer}
use vla_cpp.BackendFallback.Accepts.{accel_runs}

pub data Where : Type 0 where
  accel : Where
  cpu : Where
  either : Where

abbrev pub is_cpu : Where → Bool
is_cpu cpu = true
is_cpu _ = false

abbrev pub is_accel : Where → Bool
is_accel accel = true
is_accel _ = false

abbrev pub is_either : Where → Bool
is_either either = true
is_either _ = false

-- What each op is classified as.
unfoldable pub classify : Bool → Ggml → ℕ → Where
unfolding is_view_op accel_runs
classify hexagon g t =
    if is_view_op (g.at t).op || g.is_empty t
    then either
    else (elim (accel_runs hexagon g t) [ none ↦ accel | some why ↦ cpu ])

unfoldable pub any_cpu : ℕ → (ℕ → Where) → Bool
any_cpu zero w = false
any_cpu (suc n) w = is_cpu (w n) || any_cpu n w

-- `idx`: the last index of an address among the first `n` nodes.
unfoldable pub index_of : (ℕ → ℕ) → ℕ → ℕ → Option ℕ
index_of nodes zero p = none
index_of nodes (suc n) p = if nodes n == p then some n else index_of nodes n p

module _ (g : Ggml) (fuel n : ℕ) (nodes : ℕ → ℕ) where
  -- The copy that source `s` of node `i` looks through views at is moved to the CPU.
  unfoldable pub pull_source : ℕ → ℕ → (ℕ → Where) → ℕ → Where
  unfolding index_of is_copy_op producer store
  pull_source i s w = elim (producer g fuel ((g.at (nodes i)).src s)) [
    | none ↦ w
    | some p ↦ elim (index_of nodes n p) [
      | none ↦ w
      | some k ↦ if is_accel (w k) && is_copy_op (g.at p).op then store k cpu w else w
    ]
  ]

  unfoldable pub pull_node : ℕ → (ℕ → Where) → ℕ → Where
  unfolding pull_source for_range
  pull_node i w = if is_cpu (w i) then for_range g.max_src 0 (pull_source i) w else w

  -- `for (int i = n - 1; i >= 0; --i)`
  unfoldable pub pull_loop : ℕ → (ℕ → Where) → ℕ → Where
  unfolding pull_node
  pull_loop zero w = w
  pull_loop (suc i) w = pull_loop i (pull_node i w)

-- A view goes where the op before it goes; `m` nodes from index `i`, the one before at `prev`.
unfoldable pub settle : ℕ → ℕ → Where → (ℕ → Where) → ℕ → Where
unfolding store
settle zero i prev w = w
settle (suc m) i prev w =
    let here = if is_either (w i) then prev else w i in settle m (suc i) here (store i here w)

-- `fc->where` when the runs are cut.
unfoldable pub place : Bool → Ggml → ℕ → ℕ → (ℕ → ℕ) → ℕ → Where
unfolding classify pull_loop settle
place hexagon g fuel n nodes =
    let w : ℕ → Where = λ i. classify hexagon g (nodes i) in
    settle n 0 accel (if hexagon then pull_loop g fuel n nodes n w else w)
