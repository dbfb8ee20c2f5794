-- ===== src/BackendFallback/Runs.antt =====
-- How fb_graph_compute of src/backend_fallback.cpp runs a graph. run_on_cpu, run_on_accel and the
-- accelerator's own computation of a whole graph change a state of the machine and return a status.
pub mod Cut
use vla_cpp.Common.{
  ℕ, zero, suc, ◌+◌, ◌-◌, Bool, true, false, ◌&&◌, Option, none, some, ltb, if◌then◌else◌,
}
use vla_cpp.BackendFallback.Graph.{Ggml}
use vla_cpp.BackendFallback.Place.{Where, accel, cpu, either, is_cpu, classify, any_cpu, place}

abbrev pub same_place : Where → Where → Bool
same_place accel accel = true
same_place cpu cpu = true
same_place either either = true
same_place _ _ = false

-- What a failed run returns; `none` is GGML_STATUS_SUCCESS.
pub record Runner : Type 1 where
  pub S : Type 0
  pub Failed : Type 0
  pub run_on_cpu : ℕ → ℕ → S → S × Option Failed
  pub run_on_accel : ℕ → ℕ → S → S × Option Failed
  pub run_whole : S → S × Option Failed

-- `while (j < n && where[j] == where[i]) ++j`
unfoldable pub extend : ℕ → ℕ → ℕ → Where → (ℕ → Where) → ℕ
extend zero n j p w = j
extend (suc fuel) n j p w =
    let rest = extend fuel n (suc j) p w in if ltb j n && same_place (w j) p then rest else j

-- The wrapper's counters and the machine.
pub record Fallback (S : Type 0) : Type 0 where
  pub n_graphs : ℕ
  pub n_split_graphs : ℕ
  pub machine : S

module _ (r : Runner) where
  open r use {S, Failed, run_on_cpu, run_on_accel, run_whole}

  unfoldable pub run_on : Where → ℕ → ℕ → S → S × Option Failed
  run_on p i j s = if is_cpu p then run_on_cpu i j s else run_on_accel i j s

  -- `for (int i = 0; i < n;)`, on fuel; a run takes at least one node.
  unfoldable pub run_loop : ℕ → ℕ → ℕ → (ℕ → Where) → S → S × Option Failed
  unfolding extend run_on
  run_loop zero n i w s = (s, none)
  run_loop (suc fuel) n i w s =
      let j = extend n n (suc i) (w i) w in
      let (s', status) = run_on (w i) i j s in
      let rest = run_loop fuel n j w s' in
      if ltb i n then (elim status [ none ↦ rest | some failed ↦ (s', some failed) ]) else (s, none)

  unfoldable pub fb_graph_compute :
      Bool → Ggml → ℕ → ℕ → (ℕ → ℕ) → Fallback S → Fallback S × Option Failed
  unfolding any_cpu classify place run_loop
  fb_graph_compute hexagon g fuel n nodes fc =
      let split = any_cpu n (λ i. classify hexagon g (nodes i)) in
      let (s, status) =
        (if split
          then run_loop n n 0 (place hexagon g fuel n nodes) fc.machine
          else run_whole fc.machine) in
      (
        record {
          n_graphs = suc fc.n_graphs;
          n_split_graphs = if split then suc fc.n_split_graphs else fc.n_split_graphs;
          machine = s;
        },
        status,
      )
