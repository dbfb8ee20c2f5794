-- ===== src/BackendFallback/Place/Copies.antt =====
-- On an HTP session a copy that feeds the CPU runs on the CPU too.
use vla_cpp.Common.{
  ℕ, zero, suc, ◌+◌, ◌≤◌, ◌<◌, ◌≡◌, ◌≢◌, refl, sym, ◌∙◌, ◌⊎◌, inl, inr, Bool, true, false, ◌&&◌,
  ◌||◌, some, ◌==◌, if◌then◌else◌, arith, Bool-cases, Option-cases, ==_iff,
}
use vla_cpp.Common.Loops.{for_range, store}
use vla_cpp.BackendFallback.Graph.{
  Ggml, Op, op_cpy, op_cont, op_dup, is_view_op, is_copy_op, producer,
}
use vla_cpp.BackendFallback.Accepts.{accel_runs}
use vla_cpp.BackendFallback.Place.{
  Where, accel, cpu, either, is_cpu, is_accel, classify, index_of, pull_source, pull_node,
  pull_loop, place,
}
use vla_cpp.BackendFallback.Place.Refused.{
  Pulls, Pulls-sources, Pulls-pull_loop, settle_kept, accel-ne-cpu,
}

module _ (g : Ggml) (fuel n : ℕ) (nodes : ℕ → ℕ) where
  -- Source `s` of node `i` looks through views at the copy `p`, which is node `k`.
  pub record Feeds (i s p k : ℕ) : Type 0 where
    pub reads : producer g fuel ((g.at (nodes i)).src s) ≡ some p
    pub node : index_of nodes n p ≡ some k
    pub copies : is_copy_op (g.at p).op ≡ true

  -- Each node comes after the nodes that it reads from.
  abbrev pub IsOrdered : Type 0
  IsOrdered = (i s p k : ℕ) → Feeds i s p k → k < i

  -- The places at and above `m` do not change below it: node `i` is asked before its copies are.
  pull_source_above :
      (i s j : ℕ) (w : ℕ → Where) → IsOrdered → i ≤ j → pull_source g fuel n nodes i s w j ≡ w j
  unfolding pull_source store
  pull_source_above i s j w ordered h =
      elim (Option-cases (producer g fuel ((g.at (nodes i)).src s))) [
        | inl no_producer ↦ rw (no_producer, pull_source) refl
        | inr (p, found) ↦ elim (Option-cases (index_of nodes n p)) [
          | inl outside ↦ rw (found, outside, pull_source) refl
          | inr (k, inside) ↦ elim (Bool-cases (is_accel (w k) && is_copy_op (g.at p).op)) [
            | inl pulled ↦
                let copies : is_copy_op (g.at p).op ≡ true = ground arith in
                let below =
                  ordered i s p k (record { reads = found; node = inside; copies = copies }) in
                rw (found, inside, pulled, pull_source) (other j k w (omega arith))
            | inr left ↦ rw (found, inside, left, pull_source) refl
          ]
        ]
      ]
    where
      other : (j k : ℕ) (w : ℕ → Where) → k < j → (if j == k then cpu else w j) ≡ w j
      other j k w h = ground arith

  sources_above :
      (m i s j : ℕ) (w : ℕ → Where)
      → IsOrdered
      → i ≤ j
      → for_range m s (pull_source g fuel n nodes i) w j ≡ w j
  unfolding for_range
  sources_above zero i s j w ordered h = refl
  sources_above (suc m) i s j w ordered h =
      sources_above m i (suc s) j (pull_source g fuel n nodes i s w) ordered h
      ∙ pull_source_above i s j w ordered h

  pull_node_above :
      (i j : ℕ) (w : ℕ → Where) → IsOrdered → i ≤ j → pull_node g fuel n nodes i w j ≡ w j
  unfolding pull_node
  pull_node_above i j w ordered h = elim (Bool-cases (is_cpu (w i))) [
    | inl here ↦ rw here (sources_above g.max_src i 0 j w ordered h)
    | inr elsewhere ↦ rw elsewhere refl
  ]

  pull_loop_above :
      (m j : ℕ) (w : ℕ → Where) → IsOrdered → m ≤ j → pull_loop g fuel n nodes m w j ≡ w j
  unfolding pull_loop
  pull_loop_above zero j w ordered h = refl
  pull_loop_above (suc i) j w ordered h =
      pull_loop_above i j (pull_node g fuel n nodes i w) ordered (omega arith)
      ∙ pull_node_above i j w ordered (omega arith)

  -- A place that is not the accelerator's does not become so.
  not_accel_stays : (w w' : ℕ → Where) (k : ℕ) → Pulls w w' → w k ≢ accel → w' k ≢ accel
  not_accel_stays w w' k p h e = elim (p k) [ inl same ↦ h (sym same ∙ e) | inr (was, now) ↦ h was ]

  pull_source_done :
      (i s p k : ℕ) (w : ℕ → Where) → Feeds i s p k → pull_source g fuel n nodes i s w k ≢ accel
  unfolding pull_source store
  pull_source_done i s p k w f = elim (Bool-cases (is_accel (w k))) [
    | inl pulled ↦ rw (f.reads, f.node, f.copies, pulled, pull_source) (now_cpu k w)
    | inr left ↦ rw (f.reads, f.node, left, pull_source) (λ e. ground arith)
  ]
    where
      now_cpu : (k : ℕ) (w : ℕ → Where) → (if k == k then cpu else w k) ≢ accel
      now_cpu k w e = ground arith

  sources_done :
      (m i s s0 p k : ℕ) (w : ℕ → Where)
      → Feeds i s p k
      → s0 ≤ s
      → s < s0 + m
      → for_range m s0 (pull_source g fuel n nodes i) w k ≢ accel
  unfolding for_range
  sources_done zero i s s0 p k w f lo hi = absurd (omega arith)
  sources_done (suc m) i s s0 p k w f lo hi = elim (Bool-cases (s == s0)) [
    | inl same ↦
        not_accel_stays _ _ k (Pulls-sources g fuel n nodes m i (suc s0) _)
          (rw (← (==_iff s s0).0 same) (pull_source_done i s p k w f))
    | inr other ↦
        sources_done m i s (suc s0) p k (pull_source g fuel n nodes i s0 w) f (ground arith)
          (omega arith)
  ]

  pull_node_done :
      (i s p k : ℕ) (w : ℕ → Where)
      → Feeds i s p k
      → s < g.max_src
      → w i ≡ cpu
      → pull_node g fuel n nodes i w k ≢ accel
  unfolding pull_node
  pull_node_done i s p k w f h at_cpu =
      rw at_cpu (sources_done g.max_src i s 0 p k w f (omega arith) (omega arith))

  pull_loop_done :
      (m i s p k : ℕ) (w : ℕ → Where)
      → IsOrdered
      → Feeds i s p k
      → s < g.max_src
      → i < m
      → pull_loop g fuel n nodes m w i ≡ cpu
      → pull_loop g fuel n nodes m w k ≢ accel
  unfolding pull_loop
  pull_loop_done zero i s p k w ordered f hs hi here = absurd (omega arith)
  pull_loop_done (suc m) i s p k w ordered f hs hi here = elim (Bool-cases (i == m)) [
    | inl same ↦ last ((==_iff i m).0 same)
    | inr other ↦
        pull_loop_done m i s p k (pull_node g fuel n nodes m w) ordered f hs (ground arith) here
  ]
    where
      last : i ≡ m → pull_loop g fuel n nodes m (pull_node g fuel n nodes m w) k ≢ accel
      last e =
          let before =
            sym (pull_node_above m i w ordered (omega arith))
            ∙ sym (pull_loop_above m i (pull_node g fuel n nodes m w) ordered (omega arith))
            ∙ here in
          not_accel_stays _ _ k (Pulls-pull_loop g fuel n nodes m _)
            (rw (← e) (pull_node_done i s p k w f hs before))

  index_of-nodes : (m p k : ℕ) → index_of nodes m p ≡ some k → nodes k ≡ p
  unfolding index_of
  index_of-nodes zero p k e = ground arith
  index_of-nodes (suc m) p k e = ground (arith, index_of-nodes m p k)

  computing-ne-either :
      (hexagon : Bool) (t : ℕ)
      → (is_view_op (g.at t).op || g.is_empty t) ≡ false
      → classify hexagon g t ≢ either
  unfolding classify
  computing-ne-either hexagon t h = elim (Option-cases (accel_runs hexagon g t)) [
    | inl runs ↦ rw (h, runs) (λ e. ground arith)
    | inr (why, refused) ↦ rw (h, refused) (λ e. ground arith)
  ]

  copy_no_view : (op : Op) → is_copy_op op ≡ true → is_view_op op ≡ false
  unfolding is_copy_op is_view_op
  copy_no_view op_cpy h = refl
  copy_no_view op_cont h = refl
  copy_no_view op_dup h = refl
  copy_no_view _ h = ground arith

  either_stays : (w w' : ℕ → Where) (k : ℕ) → Pulls w w' → w k ≢ either → w' k ≢ either
  either_stays w w' k p h e = elim (p k) [
    | inl same ↦ h (sym same ∙ e)
    | inr (was, now) ↦ ground (arith, now, e)
  ]

  Where-cases : (p : Where) → (p ≡ accel) ⊎ (p ≡ cpu) ⊎ (p ≡ either)
  Where-cases accel = inl refl
  Where-cases cpu = inr (inl refl)
  Where-cases either = inr (inr refl)

  -- On an HTP session and in a graph whose nodes come after the copies that they read: when an op that
  -- computes runs on the CPU, then so does each copy, of at least one element, that one of its sources
  -- reads, directly or through views.
  pub place_copies :
      (i s p k : ℕ)
      → IsOrdered
      → Feeds i s p k
      → i < n
      → s < g.max_src
      → (is_view_op (g.at (nodes i)).op || g.is_empty (nodes i)) ≡ false
      → g.is_empty p ≡ false
      → place true g fuel n nodes i ≡ cpu
      → place true g fuel n nodes k ≡ cpu
  unfolding place
  place_copies i s p k ordered f hi hs computes some_item here =
      let w : ℕ → Where = λ j. classify true g (nodes j) in
      let w' = pull_loop g fuel n nodes n w in
      let pulls = Pulls-pull_loop g fuel n nodes n w in
      let reader = either_stays w w' i pulls (computing-ne-either true (nodes i) computes) in
      let copied : (is_view_op (g.at (nodes k)).op || g.is_empty (nodes k)) ≡ false =
        rw (index_of-nodes n p k f.node, copy_no_view (g.at p).op f.copies, some_item) refl in
      let copy = either_stays w w' k pulls (computing-ne-either true (nodes k) copied) in
      let reader_cpu : w' i ≡ cpu = elim (Where-cases (w' i)) [
        | inl on_accel ↦ absurd (
            accel-ne-cpu
              (sym (settle_kept n 0 i accel accel w' (λ e. ground arith) on_accel) ∙ here))
        | inr (inl on_cpu) ↦ on_cpu
        | inr (inr open_) ↦ absurd (reader open_)
      ] in
      let no_accel = pull_loop_done n i s p k w ordered f hs hi reader_cpu in
      settle_kept n 0 k accel cpu w' (λ e. ground arith)
        (elim (Where-cases (w' k)) [
          | inl on_accel ↦ absurd (no_accel on_accel)
          | inr (inl on_cpu) ↦ on_cpu
          | inr (inr open_) ↦ absurd (copy open_)
        ])
