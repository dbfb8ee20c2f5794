-- ===== src/BackendFallback/Runs/Cut.antt =====
-- The runs of a graph cover it in order, each as long as it can be.
use vla_cpp.Common.{
  ℕ, zero, suc, ◌+◌, ◌≤◌, ◌<◌, ◌≡◌, ◌≢◌, refl, ap, ◌⊎◌, inl, inr, Bool, true, false, ◌&&◌, ◌||◌,
  Option, none, some, List, [], ◌∷◌, ltb, if◌then◌else◌, arith, Bool-cases,
}
use vla_cpp.BackendFallback.Graph.{Ggml, is_view_op}
use vla_cpp.BackendFallback.Accepts.{accel_runs}
use vla_cpp.BackendFallback.Place.{Where, accel, cpu, either, classify, any_cpu, place}
use vla_cpp.BackendFallback.Runs.{
  same_place, Runner, extend, Fallback, run_on, run_loop, fb_graph_compute,
}

-- A list of ends cuts the nodes from `i` to `n` into runs: each run has a node, all its nodes have one
-- place, and the node behind it has another.
abbrev pub IsCut : ℕ → (ℕ → Where) → ℕ → List ℕ → Type 0
IsCut n w i [] = i ≡ n
IsCut n w i (j ∷ js) =
    (i < j) × (j ≤ n) × ((k : ℕ) → i ≤ k → k < j → w k ≡ w i) × (j < n → w j ≢ w i) × IsCut n w j js

same_place_iff : (p q : Where) → same_place p q ≡ true → p ≡ q
same_place_iff accel accel h = refl
same_place_iff cpu cpu h = refl
same_place_iff either either h = refl
same_place_iff accel cpu h = ground arith
same_place_iff accel either h = ground arith
same_place_iff cpu accel h = ground arith
same_place_iff cpu either h = ground arith
same_place_iff either accel h = ground arith
same_place_iff either cpu h = ground arith

same_place_refl : (p : Where) → same_place p p ≡ true
same_place_refl accel = refl
same_place_refl cpu = refl
same_place_refl either = refl

-- What the inner loop finds, when it has fuel for the nodes that are left.
record IsEnd (n j : ℕ) (p : Where) (w : ℕ → Where) (e : ℕ) : Type 0 where
  after : j ≤ e
  within : e ≤ n
  same : (k : ℕ) → j ≤ k → k < e → w k ≡ p
  other : e < n → w e ≢ p

extend-IsEnd :
    (fuel n j : ℕ) (p : Where) (w : ℕ → Where)
    → n ≤ j + fuel
    → j ≤ n
    → IsEnd n j p w (extend fuel n j p w)
unfolding extend
extend-IsEnd zero n j p w h q = record {
  after = omega arith;
  within = q;
  same = λ k a b. absurd (omega arith);
  other = λ a. absurd (omega arith);
}
extend-IsEnd (suc fuel) n j p w h q = elim (Bool-cases (ltb j n && same_place (w j) p)) [
  | inl longer ↦
      let i = extend-IsEnd fuel n (suc j) p w (omega arith) (ground arith) in
      let here : w j ≡ p = same_place_iff (w j) p (ground arith) in
      rw longer (record {
        after = omega (arith, i.after);
        within = i.within;
        same = λ k a b. elim (Bool-cases (ltb j k)) [
          | inl beyond ↦ i.same k (ground arith) b
          | inr first ↦ let e : k ≡ j = ground arith in rw e here
        ];
        other = i.other;
      })
  | inr ends ↦ rw ends (record {
    after = omega arith;
    within = q;
    same = λ k a b. absurd (omega arith);
    other = λ a e. ground (arith, same_place_refl p);
  })
]

module _ (r : Runner) where
  open r use {S, Failed, run_whole}

  -- The runs one after the other, to the first that fails.
  abbrev pub run_all : (ℕ → Where) → ℕ → List ℕ → S → S × Option Failed
  run_all w i [] s = (s, none)
  run_all w i (j ∷ js) s =
      let (s', status) = run_on r (w i) i j s in
      elim status [ none ↦ run_all w j js s' | some failed ↦ (s', some failed) ]

  cuts : (fuel n i : ℕ) (w : ℕ → Where) → List ℕ
  cuts zero n i w = []
  cuts (suc fuel) n i w =
      let j = extend n n (suc i) (w i) w in
      let rest = cuts fuel n j w in if ltb i n then j ∷ rest else []

  cuts-IsCut : (fuel n i : ℕ) (w : ℕ → Where) → n ≤ i + fuel → i ≤ n → IsCut n w i (cuts fuel n i w)
  unfolding cuts
  cuts-IsCut zero n i w h q = omega arith
  cuts-IsCut (suc fuel) n i w h q = elim (Bool-cases (ltb i n)) [
    | inl more ↦
        let e = extend-IsEnd n n (suc i) (w i) w (omega arith) (ground arith) in
        rw more (
          omega (arith, e.after),
          e.within,
          λ k a b. elim (Bool-cases (ltb i k)) [
            | inl beyond ↦ e.same k (ground arith) b
            | inr first ↦ let d : k ≡ i = ground arith in ap w d
          ],
          e.other,
          cuts-IsCut fuel n _ w (omega (arith, e.after)) e.within,
        )
    | inr done ↦ rw done (ground arith)
  ]

  run_loop-run_all :
      (fuel n i : ℕ) (w : ℕ → Where) (s : S)
      → run_loop r fuel n i w s ≡ run_all w i (cuts fuel n i w) s
  unfolding run_loop cuts
  run_loop-run_all zero n i w s = refl
  run_loop-run_all (suc fuel) n i w s = elim (Bool-cases (ltb i n)) [
    | inl more ↦
        let j = extend n n (suc i) (w i) w in
        let (s', status) = run_on r (w i) i j s in
        rw more (
          ap
            (λ (rest : S × Option Failed). elim status [
              | none ↦ rest
              | some failed ↦ (s', some failed)
            ])
            (run_loop-run_all fuel n j w s'))
    | inr done ↦ rw done refl
  ]

  any_cpu-false : (n i : ℕ) (w : ℕ → Where) → i < n → any_cpu n w ≡ false → w i ≢ cpu
  unfolding any_cpu
  any_cpu-false zero i w h e d = absurd (omega arith)
  any_cpu-false (suc n) i w h e d = elim (Bool-cases (ltb i n)) [
    | inl below ↦ any_cpu-false n i w (ground arith) (ground arith) d
    | inr last ↦ let same : i ≡ n = ground arith in ground (arith, ap w same)
  ]

  accepted :
      (hexagon : Bool) (g : Ggml) (t : ℕ)
      → classify hexagon g t ≢ cpu
      → ((is_view_op (g.at t).op || g.is_empty t) ≡ true) ⊎ (accel_runs hexagon g t ≡ none)
  unfolding classify
  accepted hexagon g t h = ground arith

  -- The machine after a graph of `n` nodes, with fuel enough whatever the graph: either the
  -- accelerator gets the whole graph, and then it accepts every op that computes, or the graph is cut
  -- into runs that cover its nodes in order, as long as can be, which are run one after the other, each
  -- where its nodes are placed, up to the first that fails, whose status is returned.
  pub fb_graph_compute-run_all :
      (hexagon : Bool) (g : Ggml) (fuel n : ℕ) (nodes : ℕ → ℕ) (fc : Fallback S)
      → (let (fc', status) = fb_graph_compute r hexagon g fuel n nodes fc in
          (((fc'.machine, status) ≡ run_whole fc.machine)
            × ((i : ℕ)
                → i < n
                → ((is_view_op (g.at (nodes i)).op || g.is_empty (nodes i)) ≡ true)
                  ⊎ (accel_runs hexagon g (nodes i) ≡ none)))
          ⊎ ((ends : List ℕ) × IsCut n (place hexagon g fuel n nodes) 0 ends
              × ((fc'.machine, status) ≡ run_all (place hexagon g fuel n nodes) 0 ends fc.machine)))
  unfolding fb_graph_compute
  fb_graph_compute-run_all hexagon g fuel n nodes fc =
      elim (Bool-cases (any_cpu n (λ i. classify hexagon g (nodes i)))) [
        | inl split ↦
            let w = place hexagon g fuel n nodes in
            inr (
              cuts n n 0 w,
              cuts-IsCut n n 0 w (omega arith) (omega arith),
              rw split (run_loop-run_all n n 0 w fc.machine),
            )
        | inr whole ↦ inl (
          rw whole refl,
          λ i h.
              accepted hexagon g (nodes i)
                (any_cpu-false n i (λ k. classify hexagon g (nodes k)) h whole),
        )
      ]
