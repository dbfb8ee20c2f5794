-- ===== src/BackendFallback/Tests.antt =====
-- A graph of four nodes: a copy of tensor 0, a view of it, an op that the accelerator lacks and that
-- reads the view, and a sum that it has.
use vla_cpp.Common.{
  ℕ, zero, suc, ◌<◌, ◌≡◌, ◌≢◌, ◌⊎◌, refl, true, false, not, ◌||◌, Option, none, some, List, [], ◌∷◌,
  ◌++◌, ◌==◌, if◌then◌else◌, arith,
}
use vla_cpp.Common.Int.{pos}
use vla_cpp.BackendFallback.Graph.{
  Op, op_none, op_view, op_cpy, op_other, Tensor, Ggml, is_view_op, is_copy_op, producer,
}
use vla_cpp.BackendFallback.Accepts.{Why, rejects, accel_runs}
use vla_cpp.BackendFallback.Place.{accel, cpu, either, place, index_of}
use vla_cpp.BackendFallback.Place.Refused.{place-refused}
use vla_cpp.BackendFallback.Place.Copies.{Feeds, IsOrdered, place_copies}
use vla_cpp.BackendFallback.Runs.{Runner, Fallback, fb_graph_compute}
use vla_cpp.BackendFallback.Runs.Cut.{IsCut, run_all, fb_graph_compute-run_all}

abbrev source : ℕ → ℕ → Option ℕ
source zero s = none
source (suc t) zero = some t
source (suc t) (suc s) = none

abbrev op_of : ℕ → Op
op_of zero = op_none
op_of (suc zero) = op_cpy
op_of (suc (suc zero)) = op_view
op_of (suc (suc (suc zero))) = op_other 0
op_of (suc (suc (suc (suc t)))) = op_other 1

abbrev tensor : ℕ → Tensor
tensor t = record {
  op = op_of t;
  type = 0;
  ne = λ d. 2;
  nb = λ d. 4;
  op_params = λ i. pos 0;
  src = source t;
  view_src = none;
  buffer = none;
}

abbrev memory : Ggml
memory = record {
  at = tensor;
  is_gelu = λ t. false;
  is_empty = λ t. false;
  is_contiguous = λ t. true;
  nelements = λ t. 16;
  type_size = λ t. 4;
  weights = λ b. false;
  supports_op = λ t. not (t == 3);
  max_src = 2;
}

abbrev node : ℕ → ℕ
node i = suc i

first_test : place true memory 8 4 node 0 ≡ cpu
unfolding place
first_test = refl

last_test : place true memory 8 4 node 3 ≡ accel
unfolding place
last_test = refl

refused : accel_runs true memory 3 ≡ some rejects
unfolding accel_runs
refused = refl

place-refused_example :
    (place true memory 8 4 node 2 ≢ either)
    × ((why : Why)
        → (is_view_op (tensor 3).op || false) ≡ false
        → accel_runs true memory 3 ≡ some why
        → place true memory 8 4 node 2 ≡ cpu)
place-refused_example = place-refused true memory 8 4 node 2 (omega arith)

copy_one : (p : ℕ) → is_copy_op (op_of p) ≡ true → p ≡ 1
unfolding is_copy_op
copy_one zero h = ground arith
copy_one (suc zero) h = refl
copy_one (suc (suc zero)) h = ground arith
copy_one (suc (suc (suc zero))) h = ground arith
copy_one (suc (suc (suc (suc p)))) h = ground arith

index_one : (p k : ℕ) → p ≡ 1 → index_of node 4 p ≡ some k → k ≡ 0
unfolding index_of
index_one p k e f = ground arith

first_reads_none : (s p : ℕ) → producer memory 8 (source 1 s) ≡ some p → p ≡ 1 → ⊥
unfolding producer is_view_op
first_reads_none zero p e h = ground arith
first_reads_none (suc s) p e h = ground arith

reads_before : IsOrdered memory 8 4 node
reads_before zero s p k f = absurd (first_reads_none s p f.reads (copy_one p f.copies))
reads_before (suc i) s p k f =
    let zeroth = index_one p k (copy_one p f.copies) f.node in omega arith

copy-Feeds : Feeds memory 8 4 node 2 0 1 0
unfolding producer index_of is_copy_op is_view_op
copy-Feeds = record { reads = refl; node = refl; copies = refl }

computes : (is_view_op (tensor 3).op || false) ≡ false
unfolding is_view_op
computes = refl

reader_on_cpu : place true memory 8 4 node 2 ≡ cpu
unfolding place
reader_on_cpu = refl

place_copies_example : place true memory 8 4 node 0 ≡ cpu
place_copies_example =
    place_copies memory 8 4 node 2 0 1 0 reads_before copy-Feeds (omega arith) (omega arith)
      computes refl reader_on_cpu

descends : (u v : ℕ) → source u 0 ≡ some v → v < u
descends zero v e = ground arith
descends (suc u) v e = ground arith

found : producer memory 8 (some 2) ≡ some 1
unfolding producer is_view_op
found = refl

-- A machine that notes the runs and fails in a run on the accelerator that starts at node 3.
abbrev machine : Runner
machine = record {
  S = List (ℕ × ℕ);
  Failed = ℕ;
  run_on_cpu = λ i j s. (s ++ (i, j) ∷ [], none);
  run_on_accel = λ i j s. (s ++ (i, j) ∷ [], if i == 3 then some 7 else none);
  run_whole = λ s. (s, none);
}

abbrev fresh : Fallback (List (ℕ × ℕ))
fresh = record { n_graphs = 0; n_split_graphs = 0; machine = [] }

runs_test :
    fb_graph_compute machine true memory 8 4 node fresh
    ≡ (record { n_graphs = 1; n_split_graphs = 1; machine = (0, 3) ∷ (3, 4) ∷ [] }, some 7)
unfolding fb_graph_compute
runs_test = refl

fb_graph_compute-run_all_example :
    (let (fc', status) = fb_graph_compute machine true memory 8 4 node fresh in
      (((fc'.machine, status) ≡ machine.run_whole [])
        × ((i : ℕ)
            → i < 4
            → ((is_view_op (tensor (suc i)).op || false) ≡ true)
              ⊎ (accel_runs true memory (suc i) ≡ none)))
      ⊎ ((ends : List ℕ) × IsCut 4 (place true memory 8 4 node) 0 ends
          × ((fc'.machine, status) ≡ run_all machine (place true memory 8 4 node) 0 ends [])))
fb_graph_compute-run_all_example = fb_graph_compute-run_all machine true memory 8 4 node fresh
