-- ===== src/Scratch/Tests.antt =====
-- Scratch contexts on a ggml that makes object 1 of each kind and counts them.
use vla_cpp.Common.{ℕ, ◌≡◌, refl, true, false, Option, none, some, List, [], ◌∷◌, ◌==◌, arith}
use vla_cpp.Scratch.{Ggml, Scratch, GraphCache, ensure}
use vla_cpp.Scratch.Held.{Counts}
use vla_cpp.Scratch.Cache.{IsEnsured, ensure-IsEnsured}

-- The live contexts and allocators, and the size of the last context.
abbrev Objects : Type 0
Objects = (List ℕ × List ℕ) × ℕ

abbrev tail : List ℕ → List ℕ
tail [] = []
tail (x ∷ xs) = xs

abbrev counting : Ggml
counting = record {
  W = Objects;
  init = λ a w. (some 1, ((1 ∷ w.0.0, w.0.1), a));
  reset = λ c w. w;
  free = λ c w. ((tail w.0.0, w.0.1), w.1);
  gallocr_new = λ w. (some 1, ((w.0.0, 1 ∷ w.0.1), w.1));
  gallocr_free = λ g w. ((w.0.0, tail w.0.1), w.1);
  alloc_graph = λ g graph w. (true, w);
}

counting-Counts : Counts counting (λ w. w.0) (λ c w. w.1)
counting-Counts = record {
  init_fails = λ a w e. absurd (ground arith);
  init_makes = λ a w c e. (ground arith, refl);
  resets = λ c w. (refl, refl);
  frees = λ c w cs gs e. ground arith;
  new_fails = λ w e. absurd (ground arith);
  new_makes = λ w g e. ground arith;
  new_pool = λ w c. refl;
  galloc_frees = λ g w cs gs e. ground arith;
  allocates = λ g graph w. (refl, λ c. refl);
}

abbrev small : Scratch × Objects
small = (record { ctx = some 1; galloc = none; arena = 16 }, ((1 ∷ [], []), 16))

abbrev build : ℕ → ℕ → ℕ → Objects → (Option ℕ × ℕ) × Objects
build key ctx io w = ((some key, io), w)

abbrev empty : GraphCache ℕ ℕ × Objects
empty = (
  record { ctx = none; galloc = none; graph = none; key = 0; io = 0; valid = false },
  (([], []), 0),
)

same_key : (k : ℕ) → (k == k) ≡ true
same_key k = ground arith

ensure-IsEnsured_example :
    IsEnsured counting
      (λ w. w.0)
      (λ c w. w.1)
      counting-Counts
      (λ a b. a == b)
      0
      build
      7
      (ensure counting (λ a b. a == b) 0 build 7 64 empty)
ensure-IsEnsured_example =
    ensure-IsEnsured counting (λ w. w.0) (λ c w. w.1) counting-Counts (λ a b. a == b) 0 build
      same_key (λ k x io w. refl) 7 64 empty (refl, λ v. absurd (ground arith))
