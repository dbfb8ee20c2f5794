-- ===== src/FoldQuant/Tests.antt =====
-- FoldQuant at concrete inputs, over whole numbers in place of floats.
use vla_cpp.Common.{
  ℕ, zero, suc, ◌^◌, ◌<◌, ◌≡◌, refl, inl, inr, Bool, true, false, not, Option, none, some, List, [],
  ◌∷◌, arith, length, take, All,
}
use vla_cpp.Common.Int.{ℤ, pos, negsuc, ◌+ℤ◌, ◌*ℤ◌, neg_ℤ, leb_ℤ, mag}
use vla_cpp.FoldQuant.Floats.{FloatOps, Converts, Magnitude}
use vla_cpp.FoldQuant.Pack.{unpack_nibbles, int8_of}
use vla_cpp.FoldQuant.Layout.{GemmShape, fq_out_index}
use vla_cpp.FoldQuant.Rotate.{fq_rot_block_for}
use vla_cpp.FoldQuant.Activation.{FqActSpec, act_row, fq_act_store_bits}
use vla_cpp.FoldQuant.Activation.Codes.{codes_of, act_row_packed}
use vla_cpp.FoldQuant.Gemm.{GemmNode, fq_gemm_magic, dot_from, codes_in, fq_gemm_cpu, gemm_value}
use vla_cpp.FoldQuant.Gemm.Range.{dot_from_in_range}
use vla_cpp.FoldQuant.Gemm.Threads.{IsFull, run_threads}
use vla_cpp.FoldQuant.Gemm.Values.{fq_gemm_cpu-gemm_value}
use vla_cpp.FoldQuant.Node.{fq_act_magic}

abbrev codes : List ℤ
codes = pos 7 ∷ negsuc 7 ∷ negsuc 0 ∷ pos 3 ∷ []

-- Three parts of two heads with four lanes, the last part transposed.
abbrev heads_shape : GemmShape
heads_shape = record { n_out = 24; head_dim = 4; heads = 2; vmask = 4 }

abbrev plain_shape : GemmShape
plain_shape = record { n_out = 8; head_dim = 0; heads = 0; vmask = 0 }

transposed_test : fq_out_index heads_shape 5 3 22 ≡ 113
unfolding fq_out_index
transposed_test = refl

abbrev token : ℕ
token = 3

abbrev column : ℕ
column = 22

narrowed_test : fq_rot_block_for 720 (pos 64) ≡ 16
unfolding fq_rot_block_for
narrowed_test = refl

abbrev nibble_bytes : List ℕ
nibble_bytes = 0x87 ∷ 0x3f ∷ []

abbrev code_bytes : List ℕ
code_bytes = 128 ∷ 127 ∷ 1 ∷ 255 ∷ []

short_row : length (codes_in 4 nibble_bytes) < 2 ^ 17
unfolding codes_in unpack_nibbles
short_row = omega arith

dot_from_in_range_example :
    mag (dot_from (pos 0) (take 2 (codes_in 4 nibble_bytes)) (take 2 (codes_in 8 code_bytes)))
    < 2 ^ 31
dot_from_in_range_example = dot_from_in_range 4 8 2 nibble_bytes code_bytes short_row

abbrev lt_ℤ : ℤ → ℤ → Bool
lt_ℤ a b = not (leb_ℤ b a)

abbrev pub whole : FloatOps
whole = record {
  F = ℤ;
  zero_f = pos 0;
  one_f = pos 1;
  add = ◌+ℤ◌;
  sub = λ a b. a +ℤ neg_ℤ b;
  mul = ◌*ℤ◌;
  div = λ a b. a;
  neg = neg_ℤ;
  sqrt = λ a. a;
  fabs = λ a. pos (mag a);
  lt = lt_ℤ;
  nearbyint = λ a. a;
  trunc = λ a. a;
  of_int = λ a. a;
  inv_sqrt = λ n. pos 1;
  tiny = pos 1;
  tanh = λ a. a;
  half = pos 1;
  sqrt_2_over_pi = pos 1;
  gelu_cubic = pos 0;
}

within_ℤ : (n : ℕ) (x : ℤ) → lt_ℤ (neg_ℤ (pos n)) x ≡ true → lt_ℤ x (pos n) ≡ true → Magnitude n x
within_ℤ zero (pos k) h j = ground arith
within_ℤ (suc n) (pos k) h j = ground arith
within_ℤ zero (negsuc k) h j = ground arith
within_ℤ (suc n) (negsuc k) h j = ground arith

whole-Converts : Converts whole
whole-Converts = record {
  exact = λ n h. refl;
  exact_neg = λ n h. refl;
  within = λ n x h. within_ℤ n x;
}

abbrev act_spec : ℕ → FqActSpec ℤ
act_spec abits = record {
  magic = fq_act_magic;
  K = 4;
  abits = abits;
  rot_block = 2;
  fold_before = false;
  has_gamma = false;
  has_ascale = true;
  clip = pos 1;
  eps = pos 0;
  wide4 = false;
  has_shift = false;
}

abbrev numbers : ℕ → ℤ
numbers n = pos n

abbrev ones : ℕ → ℤ
ones n = pos 1

eight_bits : fq_act_store_bits (act_spec 8) ≡ 8
unfolding fq_act_store_bits
eight_bits = refl

act_row_packed_example :
    (unpack_nibbles (act_row whole (act_spec 4) numbers none none none).0
      ≡ codes_of whole whole-Converts (act_spec 4) numbers none none none)
    × All (Magnitude 7) (codes_of whole whole-Converts (act_spec 4) numbers none none none)
    × (length (act_row whole (act_spec 4) numbers none none none).0 ≡ 2)
act_row_packed_example =
    act_row_packed whole whole-Converts (act_spec 4) numbers none none none 2 refl refl refl

abbrev weights : ℕ → List ℕ
weights zero = 1 ∷ 2 ∷ 255 ∷ 0 ∷ []
weights (suc n) = 3 ∷ 0 ∷ 1 ∷ 128 ∷ []

abbrev node : Bool → GemmNode ℤ
node glu = record {
  magic = fq_gemm_magic;
  K = 4;
  wbits = 8;
  shape = plain_shape;
  glu = glu;
  w = weights;
  xq = λ t. (1 ∷ 1 ∷ 2 ∷ 2 ∷ [], pos 1);
  row_bytes = 20;
  wscale = ones;
  bias = some numbers;
  residual = some ones;
  gate = none;
}

abbrev two_threads : List ℕ
two_threads = 1 ∷ 0 ∷ []

two_threads-IsFull : IsFull 2 two_threads
two_threads-IsFull zero h = inr (inl refl)
two_threads-IsFull (suc zero) h = inl refl
two_threads-IsFull (suc (suc i)) h = absurd (omega arith)

gemm_test : gemm_value whole (node false) 0 0 ≡ pos 2
unfolding gemm_value ◌+ℤ◌ ◌*ℤ◌ int8_of
gemm_test = refl

fq_gemm_cpu-gemm_value_example :
    run_threads
      (λ ith. fq_gemm_cpu whole (node false) 3 ith 2)
      two_threads
      numbers
      (fq_out_index plain_shape 3 2 1)
    ≡ gemm_value whole (node false) 2 1
fq_gemm_cpu-gemm_value_example =
    fq_gemm_cpu-gemm_value whole (node false) refl 3 2 2 1 two_threads numbers refl (inl refl)
      (omega arith) (omega arith) (omega arith) two_threads-IsFull

abbrev sources : ℕ → Option (ℕ → ℤ)
sources i = some (λ k. pos i)

abbrev blank : ℕ → List ℕ × ℤ
blank t = ([], pos 0)
