-- ===== src/BackendFallback/Graph.antt =====
-- The tensors of a graph as src/backend_fallback.cpp reads them. A tensor is known by its address, a
-- number; the graph's memory is a function from addresses. What ggml answers about a tensor is a
-- parameter.
use vla_cpp.Common.{
  ◌<◌, ◌≡◌, refl, inl, inr, arith, Option-cases, ℕ, zero, suc, Bool, true, false, not, Option, none,
  some, ◌&&◌, if◌then◌else◌,
}
use vla_cpp.Common.Int.{ℤ}

-- The ops that the code tells apart.
pub data Op : Type 0 where
  op_none : Op
  op_view : Op
  op_reshape : Op
  op_permute : Op
  op_transpose : Op
  op_unary : Op
  op_add : Op
  op_sub : Op
  op_mul : Op
  op_div : Op
  op_im2col : Op
  op_concat : Op
  op_mul_mat : Op
  op_cpy : Op
  op_cont : Op
  op_dup : Op
  op_pad : Op
  op_repeat : Op
  op_other : ℕ → Op

pub record Tensor : Type 0 where
  pub op : Op
  pub type : ℕ
  pub ne : ℕ → ℕ
  pub nb : ℕ → ℕ
  pub op_params : ℕ → ℤ
  pub src : ℕ → Option ℕ
  pub view_src : Option ℕ
  pub buffer : Option ℕ

-- The graph's memory with what ggml answers: `is_gelu t` for `ggml_get_unary_op(t) == GELU`, and
-- `weights b` for a buffer whose usage is WEIGHTS.
pub record Ggml : Type 0 where
  pub at : ℕ → Tensor
  pub is_gelu : ℕ → Bool
  pub is_empty : ℕ → Bool
  pub is_contiguous : ℕ → Bool
  pub nelements : ℕ → ℕ
  pub type_size : ℕ → ℕ
  pub weights : ℕ → Bool
  pub supports_op : ℕ → Bool
  pub max_src : ℕ

unfoldable pub is_view_op : Op → Bool
is_view_op op_none = true
is_view_op op_view = true
is_view_op op_reshape = true
is_view_op op_permute = true
is_view_op op_transpose = true
is_view_op _ = false

abbrev pub is_none_op : Op → Bool
is_none_op op_none = true
is_none_op _ = false

-- `op == CPY || op == CONT || op == DUP`
unfoldable pub is_copy_op : Op → Bool
is_copy_op op_cpy = true
is_copy_op op_cont = true
is_copy_op op_dup = true
is_copy_op _ = false

unfoldable pub buffer_of : Ggml → ℕ → Option ℕ
buffer_of g t = elim (g.at t).view_src [ none ↦ (g.at t).buffer | some v ↦ (g.at v).buffer ]

unfoldable pub is_weight : Ggml → ℕ → Bool
unfolding buffer_of
is_weight g t = elim (buffer_of g t) [ none ↦ false | some b ↦ g.weights b ]

-- The loop of producer, on fuel; `none` is the null pointer.
unfoldable pub producer : Ggml → ℕ → Option ℕ → Option ℕ
unfolding is_view_op
producer g fuel none = none
producer g zero (some t) = some t
producer g (suc fuel) (some t) =
    let next = producer g fuel ((g.at t).src 0) in
    if not (is_none_op (g.at t).op) && is_view_op (g.at t).op then next else some t

-- A tensor that only reinterprets memory and has a source.
abbrev pub IsPureView : Ggml → ℕ → Type 0
IsPureView g t = (not (is_none_op (g.at t).op) && is_view_op (g.at t).op) ≡ true

producer_null : (g : Ggml) (fuel : ℕ) → producer g fuel none ≡ none
unfolding producer
producer_null g zero = refl
producer_null g (suc fuel) = refl

-- Where sources have smaller ranks, as they have in a graph without cycles, and with fuel for the
-- rank: the loop of producer ends at a tensor that is no pure view, or at a null pointer.
pub producer_ends :
    (g : Ggml) (rank : ℕ → ℕ) (fuel t p : ℕ)
    → ((u v : ℕ) → (g.at u).src 0 ≡ some v → rank v < rank u)
    → rank t < fuel
    → producer g fuel (some t) ≡ some p
    → ¬ IsPureView g p
unfolding producer
producer_ends g rank zero t p ordered h e view = absurd (omega arith)
producer_ends g rank (suc fuel) t p ordered h e view = elim (Option-cases ((g.at t).src 0)) [
  | inl null ↦ ground (arith, producer_null g fuel)
  | inr (u, reads) ↦
      let ih = producer_ends g rank fuel u p ordered (omega (arith, ordered t u reads)) in
      ground (arith, ih)
]
