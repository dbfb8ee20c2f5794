-- ===== src/Loader/Fuse.antt =====
-- fuse and quant of src/loader.cpp: several tensors of the file as one.
use vla_cpp.Common.{
  ℕ, ◌+◌, ◌*◌, ◌/◌, ◌%◌, Bool, true, false, not, ◌&&◌, ◌||◌, Option, none, some, List, [], ◌∷◌,
  ◌++◌, ltb, ◌==◌, if◌then◌else◌,
}
use vla_cpp.Common.Text.{bytes_of}
use vla_cpp.HfFetch.Names.{Str}
use vla_cpp.Gguf.{Reader, TensorType, t_f32, t_i8, Tensor, resident_type}
use vla_cpp.Loader.{Made, Ggml, Quant, Loader, find, same_type, float_type, fail, new_tensor}

-- What fuse compares of a source.
pub record View : Type 0 where
  pub file : TensorType
  pub resident : TensorType
  pub ne0 : ℕ
  pub ne1 : ℕ
  pub nd : ℕ

module _ {F : Type 0} (gg : Ggml F) (g : Reader F) where
  unfoldable pub view : TensorType → Str → Tensor → Loader F → View
  unfolding find float_type resident_type
  view want s gs L = elim (find s L.as_floats) [
    | none ↦ record {
      file = gs.type_;
      resident = resident_type g (some gs) want;
      ne0 = gs.ne0;
      ne1 = gs.ne1;
      nd = gg.n_dims gs;
    }
    | some a ↦ record { file = t_f32; resident = float_type want; ne0 = a.K; ne1 = a.N; nd = 2 }
  ]

  unfoldable pub mismatched : View → View → Bool
  unfolding same_type
  mismatched v0 v =
      not (same_type v.resident v0.resident)
      || (same_type v0.resident v0.file && not (same_type v.file v0.file))
      || (not (v0.nd == 1) && not (v.ne0 == v0.ne0))
      || not (v.nd == v0.nd)

  -- The rows together, none for a source that is missing or does not match.
  unfoldable pub fuse_rows : TensorType → View → List Str → Loader F → ℕ → Option ℕ
  unfolding view mismatched
  fuse_rows want v0 [] L rows = some rows
  fuse_rows want v0 (s ∷ srcs) L rows = elim (g.tensor s) [
    | none ↦ none
    | some gs ↦
        let v = view want s gs L in
        elim (mismatched v0 v) [
          | true ↦ none
          | false ↦ fuse_rows want v0 srcs L (rows + (if v0.nd == 1 then v.ne0 else v.ne1))
        ]
  ]

  unfoldable pub fused_shape : Str → View → ℕ → Made
  fused_shape out_name v0 rows =
      if v0.nd == 1
      then record { name = out_name; type_ = v0.resident; ne0 = rows; ne1 = 1; ne2 = 1; ne3 = 1 }
      else record {
        name = out_name;
        type_ = v0.resident;
        ne0 = v0.ne0;
        ne1 = rows;
        ne2 = 1;
        ne3 = 1;
      }

  unfoldable pub push_fused : Made → List Str → Option ℕ × Loader F → Option ℕ × Loader F
  push_fused m srcs (none, L) = (none, L)
  push_fused m srcs (some t, L) =
      (some t, record L { fused = L.fused ++ (record { dst = t; made = m; srcs = srcs } ∷ []) })

  unfoldable pub fuse : TensorType → Str → List Str → Loader F → Option ℕ × Loader F
  unfolding fail view fuse_rows fused_shape push_fused new_tensor
  fuse want out_name [] L = fail L
  fuse want out_name (s ∷ srcs) L = elim (g.tensor s) [
    | none ↦ fail L
    | some first ↦
        let v0 = view want s first L in
        elim (fuse_rows want v0 (s ∷ srcs) L 0) [
          | none ↦ fail L
          | some rows ↦
              let m = fused_shape out_name v0 rows in push_fused m (s ∷ srcs) (new_tensor gg m L)
        ]
  ]

  -- The width of the sources and their rows together; `K` is that of the ones before.
  unfoldable pub quant_rows : Option ℕ → ℕ → List Str → Option (Option ℕ × ℕ)
  quant_rows K N [] = some (K, N)
  quant_rows K N (s ∷ srcs) = elim (g.tensor s) [
    | none ↦ none
    | some gs ↦
        elim (not (gg.n_dims gs == 2) || (elim K [ none ↦ false | some k ↦ not (gs.ne0 == k) ])) [
          | true ↦ none
          | false ↦ quant_rows (some gs.ne0) (N + gs.ne1) srcs
        ]
  ]

  unfoldable pub quant_group : ℕ → ℕ → ℕ → ℕ
  quant_group bits group K = if bits == 4 then (if ltb 0 group then group else K) else 0

  -- The codes and the scales.
  unfoldable pub codes_made : Str → ℕ → ℕ → ℕ → Made
  codes_made out_name bits K N = record {
    name = out_name;
    type_ = t_i8;
    ne0 = if bits == 4 then K / 2 else K;
    ne1 = N;
    ne2 = 1;
    ne3 = 1;
  }

  unfoldable pub scales_made : Str → ℕ → ℕ → ℕ → ℕ → Made
  scales_made out_name bits group K N = record {
    name = out_name ++ bytes_of ".scale";
    type_ = t_f32;
    ne0 = if bits == 4 then K / group * N else N;
    ne1 = 1;
    ne2 = 1;
    ne3 = 1;
  }

  unfoldable pub push_second :
      ℕ → ℕ → ℕ → List Str → Made → Made → ℕ → Option ℕ × Loader F → Option Quant × Loader F
  push_second bits group K srcs mw ms w (none, L) = (none, L)
  push_second bits group K srcs mw ms w (some t, L) =
      let made : Quant = record {
        q = record { w = w; w_made = mw; s = t; s_made = ms; bits = bits; group = group };
        K = K;
        srcs = srcs;
      } in
      (some made, record L { quants = L.quants ++ (made ∷ []) })

  -- Both tensors are asked for before either is tested.
  unfoldable pub push_quant :
      ℕ → ℕ → ℕ → List Str → Made → Made → Option ℕ × Loader F → Option Quant × Loader F
  unfolding new_tensor push_second
  push_quant bits group K srcs mw ms (none, L) =
      (none, record (new_tensor gg ms L).1 { is_ok = false })
  push_quant bits group K srcs mw ms (some w, L) =
      push_second bits group K srcs mw ms w (new_tensor gg ms L)

  -- Of at least one source.
  unfoldable pub quant : ℕ → ℕ → Str → Str → List Str → Loader F → Option Quant × Loader F
  unfolding fail quant_rows quant_group codes_made scales_made push_quant new_tensor
  quant bits want_group out_name s srcs L = elim (quant_rows none 0 (s ∷ srcs)) [
    | none ↦ (none, (fail L).1)
    | some (none, N) ↦ (none, (fail L).1)
    | some (some K, N) ↦
        let group = quant_group bits want_group K in
        if bits == 4 && (not (K % 2 == 0) || not (K % group == 0))
        then (none, (fail L).1)
        else push_quant bits group K (s ∷ srcs) (codes_made out_name bits K N)
            (scales_made out_name bits group K N) (new_tensor gg (codes_made out_name bits K N) L)
  ]

  unfoldable pub fuse_typed : TensorType → Str → List Str → Loader F → Option ℕ × Loader F
  unfolding fuse
  fuse_typed want out_name srcs L = fuse want out_name srcs L

  unfoldable pub fuse_gemm : Str → List Str → Loader F → Option ℕ × Loader F
  unfolding fuse
  fuse_gemm out_name srcs L = fuse L.gemm out_name srcs L

  unfoldable pub fuse_f32 : Str → List Str → Loader F → Option ℕ × Loader F
  unfolding fuse
  fuse_f32 out_name srcs L = fuse t_f32 out_name srcs L

  unfoldable pub quant_i8 : Str → Str → List Str → Loader F → Option Quant × Loader F
  unfolding quant
  quant_i8 out_name s srcs L = quant 8 0 out_name s srcs L

  unfoldable pub quant_i4 : Str → Str → List Str → ℕ → Loader F → Option Quant × Loader F
  unfolding quant
  quant_i4 out_name s srcs group L = quant 4 group out_name s srcs L
