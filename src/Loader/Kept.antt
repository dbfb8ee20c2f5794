-- ===== src/Loader/Kept.antt =====
-- An error of WeightLoader in src/loader.cpp is kept: whatever is declared afterwards, nothing is uploaded.
use vla_cpp.Common.{
  ℕ, ◌%◌, Bool, true, false, not, ◌&&◌, ◌||◌, ◌≡◌, refl, inl, inr, Option, none, some, List, [],
  ◌∷◌, ◌++◌, length, leb, ◌==◌, Bool-cases, Option-cases,
}
use vla_cpp.HfFetch.Names.{Str}
use vla_cpp.Common.Text.{bytes_of}
use vla_cpp.Gguf.{Reader, Codec, TensorType, t_i8, Tensor, resident_type, is_quantized}
use vla_cpp.Loader.{
  Made, Ggml, AsFloat, Loader, find, same_type, fail, as_float, pad, new_tensor, pad_mlp,
  declare_float, cannot_pad, declare_shape, note_norm, declare_found, declare,
}
use vla_cpp.Loader.Fuse.{
  fuse, fuse_rows, view, push_fused, quant, quant_rows, quant_group, push_second, push_quant,
  codes_made, scales_made,
}
use vla_cpp.Loader.Upload.{Rounding, upload}

-- The operations between the making of a loader and its upload.
pub data Call (F : Type 0) : Type 0 where
  call_declare : (want : TensorType) (required gemma_norm : Bool) (name : Str) → Call F
  call_fuse : (want : TensorType) (out_name : Str) (srcs : List Str) → Call F
  call_quant : (bits group : ℕ) (out_name s : Str) (srcs : List Str) → Call F
  call_as_float : (name : Str) (K N : ℕ) (make : Option (List F)) → Call F
  call_pad : (name : Str) (ne0 ne1 : ℕ) → Call F
  call_pad_mlp : (width : ℕ → ℕ) (fc1 fc2 : Str) → Call F
  call_fail : Call F

module _ {F : Type 0} (gg : Ggml F) (g : Reader F) where
  unfoldable pub call : Call F → Loader F → Loader F
  unfolding declare fuse quant as_float pad pad_mlp fail
  call (call_declare want required gemma_norm name) L =
      (declare gg g want required gemma_norm name L).1
  call (call_fuse want out_name srcs) L = (fuse gg g want out_name srcs L).1
  call (call_quant bits group out_name s srcs) L = (quant gg g bits group out_name s srcs L).1
  call (call_as_float name K N make) L = as_float name K N make L
  call (call_pad name ne0 ne1) L = pad name ne0 ne1 L
  call (call_pad_mlp width fc1 fc2) L = pad_mlp gg g width fc1 fc2 L
  call call_fail L = (fail L).1

  unfoldable pub calls : List (Call F) → Loader F → Loader F
  unfolding call
  calls [] L = L
  calls (c ∷ cs) L = calls cs (call c L)

  -- The loader has failed.
  abbrev pub HasFailed : Loader F → Type 0
  HasFailed L = L.is_ok ≡ false

  new_tensor-HasFailed : (m : Made) (L : Loader F) → HasFailed L → HasFailed (new_tensor gg m L).1
  unfolding new_tensor
  new_tensor-HasFailed m L h = elim (Bool-cases (gg.has_room L.tensors m)) [
    | inl room ↦ rw room h
    | inr full ↦ rw full refl
  ]

  note_norm-HasFailed :
      (gn : Bool) (name : Str) (r : Option ℕ × Loader F)
      → HasFailed r.1
      → HasFailed (note_norm gg g gn name r).1
  unfolding note_norm
  note_norm-HasFailed gn name (none, L) h = h
  note_norm-HasFailed true name (some t, L) h = h
  note_norm-HasFailed false name (some t, L) h = h

  declare_shape-HasFailed :
      (rt : TensorType) (name : Str) (src : Tensor) (p : Option (ℕ × ℕ)) (L : Loader F)
      → HasFailed L
      → HasFailed (declare_shape gg g rt name src p L).1
  unfolding declare_shape
  declare_shape-HasFailed rt name src none L h = new_tensor-HasFailed _ L h
  declare_shape-HasFailed rt name src (some p) L h = elim (Bool-cases (cannot_pad gg g rt src p)) [
    | inl bad ↦ rw bad refl
    | inr good ↦ rw good (new_tensor-HasFailed _ L h)
  ]

  declare_float-HasFailed :
      (want : TensorType) (name : Str) (a : Option (AsFloat F)) (L : Loader F)
      → HasFailed L
      → HasFailed (declare_float gg g want name a L).1
  unfolding declare_float
  declare_float-HasFailed want name none L h = refl
  declare_float-HasFailed want name (some a) L h = new_tensor-HasFailed _ L h

  declare_found-HasFailed :
      (want : TensorType) (gn : Bool) (name : Str) (src : Tensor) (L : Loader F)
      → HasFailed L
      → HasFailed (declare_found gg g want gn name src L).1
  unfolding declare_found
  declare_found-HasFailed want gn name src L h =
      elim (Bool-cases (same_type src.type_ t_i8 && not (same_type want t_i8))) [
        | inl codes ↦ rw codes (declare_float-HasFailed want name (find name L.as_floats) L h)
        | inr plain ↦ rw plain (
            note_norm-HasFailed gn name _ (
              declare_shape-HasFailed (resident_type g (some src) want) name src (find name L.pads)
                L h))
      ]

  pub declare-HasFailed :
      (want : TensorType) (required gn : Bool) (name : Str) (L : Loader F)
      → HasFailed L
      → HasFailed (declare gg g want required gn name L).1
  unfolding declare
  declare-HasFailed want required gn name L h = elim (Bool-cases (leb 256 (length name))) [
    | inl long ↦ rw long refl
    | inr short ↦ elim (Option-cases (g.tensor name)) [
      | inl missing ↦ elim (Bool-cases required) [
        | inl needed ↦ rw (declare, short, missing, needed) refl
        | inr not_needed ↦ rw (declare, short, missing, not_needed) h
      ]
      | inr (src, found) ↦ rw (declare, short, found) (declare_found-HasFailed want gn name src L h)
    ]
  ]

  push_fused-HasFailed :
      (m : Made) (srcs : List Str) (r : Option ℕ × Loader F)
      → HasFailed r.1
      → HasFailed (push_fused gg g m srcs r).1
  unfolding push_fused
  push_fused-HasFailed m srcs (none, L) h = h
  push_fused-HasFailed m srcs (some t, L) h = h

  pub fuse-HasFailed :
      (want : TensorType) (out_name : Str) (srcs : List Str) (L : Loader F)
      → HasFailed L
      → HasFailed (fuse gg g want out_name srcs L).1
  unfolding fuse
  fuse-HasFailed want out_name [] L h = refl
  fuse-HasFailed want out_name (s ∷ srcs) L h = elim (Option-cases (g.tensor s)) [
    | inl missing ↦ rw (fuse, missing) refl
    | inr (first, found) ↦
        elim (Option-cases (fuse_rows gg g want (view gg g want s first L) (s ∷ srcs) L 0)) [
          | inl bad ↦ rw (fuse, found, bad) refl
          | inr (rows, good) ↦
              rw (fuse, found, good)
                (push_fused-HasFailed _ (s ∷ srcs) _ (new_tensor-HasFailed _ L h))
        ]
  ]

  push_second-HasFailed :
      (bits group K : ℕ) (srcs : List Str) (mw ms : Made) (w : ℕ) (r : Option ℕ × Loader F)
      → HasFailed r.1
      → HasFailed (push_second gg g bits group K srcs mw ms w r).1
  unfolding push_second
  push_second-HasFailed bits group K srcs mw ms w (none, L) h = h
  push_second-HasFailed bits group K srcs mw ms w (some t, L) h = h

  push_quant-HasFailed :
      (bits group K : ℕ) (srcs : List Str) (mw ms : Made) (r : Option ℕ × Loader F)
      → HasFailed r.1
      → HasFailed (push_quant gg g bits group K srcs mw ms r).1
  unfolding push_quant
  push_quant-HasFailed bits group K srcs mw ms (none, L) h = refl
  push_quant-HasFailed bits group K srcs mw ms (some w, L) h =
      push_second-HasFailed bits group K srcs mw ms w (new_tensor gg ms L)
        (new_tensor-HasFailed ms L h)

  quant-HasFailed :
      (bits want_group : ℕ) (out_name s : Str) (srcs : List Str) (L : Loader F)
      → HasFailed L
      → HasFailed (quant gg g bits want_group out_name s srcs L).1
  unfolding quant
  quant-HasFailed bits want_group out_name s srcs L h =
      elim (Option-cases (quant_rows gg g none 0 (s ∷ srcs))) [
        | inl bad ↦ rw (quant, bad) refl
        | inr ((none, N), found) ↦ rw (quant, found) refl
        | inr ((some K, N), found) ↦
            elim (Bool-cases (
              bits == 4
              && (not (K % 2 == 0) || not (K % quant_group gg g bits want_group K == 0)))) [
                | inl uneven ↦ rw (quant, found, uneven) refl
                | inr even ↦
                    rw (quant, found, even)
                      (let group = quant_group gg g bits want_group K in
                        push_quant-HasFailed bits group K (s ∷ srcs)
                          (codes_made gg g out_name bits K N)
                          (scales_made gg g out_name bits group K N)
                          (new_tensor gg (codes_made gg g out_name bits K N) L)
                          (new_tensor-HasFailed (codes_made gg g out_name bits K N) L h))
              ]
      ]

  cannot_widen : (ℕ → ℕ) → Tensor → Tensor → Loader F → Bool
  cannot_widen width w1 w2 L =
      is_quantized L.gemm
      || is_quantized w1.type_
      || is_quantized w2.type_
      || (width w1.ne1 == w1.ne1)
      || not (w2.ne0 == w1.ne1)

  pad_mlp-HasFailed :
      (width : ℕ → ℕ) (fc1 fc2 : Str) (L : Loader F)
      → HasFailed L
      → HasFailed (pad_mlp gg g width fc1 fc2 L)
  unfolding pad_mlp cannot_widen
  pad_mlp-HasFailed width fc1 fc2 L h = elim (Option-cases (g.tensor (fc1 ++ bytes_of ".weight"))) [
    | inl missing ↦ rw (pad_mlp, missing) h
    | inr (w1, found) ↦ elim (Option-cases (g.tensor (fc2 ++ bytes_of ".weight"))) [
      | inl missing ↦ rw (pad_mlp, found, missing) h
      | inr (w2, found') ↦ elim (Bool-cases (cannot_widen width w1 w2 L)) [
        | inl kept ↦ rw (pad_mlp, found, found', kept) h
        | inr wider ↦ rw (pad_mlp, found, found', wider) h
      ]
    ]
  ]

  call-HasFailed : (c : Call F) (L : Loader F) → HasFailed L → HasFailed (call c L)
  unfolding call
  call-HasFailed (call_declare want required gn name) L h =
      declare-HasFailed want required gn name L h
  call-HasFailed (call_fuse want out_name srcs) L h = fuse-HasFailed want out_name srcs L h
  call-HasFailed (call_quant bits group out_name s srcs) L h =
      quant-HasFailed bits group out_name s srcs L h
  call-HasFailed (call_as_float name K N make) L h = h
  call-HasFailed (call_pad name ne0 ne1) L h = h
  call-HasFailed (call_pad_mlp width fc1 fc2) L h = pad_mlp-HasFailed width fc1 fc2 L h
  call-HasFailed call_fail L h = refl

  calls-HasFailed : (cs : List (Call F)) (L : Loader F) → HasFailed L → HasFailed (calls cs L)
  unfolding calls
  calls-HasFailed [] L h = h
  calls-HasFailed (c ∷ cs) L h = calls-HasFailed cs (call c L) (call-HasFailed c L h)

  upload-HasFailed :
      {B : Type 0} (codec : Codec F) (fl : Rounding F) (buffer : Option B) (L : Loader F)
      → HasFailed L
      → upload gg g codec fl buffer L ≡ (false, none, [])
  unfolding upload
  upload-HasFailed codec fl buffer L h = rw h refl

  declare_missing :
      (want : TensorType) (gn : Bool) (name : Str) (L : Loader F)
      → g.tensor name ≡ none
      → HasFailed (call (call_declare want true gn name) L)
  unfolding call
  declare_missing want gn name L missing = elim (Bool-cases (leb 256 (length name))) [
    | inl long ↦ rw (call, declare, long) refl
    | inr short ↦ rw (call, declare, short, missing) refl
  ]

  missing-HasFailed :
      (before after : List (Call F)) (want : TensorType) (gn : Bool) (name : Str) (L : Loader F)
      → g.tensor name ≡ none
      → HasFailed (calls (before ++ call_declare want true gn name ∷ after) L)
  unfolding calls
  missing-HasFailed [] after want gn name L missing =
      calls-HasFailed after (call (call_declare want true gn name) L)
        (declare_missing want gn name L missing)
  missing-HasFailed (c ∷ before) after want gn name L missing =
      missing-HasFailed before after want gn name (call c L) missing

  -- Where a tensor that is required is not in the file, nothing is uploaded and no buffer is made,
  -- whatever was declared before it and whatever is declared after it.
  pub upload-calls :
      {B : Type 0} (codec : Codec F) (fl : Rounding F) (buffer : Option B)
      (before after : List (Call F)) (want : TensorType) (gn : Bool) (name : Str) (L : Loader F)
      → g.tensor name ≡ none
      → upload gg g codec fl buffer (calls (before ++ call_declare want true gn name ∷ after) L)
        ≡ (false, none, [])
  upload-calls codec fl buffer before after want gn name L missing =
      upload-HasFailed codec fl buffer (calls (before ++ call_declare want true gn name ∷ after) L)
        (missing-HasFailed before after want gn name L missing)
