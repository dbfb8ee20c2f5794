-- ===== src/Loader/Whole.antt =====
-- The whole upload of src/loader.cpp, after any declarations: which tensors are set, and with how much.
use vla_cpp.Common.{
  ℕ, ◌+◌, ◌<◌, ◌≡◌, sym, ap, inl, inr, Bool, true, false, Option, some, List, [], length, All,
  All-append, Bool-cases, Option-cases, arith,
}
use mathlib.Core.Path.{subst}
use vla_cpp.HfFetch.Names.{Str}
use vla_cpp.Gguf.{Reader, Codec, TensorType, Tensor}
use vla_cpp.Loader.{Ggml, Loader}
use vla_cpp.Loader.Upload.{
  Rounding, Writes, is_dst, is_quant_part, fill_plain, fill_fused, fill_quant, fill_all, upload,
}
use vla_cpp.Loader.Kept.{Call, calls}
use vla_cpp.Loader.Shapes.{IsAt, IsLoader, calls-IsLoader}
use vla_cpp.Loader.Sized.{IsSized}
use vla_cpp.Loader.Exact.{
  IsWritten, All-In, All-both, Fits, Extends-IsWritten, is_filled, fill_plain-Extends,
  fill_fused-Extends,
}
use vla_cpp.Loader.Quants.{fill_quant-Extends}

-- A loader as the constructor makes it.
abbrev pub new_loader : {F : Type 0} → TensorType → Loader F
new_loader gemm = record {
  is_ok = true;
  gemm = gemm;
  tensors = [];
  as_floats = [];
  pads = [];
  gemma_norms = [];
  fused = [];
  quants = [];
}

module _ {F : Type 0} (gg : Ggml F) (g : Reader F) (codec : Codec F) (fl : Rounding F)
    (wide : (s : Str) (t : Tensor) → g.tensor s ≡ some t → 0 < t.ne0)
    (sized : IsSized gg codec) where
  -- Every write is all the bytes of a tensor, and every tensor is written.
  abbrev pub IsWhole : Loader F → Writes → Type 0
  IsWhole L writes =
      All (Fits gg g codec fl L) writes × ((i : ℕ) → i < length L.tensors → IsWritten i writes)

  true_pair : {A : Type 0} (p : Bool × A) → p.0 ≡ true → p ≡ (true, p.1)
  true_pair p e = ap (λ b. (b, p.1)) e

  joined :
      (L : Loader F) (one two three : Writes)
      → IsLoader gg g wide L
      → fill_plain gg g codec L 0 L.tensors [] ≡ (true, one)
      → fill_fused gg g codec L L.fused one ≡ (true, two)
      → fill_quant gg g codec fl L L.quants two ≡ (true, three)
      → IsWhole L three
  joined L one two three h e1 e2 e3 =
      let (first, plain) =
        fill_plain-Extends gg g codec fl L 0 L.tensors [] one
          (λ k m at. let same : k ≡ 0 + k = omega arith in subst (λ j. IsAt L.tensors j m) same at)
          e1 in
      let (second, fused) =
        fill_fused-Extends gg g codec fl L L.fused one two
          (All-both _ _ L.fused h.fused_at (All-In L.fused)) e2 in
      let (third, quant) =
        fill_quant-Extends gg g codec fl L wide sized L.quants two three
          (All-both _ _ L.quants h.quants_at (All-In L.quants)) e3 in
      let all_fit : All (Fits gg g codec fl L) three =
        subst (All (Fits gg g codec fl L)) (sym third.out_is) (
          All-append (Fits gg g codec fl L) two third.more
            (subst (All (Fits gg g codec fl L)) (sym second.out_is) (
              All-append (Fits gg g codec fl L) one second.more
                (subst (All (Fits gg g codec fl L)) (sym first.out_is) first.more_fit)
                second.more_fit))
            third.more_fit) in
      (
        all_fit,
        λ i inside.
            let same : i ≡ 0 + i = omega arith in
            elim (Bool-cases (is_dst gg g codec i L.fused)) [
              | inl dst ↦ Extends-IsWritten gg g codec fl L i third (fused i dst)
              | inr not_dst ↦ elim (Bool-cases (is_quant_part gg g codec i L.quants)) [
                | inl part ↦ quant i part
                | inr not_part ↦
                    let free : is_filled gg g codec fl L (0 + i) ≡ false =
                      subst (λ j. is_filled gg g codec fl L j ≡ false) same
                        (ground (arith, not_dst, not_part)) in
                    Extends-IsWritten gg g codec fl L i third (
                      Extends-IsWritten gg g codec fl L i second
                        (subst (λ j. IsWritten j one) (sym same) (plain i inside free)))
              ]
            ],
      )

  fill_all-IsWhole :
      (L : Loader F)
      → IsLoader gg g wide L
      → (fill_all gg g codec fl L).0 ≡ true
      → IsWhole L (fill_all gg g codec fl L).1
  unfolding fill_all
  fill_all-IsWhole L h e =
      let one = fill_plain gg g codec L 0 L.tensors [] in
      let two = fill_fused gg g codec L L.fused one.1 in
      let three = fill_quant gg g codec fl L L.quants two.1 in
      elim (Bool-cases one.0) [
        | inr bad ↦ absurd (cc (rw (fill_all, bad) at e))
        | inl good ↦ elim (Bool-cases two.0) [
          | inr bad ↦ absurd (cc (rw (fill_all, good, bad) at e))
          | inl good' ↦
              let last : three.0 ≡ true = rw (fill_all, good, good') at e in
              rw (fill_all, good, good')
                (joined L one.1 two.1 three.1 h (true_pair one good) (true_pair two good')
                  (true_pair three last))
        ]
      ]

  upload-fill_all :
      {B : Type 0} (L : Loader F) (buffer : Option B)
      → (upload gg g codec fl buffer L).0 ≡ true
      → ((fill_all gg g codec fl L).0 ≡ true)
        × ((upload gg g codec fl buffer L).2 ≡ (fill_all gg g codec fl L).1)
  unfolding upload
  upload-fill_all L buffer e = elim (Bool-cases L.is_ok) [
    | inr failed ↦ absurd (cc (rw (upload, failed) at e))
    | inl fine ↦ elim (Option-cases buffer) [
      | inl missing ↦ absurd (cc (rw (upload, fine, missing) at e))
      | inr (buf, got) ↦
          let good : (fill_all gg g codec fl L).0 ≡ true = simp (fine, got) at e in
          (good, simp (fine, got))
    ]
  ]

  -- An upload that succeeds, after any declarations on a new loader, sets every tensor that was declared,
  -- and every write has as many bytes as its tensor. They are what was read for a plain tensor, what was
  -- read for the sources one after the other for a fused one, and what the quantization gave for a
  -- quantized one: bytes from which the codes are read back that are in the range of its width, and the
  -- scales as floats, for INT4 with the groups in the outer order. The file's tensors have a width, and
  -- floats and INT8 codes have their sizes.
  pub upload-IsWhole :
      {B : Type 0} (buffer : Option B) (gemm : TensorType) (cs : List (Call F))
      → (upload gg g codec fl buffer (calls gg g cs (new_loader gemm))).0 ≡ true
      → IsWhole
          (calls gg g cs (new_loader gemm))
          (upload gg g codec fl buffer (calls gg g cs (new_loader gemm))).2
  upload-IsWhole buffer gemm cs e =
      let L = calls gg g cs (new_loader gemm) in
      let h : IsLoader gg g wide L =
        calls-IsLoader gg g wide cs (new_loader gemm) (record { fused_at = tt; quants_at = tt }) in
      let (good, writes) = upload-fill_all L buffer e in
      subst (IsWhole L) (sym writes) (fill_all-IsWhole L h good)
