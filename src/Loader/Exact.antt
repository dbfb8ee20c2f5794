-- ===== src/Loader/Exact.antt =====
-- The writes of upload in src/loader.cpp: every declared tensor is set, with as many bytes as it has, and
-- which bytes these are.
use vla_cpp.Common.{
  ℕ, zero, suc, ◌+◌, ◌*◌, ◌/◌, ◌<◌, ◌≡◌, refl, sym, ap, ◌∙◌, inl, inr, ◌⊎◌, Bool, true, false, ◌||◌,
  some, List, [], ◌∷◌, ◌++◌, map, get_or, length, All, All-append, ◌==◌, ==_iff, if◌then◌else◌,
  Bool-cases, Option-cases, arith,
}
use mathlib.Core.List.{append_assoc, append-nil}
use mathlib.Core.Option.{some-injective, none-ne-some}
use mathlib.Core.Path.{subst}
use vla_cpp.Common.Int.{ℤ}
use vla_cpp.HfFetch.Names.{Str}
use vla_cpp.FoldQuant.Pack.{IsInt4, IsInt8, int8_of, unpack_nibbles}
use vla_cpp.Gguf.{Reader, Codec, TensorType}
use vla_cpp.Loader.{Made, Ggml, Fused, Quant, Loader}
use vla_cpp.Loader.Upload.{
  Rounding, Writes, nbytes, read_resident, is_dst, is_quant_part, has_name, fill_plain, gather,
  fill_fused, quant_sources,
}
use vla_cpp.Loader.Shapes.{IsAt}

-- The tensor `i` is set.
abbrev pub IsWritten : ℕ → Writes → Type 0
IsWritten i [] = ⊥
IsWritten i (w ∷ ws) = (w.0 ≡ i) ⊎ IsWritten i ws

pub IsWritten-append : (i : ℕ) (ws vs : Writes) → IsWritten i ws → IsWritten i (ws ++ vs)
IsWritten-append i [] vs h = absurd h
IsWritten-append i (w ∷ ws) vs (inl e) = inl e
IsWritten-append i (w ∷ ws) vs (inr h) = inr (IsWritten-append i ws vs h)

pub IsWritten-append_right : (i : ℕ) (ws vs : Writes) → IsWritten i vs → IsWritten i (ws ++ vs)
IsWritten-append_right i [] vs h = h
IsWritten-append_right i (w ∷ ws) vs h = inr (IsWritten-append_right i ws vs h)

-- An entry of a list.
abbrev pub In : {A : Type 0} → A → List A → Type 0
In a [] = ⊥
In a (x ∷ xs) = (x ≡ a) ⊎ In a xs

All-later :
    {A : Type 0} (a : A) (xs ys : List A) → All (λ x. In x ys) xs → All (λ x. In x (a ∷ ys)) xs
All-later a [] ys h = tt
All-later a (x ∷ xs) ys (p, h) = (inr p, All-later a xs ys h)

pub All-In : {A : Type 0} (xs : List A) → All (λ x. In x xs) xs
All-In [] = tt
All-In (x ∷ xs) = (inl refl, All-later x xs xs (All-In xs))

pub All-both :
    {A : Type 0} (P Q : A → Type 0) (xs : List A) → All P xs → All Q xs → All (λ x. P x × Q x) xs
All-both P Q [] h k = tt
All-both P Q (x ∷ xs) (p, h) (q, k) = ((p, q), All-both P Q xs h k)

module _ {F : Type 0} (gg : Ggml F) (g : Reader F) (codec : Codec F) (fl : Rounding F)
    (L : Loader F) where
  -- The bytes that are read for the sources, one after the other.
  abbrev pub Joined : TensorType → List Str → Str → Type 0
  Joined type_ [] bytes = bytes ≡ []
  Joined type_ (s ∷ srcs) bytes =
      (b : Str) × (rest : Str) × (read_resident gg g codec L s type_ false ≡ some b)
      × Joined type_ srcs rest
      × (bytes ≡ b ++ rest)

  gather-Joined :
      (type_ : TensorType) (srcs : List Str) (bytes : Str)
      → gather gg g codec L type_ srcs ≡ some bytes
      → Joined type_ srcs bytes
  unfolding gather
  gather-Joined type_ [] bytes e = sym (some-injective _ _ e)
  gather-Joined type_ (s ∷ srcs) bytes e =
      elim (Option-cases (read_resident gg g codec L s type_ false)) [
        | inl missing ↦ absurd (none-ne-some bytes (rw (gather, missing) at e))
        | inr (b, got) ↦ elim (Option-cases (gather gg g codec L type_ srcs)) [
          | inl missing ↦ absurd (none-ne-some bytes (rw (gather, got, missing) at e))
          | inr (rest, more) ↦ (
            b,
            rest,
            got,
            gather-Joined type_ srcs rest more,
            sym (some-injective _ _ (rw (gather, got, more) at e)),
          )
        ]
      ]

  -- The bytes of a plain tensor are those that are read for it.
  abbrev pub IsPlain : Made → Str → Type 0
  IsPlain m bytes =
      read_resident gg g codec L m.name m.type_ (has_name gg g codec m.name L.gemma_norms)
      ≡ some bytes

  -- The bytes of a fused tensor are those of its sources in their order.
  abbrev pub IsFused : ℕ → Str → Type 0
  IsFused i bytes = (f : Fused) × In f L.fused × (f.dst ≡ i) × Joined f.made.type_ f.srcs bytes

  -- From the bytes of a quantized weight the codes are read back, where they are in the range of its width.
  abbrev pub Decodes : ℕ → Str → List ℤ → Type 0
  Decodes bits bytes codes =
      ((bits == 4) ≡ true → All IsInt4 codes → unpack_nibbles bytes ≡ codes)
      × ((bits == 4) ≡ false → All IsInt8 codes → map int8_of bytes ≡ codes)

  -- What the quantization gives for the sources of a quantized weight.
  abbrev pub IsQuantized : Quant → List ℤ × List F → Type 0
  IsQuantized f r =
      quant_sources gg g codec fl L f.q.bits (if f.q.bits == 4 then f.q.group else f.K) f.K f.srcs
      ≡ some r

  -- The scales as floats, one for each row, or for INT4 one for each group, those of a row's first group
  -- first.
  abbrev pub HasScales : Quant → Str → List F → Type 0
  HasScales f bytes scales =
      ((f.q.bits == 4) ≡ false → bytes ≡ codec.to_f32 scales)
      × ((f.q.bits == 4) ≡ true
          → (st : List F) × (bytes ≡ codec.to_f32 st)
            × ((n j : ℕ)
                → n < f.q.w_made.ne1
                → j < f.K / f.q.group
                → get_or st (j * f.q.w_made.ne1 + n) fl.zero_f
                  ≡ get_or scales (n * (f.K / f.q.group) + j) fl.zero_f))

  -- A part of a quantized weight: its codes, or its scales.
  abbrev pub IsQuantPart : ℕ → Str → Type 0
  IsQuantPart i bytes =
      (f : Quant) × In f L.quants
      × (r : List ℤ × List F) × IsQuantized f r
      × (((f.q.w ≡ i) × Decodes f.q.bits bytes r.0) ⊎ ((f.q.s ≡ i) × HasScales f bytes r.1))

  -- A write of all the bytes of a tensor.
  abbrev pub Fits : ℕ × Str → Type 0
  Fits w =
      (m : Made) × IsAt L.tensors w.0 m
      × (length w.1 ≡ nbytes gg g codec m)
      × (IsPlain m w.1 ⊎ (IsFused w.0 w.1 ⊎ IsQuantPart w.0 w.1))

  -- Writes that follow those before.
  pub record Extends (done out : Writes) : Type 0 where
    pub more : Writes
    pub out_is : out ≡ done ++ more
    pub more_fit : All Fits more

  pub Extends-IsWritten :
      {done out : Writes} (i : ℕ) → Extends done out → IsWritten i done → IsWritten i out
  Extends-IsWritten {done} i h w =
      subst (IsWritten i) (sym h.out_is) (IsWritten-append i done h.more w)

  pub Extends-none : (done : Writes) → Extends done done
  Extends-none done = record { more = []; out_is = sym (append-nil done); more_fit = tt }

  pub Extends-after :
      (done some_more out : Writes)
      → All Fits some_more
      → Extends (done ++ some_more) out
      → Extends done out
  Extends-after done some_more out fit h = record {
    more = some_more ++ h.more;
    out_is = h.out_is ∙ append_assoc done some_more h.more;
    more_fit = All-append Fits some_more h.more fit h.more_fit;
  }

  abbrev pub is_filled : ℕ → Bool
  is_filled i = is_dst gg g codec i L.fused || is_quant_part gg g codec i L.quants

  pub Bool-pair :
      {A : Type 0} {a b : Bool} {x y : A} → ◌≡◌ {A = Bool × A} (a, x) (b, y) → (a ≡ b) × (x ≡ y)
  Bool-pair e = (ap (λ p. p.0) e, ap (λ p. p.1) e)

  covers :
      (i n : ℕ) (out : Writes)
      → (is_filled i ≡ false → IsWritten i out)
      → ((k : ℕ) → k < n → is_filled (suc i + k) ≡ false → IsWritten (suc i + k) out)
      → (k : ℕ) → k < suc n
      → is_filled (i + k) ≡ false
      → IsWritten (i + k) out
  covers i n out here rest zero h plain =
      let same : i + 0 ≡ i = omega arith in
      subst (λ j. IsWritten j out) (sym same) (here (subst (λ j. is_filled j ≡ false) same plain))
  covers i n out here rest (suc k) h plain =
      let same : i + suc k ≡ suc i + k = omega arith in
      subst (λ j. IsWritten j out) (sym same)
        (rest k (omega (arith, h)) (subst (λ j. is_filled j ≡ false) same plain))

  pub not_true : {A : Type 0} {x y : A} → ¬ ◌≡◌ {A = Bool × A} (false, x) (true, y)
  not_true e = cc (Bool-pair e).0

  pub fill_plain-Extends :
      (i : ℕ) (ms : List Made) (done out : Writes)
      → ((k : ℕ) (m : Made) → IsAt ms k m → IsAt L.tensors (i + k) m)
      → fill_plain gg g codec L i ms done ≡ (true, out)
      → Extends done out
        × ((k : ℕ) → k < length ms → is_filled (i + k) ≡ false → IsWritten (i + k) out)
  unfolding fill_plain
  fill_plain-Extends i [] done out at e =
      (subst (Extends done) (Bool-pair e).1 (Extends-none done), λ k h. absurd (omega (arith, h)))
  fill_plain-Extends i (m ∷ ms) done out at e =
      let at' : (k : ℕ) (n : Made) → IsAt ms k n → IsAt L.tensors (suc i + k) n = λ k n h.
        let moved : i + suc k ≡ suc i + k = omega arith in
        subst (λ j. IsAt L.tensors j n) moved (at (suc k) n h) in
      elim (Bool-cases (is_filled i)) [
        | inl filled ↦
            let (more, rest) =
              fill_plain-Extends (suc i) ms done out at' (rw (fill_plain, filled) at e) in
            (more, covers i (length ms) out (λ plain. cc) rest)
        | inr plain ↦
            elim (Option-cases (
              read_resident gg g codec L m.name m.type_
                (has_name gg g codec m.name L.gemma_norms))) [
                  | inl failed ↦ absurd (not_true (rw (fill_plain, plain, failed) at e))
                  | inr (bytes, got) ↦ elim (Bool-cases (length bytes == nbytes gg g codec m)) [
                    | inr wrong ↦ absurd (not_true (rw (fill_plain, plain, got, wrong) at e))
                    | inl right ↦
                        let (more, rest) =
                          fill_plain-Extends (suc i) ms (done ++ ((i, bytes) ∷ [])) out at'
                            (rw (fill_plain, plain, got, right) at e) in
                        let none_over : i + 0 ≡ i = omega arith in
                        let there : IsAt L.tensors i m =
                          subst (λ j. IsAt L.tensors j m) none_over (at zero m refl) in
                        let fit : All Fits ((i, bytes) ∷ []) =
                          ((m, there, (==_iff _ _).0 right, inl got), tt) in
                        (
                          Extends-after done ((i, bytes) ∷ []) out fit more,
                          covers i (length ms) out
                              (λ p.
                                Extends-IsWritten i more
                                  (IsWritten-append_right i done ((i, bytes) ∷ []) (inl refl)))
                              rest,
                        )
                  ]
                ]
      ]

  pub fill_fused-Extends :
      (fs : List Fused) (done out : Writes)
      → All (λ f. IsAt L.tensors f.dst f.made × In f L.fused) fs
      → fill_fused gg g codec L fs done ≡ (true, out)
      → Extends done out × ((i : ℕ) → is_dst gg g codec i fs ≡ true → IsWritten i out)
  unfolding fill_fused is_dst
  fill_fused-Extends [] done out at e =
      (subst (Extends done) (Bool-pair e).1 (Extends-none done), λ i h. absurd (cc))
  fill_fused-Extends (f ∷ fs) done out ((at, there), ats) e =
      elim (Option-cases (gather gg g codec L f.made.type_ f.srcs)) [
        | inl failed ↦ absurd (not_true (rw (fill_fused, failed) at e))
        | inr (parts, got) ↦ elim (Bool-cases (length parts == nbytes gg g codec f.made)) [
          | inr wrong ↦ absurd (not_true (rw (fill_fused, got, wrong) at e))
          | inl right ↦
              let (more, rest) =
                fill_fused-Extends fs (done ++ ((f.dst, parts) ∷ [])) out ats
                  (rw (fill_fused, got, right) at e) in
              let joined = gather-Joined f.made.type_ f.srcs parts got in
              let fit : All Fits ((f.dst, parts) ∷ []) =
                ((f.made, at, (==_iff _ _).0 right, inr (inl (f, there, refl, joined))), tt) in
              (
                Extends-after done ((f.dst, parts) ∷ []) out fit more,
                λ i h. elim (Bool-cases (f.dst == i)) [
                  | inl here ↦ Extends-IsWritten i more (
                      IsWritten-append_right i done ((f.dst, parts) ∷ [])
                        (inl ((==_iff f.dst i).0 here)))
                  | inr later ↦ rest i (ground (arith, h, later))
                ],
              )
        ]
      ]
