-- ===== src/Loader/Shapes.antt =====
-- What the lists of WeightLoader in src/loader.cpp say of the tensors: an invariant of the declarations.
use vla_cpp.Common.{
  ℕ, zero, suc, ◌+◌, ◌*◌, ◌/◌, ◌%◌, ◌<◌, ◌≡◌, refl, inl, inr, Bool, true, false, not, ◌&&◌, ◌||◌,
  Option, none, some, List, [], ◌∷◌, ◌++◌, length, All, All-append, get_elem?, leb, ◌==◌,
  Bool-cases, Option-cases, arith,
}
use mathlib.Core.Option.{some-injective, none-ne-some}
use mathlib.Core.Path.{subst}
use vla_cpp.Common.Text.{bytes_of}
use vla_cpp.HfFetch.Names.{Str}
use vla_cpp.Gguf.{Reader, TensorType, t_i8, Tensor, resident_type, is_quantized}
use vla_cpp.Loader.{
  Made, Ggml, AsFloat, Quant, Loader, find, same_type, fail, new_tensor, pad_mlp, declare_float,
  cannot_pad, declare_shape, note_norm, declare_found, declare,
}
use vla_cpp.Loader.Fuse.{
  fuse, fuse_rows, view, push_fused, quant, quant_rows, quant_group, push_second, push_quant,
  codes_made, scales_made,
}
use vla_cpp.Loader.Kept.{
  Call, call_declare, call_fuse, call_quant, call_as_float, call_pad, call_pad_mlp, call_fail, call,
  calls,
}

-- The entry `i` of the tensors.
abbrev pub IsAt : List Made → ℕ → Made → Type 0
IsAt ms i m = get_elem? ms i ≡ some m

IsAt-append : (ms ns : List Made) (i : ℕ) (m : Made) → IsAt ms i m → IsAt (ms ++ ns) i m
IsAt-append [] ns i m h = absurd (none-ne-some m h)
IsAt-append (x ∷ ms) ns zero m h = h
IsAt-append (x ∷ ms) ns (suc i) m h = IsAt-append ms ns i m h

IsAt-length : (ms : List Made) (m : Made) → IsAt (ms ++ m ∷ []) (length ms) m
IsAt-length [] m = refl
IsAt-length (x ∷ ms) m = IsAt-length ms m

module _ {F : Type 0} (gg : Ggml F) (g : Reader F)
    (wide : (s : Str) (t : Tensor) → g.tensor s ≡ some t → 0 < t.ne0) where
  -- An INT8 or INT4 weight of `N` rows: groups that divide its width, and two tensors for them.
  pub record IsQuant (ms : List Made) (f : Quant) : Type 0 where
    pub name : Str
    pub N : ℕ
    pub w_at : IsAt ms f.q.w (codes_made gg g name f.q.bits f.K N)
    pub s_at : IsAt ms f.q.s (scales_made gg g name f.q.bits f.q.group f.K N)
    pub w_is : f.q.w_made ≡ codes_made gg g name f.q.bits f.K N
    pub some_width : 0 < f.K
    pub even : (f.q.bits == 4) ≡ true → (f.K % 2 ≡ 0) × (f.K / f.q.group * f.q.group ≡ f.K)

  pub record IsLoader (L : Loader F) : Type 0 where
    pub fused_at : All (λ f. IsAt L.tensors f.dst f.made) L.fused
    pub quants_at : All (IsQuant L.tensors) L.quants

  All-weaken {ℓ} :
      {A : Type ℓ} (P Q : A → Type 0) (xs : List A) → ((x : A) → P x → Q x) → All P xs → All Q xs
  All-weaken P Q [] f h = tt
  All-weaken P Q (x ∷ xs) f (p, h) = (f x p, All-weaken P Q xs f h)

  IsQuant-append : (ms ns : List Made) (f : Quant) → IsQuant ms f → IsQuant (ms ++ ns) f
  IsQuant-append ms ns f h = record {
    name = h.name;
    N = h.N;
    w_at = IsAt-append ms ns f.q.w _ h.w_at;
    s_at = IsAt-append ms ns f.q.s _ h.s_at;
    w_is = h.w_is;
    some_width = h.some_width;
    even = h.even;
  }

  -- What an operation leaves: the invariant, and a new tensor that is there.
  abbrev Adds : Made → Option ℕ × Loader F → Type 0
  Adds m (none, L) = IsLoader L
  Adds m (some t, L) = IsLoader L × IsAt L.tensors t m

  new_tensor-Adds : (m : Made) (L : Loader F) → IsLoader L → Adds m (new_tensor gg m L)
  unfolding new_tensor
  new_tensor-Adds m L h = elim (Bool-cases (gg.has_room L.tensors m)) [
    | inl room ↦ rw room (
      record {
        fused_at =
            All-weaken _ _ L.fused (λ f. IsAt-append L.tensors (m ∷ []) f.dst f.made) h.fused_at;
        quants_at = All-weaken _ _ L.quants (IsQuant-append L.tensors (m ∷ [])) h.quants_at;
      },
      IsAt-length L.tensors m,
    )
    | inr full ↦ rw full (record { fused_at = h.fused_at; quants_at = h.quants_at })
  ]

  Adds-IsLoader : (m : Made) (r : Option ℕ × Loader F) → Adds m r → IsLoader r.1
  Adds-IsLoader m (none, L) h = h
  Adds-IsLoader m (some t, L) (h, at) = h

  fail-IsLoader : (L : Loader F) → IsLoader L → IsLoader (fail L).1
  unfolding fail
  fail-IsLoader L h = record { fused_at = h.fused_at; quants_at = h.quants_at }

  note_norm-IsLoader :
      (gn : Bool) (name : Str) (r : Option ℕ × Loader F)
      → IsLoader r.1
      → IsLoader (note_norm gg g gn name r).1
  unfolding note_norm
  note_norm-IsLoader gn name (none, L) h = h
  note_norm-IsLoader true name (some t, L) h = record {
    fused_at = h.fused_at;
    quants_at = h.quants_at;
  }
  note_norm-IsLoader false name (some t, L) h = h

  made_new : (m : Made) (L : Loader F) → IsLoader L → IsLoader (new_tensor gg m L).1
  made_new m L h = Adds-IsLoader m (new_tensor gg m L) (new_tensor-Adds m L h)

  declare_shape-IsLoader :
      (rt : TensorType) (name : Str) (src : Tensor) (p : Option (ℕ × ℕ)) (L : Loader F)
      → IsLoader L
      → IsLoader (declare_shape gg g rt name src p L).1
  unfolding declare_shape
  declare_shape-IsLoader rt name src none L h = made_new _ L h
  declare_shape-IsLoader rt name src (some p) L h = elim (Bool-cases (cannot_pad gg g rt src p)) [
    | inl bad ↦ rw bad (fail-IsLoader L h)
    | inr good ↦ rw good (made_new _ L h)
  ]

  declare_float-IsLoader :
      (want : TensorType) (name : Str) (a : Option (AsFloat F)) (L : Loader F)
      → IsLoader L
      → IsLoader (declare_float gg g want name a L).1
  unfolding declare_float
  declare_float-IsLoader want name none L h = fail-IsLoader L h
  declare_float-IsLoader want name (some a) L h = made_new _ L h

  declare_found-IsLoader :
      (want : TensorType) (gn : Bool) (name : Str) (src : Tensor) (L : Loader F)
      → IsLoader L
      → IsLoader (declare_found gg g want gn name src L).1
  unfolding declare_found
  declare_found-IsLoader want gn name src L h =
      elim (Bool-cases (same_type src.type_ t_i8 && not (same_type want t_i8))) [
        | inl codes ↦ rw codes (declare_float-IsLoader want name (find name L.as_floats) L h)
        | inr plain ↦ rw plain (
            note_norm-IsLoader gn name _ (
              declare_shape-IsLoader (resident_type g (some src) want) name src (find name L.pads) L
                h))
      ]

  declare-IsLoader :
      (want : TensorType) (required gn : Bool) (name : Str) (L : Loader F)
      → IsLoader L
      → IsLoader (declare gg g want required gn name L).1
  unfolding declare
  declare-IsLoader want required gn name L h = elim (Bool-cases (leb 256 (length name))) [
    | inl long ↦ rw long (fail-IsLoader L h)
    | inr short ↦ elim (Option-cases (g.tensor name)) [
      | inl missing ↦ elim (Bool-cases required) [
        | inl needed ↦ rw (declare, short, missing, needed) (fail-IsLoader L h)
        | inr not_needed ↦ rw (declare, short, missing, not_needed) h
      ]
      | inr (src, found) ↦ rw (declare, short, found) (declare_found-IsLoader want gn name src L h)
    ]
  ]

  push_fused-IsLoader :
      (m : Made) (srcs : List Str) (r : Option ℕ × Loader F)
      → Adds m r
      → IsLoader (push_fused gg g m srcs r).1
  unfolding push_fused
  push_fused-IsLoader m srcs (none, L) h = h
  push_fused-IsLoader m srcs (some t, L) (h, there) = record {
    fused_at =
        All-append _ L.fused (record { dst = t; made = m; srcs = srcs } ∷ []) h.fused_at
          (there, tt);
    quants_at = h.quants_at;
  }

  fuse-IsLoader :
      (want : TensorType) (out_name : Str) (srcs : List Str) (L : Loader F)
      → IsLoader L
      → IsLoader (fuse gg g want out_name srcs L).1
  unfolding fuse
  fuse-IsLoader want out_name [] L h = fail-IsLoader L h
  fuse-IsLoader want out_name (s ∷ srcs) L h = elim (Option-cases (g.tensor s)) [
    | inl missing ↦ rw (fuse, missing) (fail-IsLoader L h)
    | inr (first, found) ↦
        elim (Option-cases (fuse_rows gg g want (view gg g want s first L) (s ∷ srcs) L 0)) [
          | inl bad ↦ rw (fuse, found, bad) (fail-IsLoader L h)
          | inr (rows, good) ↦
              rw (fuse, found, good) (push_fused-IsLoader _ (s ∷ srcs) _ (new_tensor-Adds _ L h))
        ]
  ]

  -- The second tensor of a weight, with the first still there.
  pushed :
      (bits group K N t : ℕ) (name : Str) (srcs : List Str) (w : ℕ) (L' : Loader F)
      → 0 < K
      → ((bits == 4) ≡ true → (K % 2 ≡ 0) × (K / group * group ≡ K))
      → IsLoader L'
      → IsAt L'.tensors w (codes_made gg g name bits K N)
      → IsAt L'.tensors t (scales_made gg g name bits group K N)
      → IsLoader (record L' {
        quants =
            L'.quants
            ++ (record {
              q = record {
                w = w;
                w_made = codes_made gg g name bits K N;
                s = t;
                s_made = scales_made gg g name bits group K N;
                bits = bits;
                group = group;
              };
              K = K;
              srcs = srcs;
            }
                ∷ []);
      })
  pushed bits group K N t name srcs w L' k e h w_at s_at = record {
    fused_at = h.fused_at;
    quants_at = All-append _ L'.quants _ h.quants_at (
      record {
        name = name;
        N = N;
        w_at = w_at;
        s_at = s_at;
        w_is = refl;
        some_width = k;
        even = e;
      },
      tt,
    );
  }

  new_tensor-IsAt :
      (m ms : Made) (w : ℕ) (L : Loader F)
      → IsAt L.tensors w m
      → IsAt (new_tensor gg ms L).1.tensors w m
  unfolding new_tensor fail
  new_tensor-IsAt m ms w L h = elim (Bool-cases (gg.has_room L.tensors ms)) [
    | inl room ↦ rw room (IsAt-append L.tensors (ms ∷ []) w m h)
    | inr full ↦ rw full h
  ]

  push_second-IsLoader :
      (bits group K N : ℕ) (name : Str) (srcs : List Str) (w : ℕ) (r : Option ℕ × Loader F)
      → 0 < K
      → ((bits == 4) ≡ true → (K % 2 ≡ 0) × (K / group * group ≡ K))
      → Adds (scales_made gg g name bits group K N) r
      → IsAt r.1.tensors w (codes_made gg g name bits K N)
      → IsLoader
          (push_second gg g bits group K srcs
            (codes_made gg g name bits K N)
            (scales_made gg g name bits group K N)
            w
            r).1
  unfolding push_second
  push_second-IsLoader bits group K N name srcs w (none, L) k e h kept = h
  push_second-IsLoader bits group K N name srcs w (some t, L) k e (h, s_at) kept =
      pushed bits group K N t name srcs w L k e h kept s_at

  push_quant-IsLoader :
      (bits group K N : ℕ) (name : Str) (srcs : List Str) (r : Option ℕ × Loader F)
      → 0 < K
      → ((bits == 4) ≡ true → (K % 2 ≡ 0) × (K / group * group ≡ K))
      → Adds (codes_made gg g name bits K N) r
      → IsLoader
          (push_quant gg g bits group K srcs
            (codes_made gg g name bits K N)
            (scales_made gg g name bits group K N)
            r).1
  unfolding push_quant
  push_quant-IsLoader bits group K N name srcs (none, L) k e h =
      let after = made_new (scales_made gg g name bits group K N) L h in
      record { fused_at = after.fused_at; quants_at = after.quants_at }
  push_quant-IsLoader bits group K N name srcs (some w, L) k e (h, w_at) =
      let ms = scales_made gg g name bits group K N in
      let kept = new_tensor-IsAt _ ms w L w_at in
      push_second-IsLoader bits group K N name srcs w (new_tensor gg ms L) k e
        (new_tensor-Adds ms L h) kept

  IsPositive : Option ℕ → Type 0
  IsPositive none = Unit
  IsPositive (some k) = 0 < k

  quant_rows-IsPositive :
      (K : Option ℕ) (N : ℕ) (srcs : List Str) (r : Option ℕ × ℕ)
      → IsPositive K
      → quant_rows gg g K N srcs ≡ some r
      → IsPositive r.0
  unfolding quant_rows IsPositive
  quant_rows-IsPositive K N [] r h e = subst (λ q. IsPositive q.0) (some-injective _ _ e) h
  quant_rows-IsPositive K N (s ∷ srcs) r h e = elim (Option-cases (g.tensor s)) [
    | inl missing ↦ absurd (none-ne-some r (rw (quant_rows, missing) at e))
    | inr (gs, found) ↦
        elim (Bool-cases
          (not (gg.n_dims gs == 2) || (elim K [ none ↦ false | some k ↦ not (gs.ne0 == k) ]))) [
            | inl bad ↦ absurd (none-ne-some r (rw (quant_rows, found, bad) at e))
            | inr good ↦
                quant_rows-IsPositive (some gs.ne0) (N + gs.ne1) srcs r (wide s gs found)
                  (rw (quant_rows, found, good) at e)
          ]
  ]

  divides :
      (bits want_group K : ℕ)
      → 0 < K
      → (bits == 4 && (not (K % 2 == 0) || not (K % quant_group gg g bits want_group K == 0)))
        ≡ false
      → (bits == 4) ≡ true
      → (K % 2 ≡ 0)
        × (K / quant_group gg g bits want_group K * quant_group gg g bits want_group K ≡ K)
  divides bits want_group K k even four =
      let group = quant_group gg g bits want_group K in
      let rest : K % group ≡ 0 = ground (arith, even, four) in
      let half : K % 2 ≡ 0 = ground (arith, even, four) in (half, grind (arith, rest))

  quant-IsLoader :
      (bits want_group : ℕ) (out_name s : Str) (srcs : List Str) (L : Loader F)
      → IsLoader L
      → IsLoader (quant gg g bits want_group out_name s srcs L).1
  unfolding quant IsPositive
  quant-IsLoader bits want_group out_name s srcs L h =
      elim (Option-cases (quant_rows gg g none 0 (s ∷ srcs))) [
        | inl bad ↦ rw (quant, bad) (fail-IsLoader L h)
        | inr ((none, N), found) ↦ rw (quant, found) (fail-IsLoader L h)
        | inr ((some K, N), found) ↦
            elim (Bool-cases (
              bits == 4
              && (not (K % 2 == 0) || not (K % quant_group gg g bits want_group K == 0)))) [
                | inl uneven ↦ rw (quant, found, uneven) (fail-IsLoader L h)
                | inr even ↦
                    let k : 0 < K = quant_rows-IsPositive none 0 (s ∷ srcs) (some K, N) tt found in
                    let m = codes_made gg g out_name bits K N in
                    rw (quant, found, even)
                      (push_quant-IsLoader bits (quant_group gg g bits want_group K) K N out_name
                        (s ∷ srcs) (new_tensor gg m L) k (divides bits want_group K k even)
                        (new_tensor-Adds m L h))
              ]
      ]

  cannot_widen : (ℕ → ℕ) → Tensor → Tensor → Loader F → Bool
  cannot_widen width w1 w2 L =
      is_quantized L.gemm
      || is_quantized w1.type_
      || is_quantized w2.type_
      || (width w1.ne1 == w1.ne1)
      || not (w2.ne0 == w1.ne1)

  pad_mlp-IsLoader :
      (width : ℕ → ℕ) (fc1 fc2 : Str) (L : Loader F)
      → IsLoader L
      → IsLoader (pad_mlp gg g width fc1 fc2 L)
  unfolding pad_mlp cannot_widen
  pad_mlp-IsLoader width fc1 fc2 L h = elim (Option-cases (g.tensor (fc1 ++ bytes_of ".weight"))) [
    | inl missing ↦ rw (pad_mlp, missing) h
    | inr (w1, found) ↦ elim (Option-cases (g.tensor (fc2 ++ bytes_of ".weight"))) [
      | inl missing ↦ rw (pad_mlp, found, missing) h
      | inr (w2, found') ↦ elim (Bool-cases (cannot_widen width w1 w2 L)) [
        | inl kept ↦ rw (pad_mlp, found, found', kept) h
        | inr wider ↦
            rw (pad_mlp, found, found', wider)
              (record { fused_at = h.fused_at; quants_at = h.quants_at })
      ]
    ]
  ]

  call-IsLoader : (c : Call F) (L : Loader F) → IsLoader L → IsLoader (call gg g c L)
  unfolding call
  call-IsLoader (call_declare want required gn name) L h =
      declare-IsLoader want required gn name L h
  call-IsLoader (call_fuse want out_name srcs) L h = fuse-IsLoader want out_name srcs L h
  call-IsLoader (call_quant bits group out_name s srcs) L h =
      quant-IsLoader bits group out_name s srcs L h
  call-IsLoader (call_as_float name K N make) L h = record {
    fused_at = h.fused_at;
    quants_at = h.quants_at;
  }
  call-IsLoader (call_pad name ne0 ne1) L h = record {
    fused_at = h.fused_at;
    quants_at = h.quants_at;
  }
  call-IsLoader (call_pad_mlp width fc1 fc2) L h = pad_mlp-IsLoader width fc1 fc2 L h
  call-IsLoader call_fail L h = fail-IsLoader L h

  -- Whatever is declared, in whatever order, the fused and the quantized weights stand among the tensors
  -- with the shapes that the upload counts on.
  pub calls-IsLoader : (cs : List (Call F)) (L : Loader F) → IsLoader L → IsLoader (calls gg g cs L)
  unfolding calls
  calls-IsLoader [] L h = h
  calls-IsLoader (c ∷ cs) L h = calls-IsLoader cs (call gg g c L) (call-IsLoader c L h)
