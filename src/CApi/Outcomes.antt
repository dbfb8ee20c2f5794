-- ===== src/CApi/Outcomes.antt =====
-- What a caller of src/vla_c_api.cpp can rely on: the status, the outputs, and who owns what.
use mathlib.Core.Path.{subst}
use vla_cpp.Common.{
  ℕ, ◌≡◌, ◌≢◌, refl, sym, ap, ◌∙◌, inl, inr, ◌⊎◌, true, ◌||◌, Option, none, some, List, [], ◌∷◌,
  length, arith, Bool-cases, Option-cases,
}
use mathlib.Core.Option.{some-injective}
use vla_cpp.Common.Int.{ℤ, pos, leb_ℤ, eq_ℤ}
use vla_cpp.HfFetch.Names.{Str}
use vla_cpp.Serving.Decode.{to_ℕ}
use vla_cpp.CApi.{
  Called, returned, threw, vla_ok, err_arg, err_predict, err_exception, CImage, CInputs, Engine,
  Runtime, Api, text_or_empty, views_from, to_inputs, bad_counts, Outcome, cleared, hand_over,
  predict_given, vla_predict, embedded, encode_given, vla_encode_images, vla_model_load,
  vla_model_free, vla_free_actions,
}

-- A fresh buffer with the result, its length and VLA_OK; or another status, cleared outputs, and no
-- buffer.
abbrev pub IsHanded :
    {E F : Type 0} → Runtime → List (ℕ × List F) → Called (List F) → Outcome (Api E F) → Type 0
IsHanded {F} rt before result (code, outs, after) =
    ((code ≡ vla_ok)
      × ((p : ℕ) × (act : List F) × (rt.malloc ≡ some p)
          × (result ≡ returned act)
          × (act ≢ [])
          × (outs ≡ (some (some p), some (pos (length act))))
          × (after.buffers ≡ (p, act) ∷ before)))
    ⊎ ((code ≢ vla_ok) × (outs ≡ (some none, some (pos 0))) × (after.buffers ≡ before))

Called-cases : {A : Type 0} (c : Called A) → (c ≡ threw) ⊎ ((a : A) × (c ≡ returned a))
Called-cases threw = inl refl
Called-cases (returned a) = inr (a, refl)

module _ {P F : Type 0} (engine : Engine P F) where
  open engine use {E}

  cleared-IsHanded :
      (rt : Runtime) (result : Called (List F)) (code : ℤ) (s : Api E F)
      → code ≢ vla_ok
      → IsHanded rt s.buffers result (cleared engine code s)
  unfolding cleared
  cleared-IsHanded rt result code s bad = inr (bad, refl, refl)

  hand_over-IsHanded :
      (rt : Runtime) (result : Called (List F)) (s : Api E F)
      → IsHanded rt s.buffers result (hand_over engine rt result s)
  unfolding hand_over
  hand_over-IsHanded rt threw s = cleared-IsHanded rt threw err_exception s (λ e. ground arith)
  hand_over-IsHanded rt (returned []) s =
      cleared-IsHanded rt (returned []) err_predict s (λ e. ground arith)
  hand_over-IsHanded rt (returned (x ∷ xs)) s =
      let Goal : Outcome (Api E F) → Type 0 = IsHanded rt s.buffers (returned (x ∷ xs)) in
      elim (Option-cases rt.malloc) [
        | inl full ↦
            let e : hand_over engine rt (returned (x ∷ xs)) s ≡ cleared engine err_exception s =
              rw (full, hand_over) refl in
            subst Goal (sym e)
              (cleared-IsHanded rt (returned (x ∷ xs)) err_exception s (λ e. ground arith))
        | inr (p, got) ↦
            let e : hand_over engine rt (returned (x ∷ xs)) s ≡ (
              vla_ok,
              (some (some p), some (pos (length (x ∷ xs)))),
              record s { buffers = (p, x ∷ xs) ∷ s.buffers },
            ) =
              rw (got, hand_over) refl in
            subst Goal (sym e) (inl (refl, (p, x ∷ xs, got, refl, (λ e. ground arith), refl, refl)))
      ]

  -- With a model, inputs and both outputs: VLA_OK comes with a buffer from malloc that holds what
  -- the engine returned for the converted inputs, at least one value, and with its length; any
  -- other status, also after an exception, leaves the outputs null and 0 and no buffer behind.
  pub vla_predict-IsHanded :
      (rt : Runtime) (m : ℕ) (inp : CInputs P) (a : Option ℕ) (n : ℤ) (s : Api E F)
      → IsHanded rt s.buffers
          (engine.predict m (to_inputs inp) s.engine).0
          (vla_predict engine rt (some (some m)) (some inp) (some a) (some n) s)
  unfolding vla_predict
  vla_predict-IsHanded rt m inp a n s =
      let result = (engine.predict m (to_inputs inp) s.engine).0 in
      elim (Bool-cases (bad_counts inp)) [
        | inl bad ↦
            rw (bad, predict_given) (cleared-IsHanded rt result err_arg s (λ e. ground arith))
        | inr fine ↦ elim (Bool-cases (rt.lock_throws || rt.views_throw)) [
          | inl throws ↦
              rw (fine, throws, predict_given)
                (cleared-IsHanded rt result err_exception s (λ e. ground arith))
          | inr quiet ↦ rw (fine, quiet, predict_given) (hand_over-IsHanded rt result _)
        ]
      ]

  -- The same for the vision tower alone, for at least one image.
  pub vla_encode_images-IsHanded :
      (rt : Runtime) (m : ℕ) (images : ℕ → CImage P) (n_images : ℤ) (a : Option ℕ) (n : ℤ)
      (s : Api E F)
      → leb_ℤ (pos 1) n_images ≡ true
      → IsHanded rt s.buffers
          (embedded engine
            (engine.encode_images m (views_from images 0 (to_ℕ n_images)) n_images s.engine).0)
          (vla_encode_images engine rt (some (some m)) (some images) n_images (some a) (some n) s)
  unfolding vla_encode_images
  vla_encode_images-IsHanded rt m images n_images a n s some_images =
      let result =
        embedded engine
          (engine.encode_images m (views_from images 0 (to_ℕ n_images)) n_images s.engine).0 in
      elim (Bool-cases (rt.lock_throws || rt.views_throw)) [
        | inl throws ↦
            rw (some_images, throws, encode_given)
              (cleared-IsHanded rt result err_exception s (λ e. ground arith))
        | inr quiet ↦ rw (some_images, quiet, encode_given) (hand_over-IsHanded rt result _)
      ]

  -- Releasing the buffer that a call handed over leaves the buffers that were there before it.
  pub vla_free_actions-vla_predict :
      (rt : Runtime) (m : ℕ) (inp : CInputs P) (a : Option ℕ) (n : ℤ) (s : Api E F) (p : ℕ) (k : ℤ)
      (s' : Api E F)
      → vla_predict engine rt (some (some m)) (some inp) (some a) (some n) s
        ≡ (vla_ok, (some (some p), some k), s')
      → vla_free_actions engine (some p) s'.buffers ≡ s.buffers
  unfolding vla_free_actions
  vla_free_actions-vla_predict rt m inp a n s p k s' e =
      let result = (engine.predict m (to_inputs inp) s.engine).0 in
      let handed = subst (IsHanded rt s.buffers result) e (vla_predict-IsHanded rt m inp a n s) in
      elim handed [
        | inr (bad, cleared_outs, none_kept) ↦ absurd (bad refl)
        | inl (fine, (q, act, got, r, some_act, outs, kept)) ↦
            let same : p ≡ q = some-injective _ _ (some-injective _ _ (ap (λ o. o.0) outs)) in
            let self : eq_ℤ (pos q) (pos p) ≡ true = ground arith in
            rw (kept, vla_free_actions, self) refl
      ]

-- `owns e`: the models that the engine holds. A load adds the model that it returns, and a failed or a
-- throwing one none; model_free takes it back.
pub record Owns (P F : Type 0) (engine : Engine P F) (owns : engine.E → List ℕ) : Type 0 where
  pub loads :
      (a b c : Str) (e : engine.E) (m : ℕ)
      → (engine.model_load a b c e).0 ≡ returned (some m)
      → owns (engine.model_load a b c e).1 ≡ m ∷ owns e
  pub fails :
      (a b c : Str) (e : engine.E)
      → (engine.model_load a b c e).0 ≡ returned none
      → owns (engine.model_load a b c e).1 ≡ owns e
  pub throws :
      (a b c : Str) (e : engine.E)
      → (engine.model_load a b c e).0 ≡ threw
      → owns (engine.model_load a b c e).1 ≡ owns e
  pub frees :
      (m : ℕ) (rest : List ℕ) (e : engine.E)
      → owns e ≡ m ∷ rest
      → owns (engine.model_free m e) ≡ rest

module _ {P F : Type 0} (engine : Engine P F) (owns : engine.E → List ℕ)
    (law : Owns P F engine owns) where
  -- However a load ends, releasing what it gave leaves the engine with the models that it had: a
  -- load that fails, throws or cannot make its handle keeps no model. It assumes that the engine's
  -- own load and free add and take one model.
  pub vla_model_free-vla_model_load :
      (rt : Runtime) (mmproj ckpt config : Option Str) (e : engine.E)
      → owns (
          vla_model_free engine
            (vla_model_load engine rt mmproj ckpt config e).0
            (vla_model_load engine rt mmproj ckpt config e).1)
        ≡ owns e
  unfolding vla_model_load vla_model_free
  vla_model_free-vla_model_load rt mmproj none config e = refl
  vla_model_free-vla_model_load rt mmproj (some ckpt) config e =
      let a = text_or_empty mmproj in
      let c = text_or_empty config in
      let e' = (engine.model_load a ckpt c e).1 in
      elim (Called-cases (engine.model_load a ckpt c e).0) [
        | inl thrown ↦ rw (thrown, vla_model_load) (law.throws a ckpt c e thrown)
        | inr (model, came) ↦ elim (Option-cases model) [
          | inl nothing ↦
              let failed : (engine.model_load a ckpt c e).0 ≡ returned none =
                came ∙ ap returned nothing in
              rw (failed, vla_model_load) (law.fails a ckpt c e failed)
          | inr (m, made) ↦
              let loaded : (engine.model_load a ckpt c e).0 ≡ returned (some m) =
                came ∙ ap returned made in
              let freed = law.frees m (owns e) e' (law.loads a ckpt c e m loaded) in
              elim (Bool-cases rt.new_throws) [
                | inl bad ↦ rw (loaded, vla_model_load, bad) freed
                | inr fine ↦ rw (loaded, vla_model_load, fine) freed
              ]
        ]
      ]
