-- ===== src/Scratch/Held.antt =====
-- What src/scratch_ctx.h holds of ggml: no context and no allocator is lost or freed twice, and a context
-- is never smaller than what was asked for.
use mathlib.Core.Path.{subst}
use mathlib.Core.Option.{some-injective}
use vla_cpp.Common.{
  ℕ, ◌≤◌, ◌≡◌, refl, sym, ap, ◌∙◌, inl, inr, Option, none, some, List, [], ◌∷◌, ltb, Bool-cases,
  Option-cases, arith,
}
use vla_cpp.Scratch.{
  Ggml, Scratch, free_ctx, free_galloc, keep_ctx, reset_kept, reset, ensure_galloc, alloc, release,
}

abbrev pub held : Option ℕ → List ℕ
held none = []
held (some x) = x ∷ []

-- `live w`: the contexts and the allocators that were made and not freed. `pool c w`: the size of the
-- context's memory. Freeing needs a live object.
pub record Counts (ggml : Ggml) (live : ggml.W → List ℕ × List ℕ) (pool : ℕ → ggml.W → ℕ)
    : Type 0 where
  pub init_fails : (a : ℕ) (w : ggml.W) → (ggml.init a w).0 ≡ none → live (ggml.init a w).1 ≡ live w
  pub init_makes :
      (a : ℕ) (w : ggml.W) (c : ℕ)
      → (ggml.init a w).0 ≡ some c
      → (live (ggml.init a w).1 ≡ (c ∷ (live w).0, (live w).1)) × (pool c (ggml.init a w).1 ≡ a)
  pub resets :
      (c : ℕ) (w : ggml.W) → (live (ggml.reset c w) ≡ live w) × (pool c (ggml.reset c w) ≡ pool c w)
  pub frees :
      (c : ℕ) (w : ggml.W) (cs gs : List ℕ)
      → live w ≡ (c ∷ cs, gs)
      → live (ggml.free c w) ≡ (cs, gs)
  pub new_fails :
      (w : ggml.W) → (ggml.gallocr_new w).0 ≡ none → live (ggml.gallocr_new w).1 ≡ live w
  pub new_makes :
      (w : ggml.W) (g : ℕ)
      → (ggml.gallocr_new w).0 ≡ some g
      → live (ggml.gallocr_new w).1 ≡ ((live w).0, g ∷ (live w).1)
  pub new_pool : (w : ggml.W) (c : ℕ) → pool c (ggml.gallocr_new w).1 ≡ pool c w
  pub galloc_frees :
      (g : ℕ) (w : ggml.W) (cs gs : List ℕ)
      → live w ≡ (cs, g ∷ gs)
      → live (ggml.gallocr_free g w) ≡ (cs, gs)
  pub allocates :
      (g graph : ℕ) (w : ggml.W)
      → (live (ggml.alloc_graph g graph w).1 ≡ live w)
        × ((c : ℕ) → pool c (ggml.alloc_graph g graph w).1 ≡ pool c w)

-- The calls of a scratch_ctx.
pub data Call : Type 0 where
  resets_to : (arena : ℕ) → Call
  allocates_for : (graph : ℕ) → Call
  releases : Call

module _ (ggml : Ggml) where
  open ggml use {W}

  unfoldable pub call : Call → Scratch × W → Scratch × W
  unfolding reset alloc release
  call (resets_to arena) sw = (reset ggml arena sw).1
  call (allocates_for graph) sw = (alloc ggml graph sw).1
  call releases sw = release ggml sw

  unfoldable pub calls : List Call → Scratch × W → Scratch × W
  unfolding call
  calls [] sw = sw
  calls (c ∷ cs) sw = calls cs (call c sw)

  module _ (live : W → List ℕ × List ℕ) (pool : ℕ → W → ℕ) (law : Counts ggml live pool) where
    -- Exactly what the fields name is live, and the context is as large as `arena_`.
    abbrev pub IsHeld : Scratch × W → Type 0
    IsHeld (s, w) =
        (live w ≡ (held s.ctx, held s.galloc)) × ((c : ℕ) → s.ctx ≡ some c → pool c w ≡ s.arena)

    pub free_ctx_live :
        (ctx : Option ℕ) (gs : List ℕ) (w : W)
        → live w ≡ (held ctx, gs)
        → live (free_ctx ggml ctx w) ≡ ([], gs)
    unfolding free_ctx
    free_ctx_live none gs w e = e
    free_ctx_live (some c) gs w e = law.frees c w [] gs e

    pub free_galloc_live :
        (galloc : Option ℕ) (cs : List ℕ) (w : W)
        → live w ≡ (cs, held galloc)
        → live (free_galloc ggml galloc w) ≡ (cs, [])
    unfolding free_galloc
    free_galloc_live none cs w e = e
    free_galloc_live (some g) cs w e = law.galloc_frees g w cs [] e

    release-IsHeld : (sw : Scratch × W) → IsHeld sw → IsHeld (release ggml sw)
    unfolding release
    release-IsHeld (s, w) (e, p) = (
      free_ctx_live s.ctx [] _ (free_galloc_live s.galloc (held s.ctx) w e),
      λ c h. absurd (ground arith),
    )

    -- Kept and large enough, or gone.
    keep_ctx-IsHeld :
        (arena : ℕ) (ctx galloc : Option ℕ) (old : ℕ) (w : W)
        → IsHeld (record { ctx = ctx; galloc = galloc; arena = old }, w)
        → IsHeld (keep_ctx ggml arena (record { ctx = ctx; galloc = galloc; arena = old }, w))
          × ((c : ℕ)
              → (keep_ctx ggml arena (record { ctx = ctx; galloc = galloc; arena = old }, w)).0.ctx
                ≡ some c
              → arena
                ≤ (keep_ctx ggml arena
                    (record { ctx = ctx; galloc = galloc; arena = old }, w)).0.arena)
    unfolding keep_ctx
    keep_ctx-IsHeld arena none galloc old w h = (h, λ c e. absurd (ground arith))
    keep_ctx-IsHeld arena (some c) galloc old w (e, p) = elim (Bool-cases (ltb old arena)) [
      | inl small ↦
          rw (small, keep_ctx)
            (
              (law.frees c w [] (held galloc) e, λ c' h. absurd (ground arith)),
              λ c' h. absurd (ground arith),
            )
      | inr large ↦ rw (large, keep_ctx) ((e, p), λ c' h. ground arith)
    ]

    reset_kept-IsHeld :
        (arena : ℕ) (ctx galloc : Option ℕ) (old : ℕ) (w : W)
        → IsHeld (record { ctx = ctx; galloc = galloc; arena = old }, w)
        → ((c : ℕ) → ctx ≡ some c → arena ≤ old)
        → IsHeld (reset_kept ggml arena (record { ctx = ctx; galloc = galloc; arena = old }, w)).1
          × ((c : ℕ)
              → (reset_kept ggml arena (record { ctx = ctx; galloc = galloc; arena = old }, w)).0
                ≡ some c
              → arena
                ≤ pool c
                    (reset_kept ggml arena
                      (record { ctx = ctx; galloc = galloc; arena = old }, w)).1.1)
    unfolding reset_kept
    reset_kept-IsHeld arena (some c) galloc old w (e, p) large =
        let (same, size) = law.resets c w in
        let sized : (d : ℕ) → some c ≡ some d → pool d (ggml.reset c w) ≡ old = λ d h.
          subst (λ x. pool x (ggml.reset c w) ≡ old) (some-injective _ _ h) (size ∙ p c refl) in
        ((same ∙ e, sized), λ d h. rw (sized d h) (large c refl))
    reset_kept-IsHeld arena none galloc old w (e, p) large =
        elim (Option-cases (ggml.init arena w).0) [
          | inl failed ↦ (
            (
              law.init_fails arena w failed ∙ e ∙ ap (λ o. (held o, held galloc)) (sym failed),
              λ c h. absurd (ground (arith, failed, h)),
            ),
            λ c h. absurd (ground (arith, failed, h)),
          )
          | inr (c, made) ↦
              let (grown, size) = law.init_makes arena w c made in
              let sized : (d : ℕ)
                  → (ggml.init arena w).0 ≡ some d
                  → pool d (ggml.init arena w).1 ≡ arena =
                λ d h. (law.init_makes arena w d h).1 in
              (
                (
                  grown ∙ ap (λ l. (c ∷ l.0, l.1)) e ∙ ap (λ o. (held o, held galloc)) (sym made),
                  sized,
                ),
                λ d h. rw (sized d h) (omega arith),
              )
        ]

    -- A reset keeps what is held, and the context that it gives, if ggml gives one, is at least as
    -- large as what was asked for, also when it was made for less before. It assumes that ggml
    -- makes and frees one object at a time, of the size that is asked for.
    pub reset-IsHeld :
        (arena : ℕ) (sw : Scratch × W)
        → IsHeld sw
        → IsHeld (reset ggml arena sw).1
          × ((c : ℕ) → (reset ggml arena sw).0 ≡ some c → arena ≤ pool c (reset ggml arena sw).1.1)
    unfolding reset
    reset-IsHeld arena (s, w) h =
        let (kept, large) = keep_ctx-IsHeld arena s.ctx s.galloc s.arena w h in
        let (s', w') = keep_ctx ggml arena (s, w) in
        reset_kept-IsHeld arena s'.ctx s'.galloc s'.arena w' kept large

    alloc-IsHeld :
        (graph : ℕ) (ctx galloc : Option ℕ) (arena : ℕ) (w : W)
        → IsHeld (record { ctx = ctx; galloc = galloc; arena = arena }, w)
        → IsHeld (alloc ggml graph (record { ctx = ctx; galloc = galloc; arena = arena }, w)).1
    unfolding alloc ensure_galloc
    alloc-IsHeld graph ctx (some g) arena w (e, p) =
        let (same, sizes) = law.allocates g graph w in (same ∙ e, λ c h. sizes c ∙ p c h)
    alloc-IsHeld graph ctx none arena w (e, p) = elim (Option-cases (ggml.gallocr_new w).0) [
      | inl failed ↦
          rw (failed, alloc)
            (
              law.new_fails w failed ∙ e ∙ ap (λ o. (held ctx, held o)) (sym failed),
              λ c h. law.new_pool w c ∙ p c h,
            )
      | inr (g, made) ↦
          let (same, sizes) = law.allocates g graph (ggml.gallocr_new w).1 in
          rw (made, alloc)
            (
              same
                  ∙ law.new_makes w g made
                  ∙ ap (λ l. (l.0, g ∷ l.1)) e
                  ∙ ap (λ o. (held ctx, held o)) (sym made),
              λ c h. sizes c ∙ law.new_pool w c ∙ p c h,
            )
    ]

    call-IsHeld : (c : Call) (sw : Scratch × W) → IsHeld sw → IsHeld (call c sw)
    unfolding call
    call-IsHeld (resets_to arena) sw h = (reset-IsHeld arena sw h).0
    call-IsHeld (allocates_for graph) (s, w) h = alloc-IsHeld graph s.ctx s.galloc s.arena w h
    call-IsHeld releases sw h = release-IsHeld sw h

    calls-IsHeld : (cs : List Call) (sw : Scratch × W) → IsHeld sw → IsHeld (calls cs sw)
    unfolding calls
    calls-IsHeld [] sw h = h
    calls-IsHeld (c ∷ cs) sw h = calls-IsHeld cs (call c sw) (call-IsHeld c sw h)

    -- Whatever calls a scratch gets, also when ggml fails in some of them, its release in the end
    -- leaves no context and no allocator behind. It assumes that ggml makes and frees one object at
    -- a time.
    pub release-calls :
        (cs : List Call) (sw : Scratch × W)
        → IsHeld sw
        → live (release ggml (calls cs sw)).1 ≡ ([], [])
    unfolding release
    release-calls cs sw h = (release-IsHeld (calls cs sw) (calls-IsHeld cs sw h)).0
