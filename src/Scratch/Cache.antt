-- ===== src/Scratch/Cache.antt =====
-- graph_cache of src/scratch_ctx.h: what `ensure` promises.
use vla_cpp.Common.{
  ℕ, ◌≡◌, ◌≢◌, refl, sym, ap, ◌∙◌, inl, inr, ◌⊎◌, Bool, true, false, ◌&&◌, Option, none, some, List,
  [], ◌∷◌, Bool-cases, Option-cases, arith,
}
use vla_cpp.Scratch.{Ggml, GraphCache, release_cache, finish_cache, build_cache, ensure}
use vla_cpp.Scratch.Held.{held, Counts, free_ctx_live, free_galloc_live}

module _ (ggml : Ggml) (live : ggml.W → List ℕ × List ℕ) (pool : ℕ → ggml.W → ℕ)
    (law : Counts ggml live pool) {Key IO : Type 0} (eq : Key → Key → Bool) (no_io : IO)
    (build : Key → ℕ → IO → ggml.W → (Option ℕ × IO) × ggml.W) where
  open ggml use {W}

  -- Exactly what the fields name is live; a valid cache has a context, an allocator and a graph.
  abbrev pub IsCache : GraphCache Key IO × W → Type 0
  IsCache (c, w) =
      (live w ≡ (held c.ctx, held c.galloc))
      × (c.valid ≡ true → (c.ctx ≢ none) × (c.galloc ≢ none) × (c.graph ≢ none))

  -- Nothing is held.
  abbrev pub IsReleased : GraphCache Key IO × W → Type 0
  IsReleased (c, w) = (live w ≡ ([], [])) × (c.valid ≡ false) × (c.ctx ≡ none) × (c.galloc ≡ none)

  -- The outcome of `ensure`: a valid cache for the key, or a released one.
  abbrev pub IsEnsured : Key → Bool × (GraphCache Key IO × W) → Type 0
  IsEnsured key outcome =
      ((outcome.0 ≡ true)
        × (eq outcome.1.0.key key ≡ true)
        × (outcome.1.0.valid ≡ true)
        × IsCache outcome.1)
      ⊎ ((outcome.0 ≡ false) × IsReleased outcome.1)

  release_cache-IsReleased :
      (c : GraphCache Key IO) (w : W)
      → live w ≡ (held c.ctx, held c.galloc)
      → IsReleased (release_cache ggml eq no_io build (c, w))
  unfolding release_cache
  release_cache-IsReleased c w e = (
    free_ctx_live ggml live pool law c.ctx [] _
        (free_galloc_live ggml live pool law c.galloc (held c.ctx) w e),
    refl,
    refl,
    refl,
  )

  finish_cache-IsEnsured :
      (key : Key) (gf x : ℕ) (c : GraphCache Key IO) (w : W)
      → eq key key ≡ true
      → c.ctx ≡ some x
      → c.graph ≡ some gf
      → live w ≡ (x ∷ [], [])
      → IsEnsured key (finish_cache ggml eq no_io build key gf (c, w))
  unfolding finish_cache
  finish_cache-IsEnsured key gf x c w same some_ctx some_graph e =
      let w1 = (ggml.gallocr_new w).1 in
      elim (Option-cases (ggml.gallocr_new w).0) [
        | inl failed ↦
            let bad =
              release_cache-IsReleased (record c { galloc = (ggml.gallocr_new w).0 }) w1
                (law.new_fails w failed
                  ∙ e
                  ∙ ap (λ o. (held o, [])) (sym some_ctx)
                  ∙ ap (λ o. (held c.ctx, held o)) (sym failed)) in
            rw (failed, finish_cache) (inr (refl, bad))
        | inr (g, made) ↦
            let w2 = (ggml.alloc_graph g gf w1).1 in
            let now : live w2 ≡ (held c.ctx, held (ggml.gallocr_new w).0) =
              (law.allocates g gf w1).0
              ∙ law.new_makes w g made
              ∙ ap (λ l. (l.0, g ∷ l.1)) e
              ∙ ap (λ o. (held o, g ∷ [])) (sym some_ctx)
              ∙ ap (λ o. (held c.ctx, held o)) (sym made) in
            elim (Bool-cases (ggml.alloc_graph g gf w1).0) [
              | inl fits ↦
                  rw (made, fits, finish_cache)
                    (inl (
                      refl,
                      same,
                      refl,
                      (
                        now,
                        λ v. (
                          (λ n. ground (arith, n, some_ctx)),
                          (λ n. ground (arith, n, made)),
                          (λ n. ground (arith, n, some_graph)),
                        ),
                      ),
                    ))
              | inr full ↦
                  rw (made, full, finish_cache)
                    (inr (
                      refl,
                      release_cache-IsReleased (record c { galloc = (ggml.gallocr_new w).0 }) w2
                          now,
                    ))
            ]
      ]

  module _ (eq_refl : (k : Key) → eq k k ≡ true)
      (builds : (k : Key) (x : ℕ) (io : IO) (w : W) → live (build k x io w).1 ≡ live w) where
    build_cache-IsEnsured :
        (key : Key) (arena : ℕ) (c : GraphCache Key IO) (w : W)
        → IsReleased (c, w)
        → IsEnsured key (build_cache ggml eq no_io build key arena (c, w))
    unfolding build_cache
    build_cache-IsEnsured key arena c w (e, invalid, no_ctx, no_galloc) =
        let w1 = (ggml.init arena w).1 in
        elim (Option-cases (ggml.init arena w).0) [
          | inl failed ↦
              rw (failed, build_cache)
                (inr (refl, (law.init_fails arena w failed ∙ e, invalid, failed, no_galloc)))
          | inr (x, made) ↦
              let (graph, w2) = build key x no_io w1 in
              let now : live w2 ≡ (x ∷ [], []) =
                builds key x no_io w1
                ∙ (law.init_makes arena w x made).0
                ∙ ap (λ l. (x ∷ l.0, l.1)) e in
              let c2 : GraphCache Key IO = record c {
                ctx = (ggml.init arena w).0;
                graph = graph.0;
                io = graph.1;
              } in
              elim (Option-cases graph.0) [
                | inl failed ↦
                    rw (made, failed, build_cache)
                      (inr (
                        refl,
                        release_cache-IsReleased c2 w2 (
                            now
                            ∙ ap (λ o. (held o, [])) (sym made)
                            ∙ ap (λ o. (held (ggml.init arena w).0, held o)) (sym no_galloc)),
                      ))
                | inr (gf, built) ↦
                    rw (made, built, build_cache)
                      (finish_cache-IsEnsured key gf x c2 w2 (eq_refl key) made built now)
              ]
        ]

    -- For every key and cache: `ensure` ends with a valid cache for the key, which has its graph, its
    -- context and its allocator, or it says no and holds nothing at all; and exactly what the cache
    -- names is live. It assumes that a key equals itself, that ggml makes and frees one object at a
    -- time, and that building a graph makes none.
    pub ensure-IsEnsured :
        (key : Key) (arena : ℕ) (cw : GraphCache Key IO × W)
        → IsCache cw
        → IsEnsured key (ensure ggml eq no_io build key arena cw)
    unfolding ensure
    ensure-IsEnsured key arena (c, w) (e, v) = elim (Bool-cases (c.valid && eq c.key key)) [
      | inl hit ↦
          let valid : c.valid ≡ true = ground arith in
          let same : eq c.key key ≡ true = ground arith in
          rw (hit, ensure) (inl (refl, same, valid, (e, v)))
      | inr miss ↦
          let released = release_cache ggml eq no_io build (c, w) in
          rw (miss, ensure)
            (build_cache-IsEnsured key arena released.0 released.1 (release_cache-IsReleased c w e))
    ]

    hit_lem :
        (key : Key) (arena : ℕ) (cw : GraphCache Key IO × W)
        → eq cw.0.key key ≡ true
        → cw.0.valid ≡ true
        → ensure ggml eq no_io build key arena cw ≡ (true, cw)
    unfolding ensure
    hit_lem key arena (c, w) same valid =
        let hit : (c.valid && eq c.key key) ≡ true = ground arith in rw (hit, ensure) refl

    -- Once a graph was ensured, asking for the same key changes nothing: the graph, its nodes and
    -- its buffers stay where they are, whatever arena is named.
    pub ensure-ensure :
        (key : Key) (arena arena' : ℕ) (cw : GraphCache Key IO × W)
        → IsCache cw
        → (ensure ggml eq no_io build key arena cw).0 ≡ true
        → ensure ggml eq no_io build key arena' (ensure ggml eq no_io build key arena cw).1
          ≡ (true, (ensure ggml eq no_io build key arena cw).1)
    unfolding ensure
    ensure-ensure key arena arena' cw h found = elim (ensure-IsEnsured key arena cw h) [
      | inl (done, same, valid, kept) ↦
          hit_lem key arena' (ensure ggml eq no_io build key arena cw).1 same valid
      | inr (refused, rest) ↦ absurd (ground (arith, refused, found))
    ]
