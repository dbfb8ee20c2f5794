-- ===== src/Scratch.antt =====
-- scratch_ctx and graph_cache of src/scratch_ctx.h: the compute context and the graph allocator that a
-- model keeps between its calls. ggml is a parameter on a state `W`; its objects are numbers.
pub mod Held
pub mod Cache
mod Tests
use vla_cpp.Common.{ℕ, Bool, true, false, ◌&&◌, Option, none, some, ltb, if◌then◌else◌}

pub record Ggml : Type 1 where
  pub W : Type 0
  -- ggml_init of an arena without allocation, ggml_reset and ggml_free.
  pub init : ℕ → W → Option ℕ × W
  pub reset : ℕ → W → W
  pub free : ℕ → W → W
  pub gallocr_new : W → Option ℕ × W
  pub gallocr_free : ℕ → W → W
  -- ggml_gallocr_alloc_graph of an allocator and a graph.
  pub alloc_graph : ℕ → ℕ → W → Bool × W

-- scratch_ctx.
pub record Scratch : Type 0 where
  pub ctx : Option ℕ
  pub galloc : Option ℕ
  pub arena : ℕ

-- graph_cache: `Key` is the shape, `IO` the handles of the graph.
pub record GraphCache (Key IO : Type 0) : Type 0 where
  pub ctx : Option ℕ
  pub galloc : Option ℕ
  pub graph : Option ℕ
  pub key : Key
  pub io : IO
  pub valid : Bool

module _ (ggml : Ggml) where
  open ggml use {W}

  -- `if (ctx_) { ggml_free(ctx_); ... }` and the same for the allocator.
  unfoldable pub free_ctx : Option ℕ → W → W
  free_ctx none w = w
  free_ctx (some c) w = ggml.free c w

  unfoldable pub free_galloc : Option ℕ → W → W
  free_galloc none w = w
  free_galloc (some g) w = ggml.gallocr_free g w

  -- The context that is kept: none if it is too small.
  unfoldable pub keep_ctx : ℕ → Scratch × W → Scratch × W
  keep_ctx arena (s, w) = elim s.ctx [
    | none ↦ (s, w)
    | some c ↦ if ltb s.arena arena then (record s { ctx = none }, ggml.free c w) else (s, w)
  ]

  unfoldable pub reset_kept : ℕ → Scratch × W → Option ℕ × (Scratch × W)
  reset_kept arena (s, w) = elim s.ctx [
    | some c ↦ (some c, (s, ggml.reset c w))
    | none ↦
        let (made, w') = ggml.init arena w in (made, (record s { ctx = made; arena = arena }, w'))
  ]

  unfoldable pub reset : ℕ → Scratch × W → Option ℕ × (Scratch × W)
  unfolding keep_ctx reset_kept
  reset arena sw = reset_kept arena (keep_ctx arena sw)

  unfoldable pub ensure_galloc : Option ℕ → W → Option ℕ × W
  ensure_galloc none w = ggml.gallocr_new w
  ensure_galloc (some g) w = (some g, w)

  unfoldable pub alloc : ℕ → Scratch × W → Bool × (Scratch × W)
  unfolding ensure_galloc
  alloc graph (s, w) =
      let (galloc, w1) = ensure_galloc s.galloc w in
      let s' : Scratch = record s { galloc = galloc } in
      elim galloc [
        | none ↦ (false, (s', w1))
        | some g ↦ let (fits, w2) = ggml.alloc_graph g graph w1 in (fits, (s', w2))
      ]

  unfoldable pub release : Scratch × W → Scratch × W
  unfolding free_ctx free_galloc
  release (s, w) = (record s { ctx = none; galloc = none }, free_ctx s.ctx (free_galloc s.galloc w))

  module _ {Key IO : Type 0} (eq : Key → Key → Bool) (no_io : IO)
      (build : Key → ℕ → IO → W → (Option ℕ × IO) × W) where
    unfoldable pub release_cache : GraphCache Key IO × W → GraphCache Key IO × W
    unfolding free_ctx free_galloc
    release_cache (c, w) = (
      record c { ctx = none; galloc = none; graph = none; io = no_io; valid = false },
      free_ctx c.ctx (free_galloc c.galloc w),
    )

    -- The graph is allocated, or everything is released.
    unfoldable pub finish_cache : Key → ℕ → GraphCache Key IO × W → Bool × (GraphCache Key IO × W)
    unfolding release_cache
    finish_cache key graph (c, w) =
        let (galloc, w1) = ggml.gallocr_new w in
        let c1 : GraphCache Key IO = record c { galloc = galloc } in
        elim galloc [
          | none ↦ (false, release_cache (c1, w1))
          | some g ↦
              let (fits, w2) = ggml.alloc_graph g graph w1 in
              if fits
              then (true, (record c1 { key = key; valid = true }, w2))
              else (false, release_cache (c1, w2))
        ]

    unfoldable pub build_cache : Key → ℕ → GraphCache Key IO × W → Bool × (GraphCache Key IO × W)
    unfolding release_cache finish_cache
    build_cache key arena (c, w) =
        let (made, w1) = ggml.init arena w in
        let c1 : GraphCache Key IO = record c { ctx = made } in
        elim made [
          | none ↦ (false, (c1, w1))
          | some x ↦
              let ((graph, io), w2) = build key x no_io w1 in
              let c2 : GraphCache Key IO = record c1 { graph = graph; io = io } in
              elim graph [
                | none ↦ (false, release_cache (c2, w2))
                | some gf ↦ finish_cache key gf (c2, w2)
              ]
        ]

    unfoldable pub ensure : Key → ℕ → GraphCache Key IO × W → Bool × (GraphCache Key IO × W)
    unfolding release_cache build_cache
    ensure key arena (c, w) =
        if c.valid && eq c.key key
        then (true, (c, w))
        else build_cache key arena (release_cache (c, w))
