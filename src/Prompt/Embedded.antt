-- ===== src/Prompt/Embedded.antt =====
-- The embeddings that fetch_embeds of src/modules/prompt.cpp gives.
use vla_cpp.Common.{
  ℕ, suc, ◌+◌, ◌*◌, ◌≤◌, ◌≡◌, refl, sym, ap, ◌∙◌, inl, inr, true, Option, none, some, List, [], ◌∷◌,
  ◌++◌, not, ◌||◌, ltb, leb, ◌==◌, length, length-append, length-take, length-drop, All, take, drop,
  if◌then◌else◌, Bool-cases, Option-cases, drop-drop, write_at, write_at-append, arith,
}
use mathlib.Core.List.{append_assoc, append-nil}
use mathlib.Core.Option.{some-injective, none-ne-some}
use mathlib.Core.Path.{subst, fun_ext}
use vla_cpp.HfFetch.Names.{Str}
use vla_cpp.Common.Int.{ℤ, pos, negsuc, eq_ℤ}
use vla_cpp.Common.Text.{bytes_of}
use vla_cpp.Gguf.{
  Reader, Codec, TensorType, Tensor, t_f32, t_bf16, t_f16, t_i8, packed, other_type, read_at,
  fetch_row, fetch_loop, fetch_as, fetch_rows_f32,
}
use vla_cpp.Prompt.{positions, paste_images, fetch_embeds, count_slots, build_prompt}
use vla_cpp.Prompt.Slots.{build_prompt-IsPrompt, build_prompt-positions, length-positions}

abbrev pub rows_of : {F : Type 0} → (ℤ → List F) → List ℤ → List F
rows_of row [] = []
rows_of row (x ∷ ids) = row x ++ rows_of row ids

module _ {F : Type 0} (tok : ℤ) (hidden : ℕ) where
  -- A row for each id: the next row of the image, or the row of the token.
  abbrev pub mixed : (ℤ → List F) → List ℤ → List F → List F
  mixed row [] img_emb = []
  mixed row (x ∷ ids) img_emb =
      if eq_ℤ x tok
      then take hidden img_emb ++ mixed row ids (drop hidden img_emb)
      else row x ++ mixed row ids img_emb

  -- The last row that was written stands before the others.
  paste_images_next :
      (row : ℤ → List F) (img_emb : List F) (k : ℕ) (before block : List F) (ps : List ℕ)
      (ids : List ℤ) (rest : List F)
      → paste_images hidden img_emb k ps ((before ++ block) ++ rows_of row ids)
        ≡ (before ++ block) ++ rest
      → paste_images hidden img_emb k ps (before ++ (block ++ rows_of row ids))
        ≡ before ++ (block ++ rest)
  paste_images_next row img_emb k before block ps ids rest h =
      ap (paste_images hidden img_emb k ps) (sym (append_assoc before block (rows_of row ids)))
      ∙ h
      ∙ append_assoc before block rest

  length-block :
      (img_emb : List F) (k : ℕ)
      → (k * hidden) + hidden ≤ length img_emb
      → length (take hidden (drop (k * hidden) img_emb)) ≡ hidden
  length-block img_emb k h =
      omega
        (arith, h, length-take hidden (drop (k * hidden) img_emb), length-drop (k * hidden) img_emb)

  paste_images-mixed :
      (row : ℤ → List F) (img_emb : List F) (p k : ℕ) (before : List F) (ids : List ℤ)
      → All (λ x. length (row x) ≡ hidden) ids
      → length before ≡ p * hidden
      → (k + count_slots tok ids) * hidden ≤ length img_emb
      → paste_images hidden img_emb k (positions tok p ids).0 (before ++ rows_of row ids)
        ≡ before ++ mixed row ids (drop (k * hidden) img_emb)
  unfolding paste_images positions count_slots
  paste_images-mixed row img_emb p k before [] wide e enough = refl
  paste_images-mixed row img_emb p k before (x ∷ ids) (w, wide) e enough =
      elim (Bool-cases (eq_ℤ x tok)) [
        | inl same ↦
            let counted : (k + suc (count_slots tok ids)) * hidden ≤ length img_emb =
              rw (count_slots, same) at enough in
            let block = take hidden (drop (k * hidden) img_emb) in
            let full : length block ≡ hidden = length-block img_emb k (grind (arith, counted)) in
            let written : write_at (p * hidden) block (before ++ (row x ++ rows_of row ids))
                ≡ before ++ (block ++ rows_of row ids) =
              write_at-append (p * hidden) before (row x) (rows_of row ids) block e
                (w ∙ sym full) in
            let onward : drop hidden (drop (k * hidden) img_emb) ≡ drop (suc k * hidden) img_emb =
              drop-drop hidden (k * hidden) img_emb ∙ ap (λ n. drop n img_emb) (grind arith) in
            let ps = (positions tok (suc p) ids).0 in
            rw (same, onward)
              (ap (paste_images hidden img_emb (suc k) ps) written
                ∙ paste_images_next row img_emb (suc k) before block ps ids
                    (mixed row ids (drop (suc k * hidden) img_emb))
                    (paste_images-mixed row img_emb (suc p) (suc k) (before ++ block) ids wide
                      (grind (arith, length-append before block, full, e))
                      (grind (arith, counted))))
        | inr other ↦
            let counted : (k + count_slots tok ids) * hidden ≤ length img_emb =
              rw (count_slots, other) at enough in
            rw other (
              paste_images_next row img_emb k before (row x) (positions tok (suc p) ids).0 ids
                (mixed row ids (drop (k * hidden) img_emb))
                (paste_images-mixed row img_emb (suc p) k (before ++ row x) ids wide
                  (grind (arith, length-append before (row x), w, e)) counted))
      ]

length-mixed :
    {F : Type 0} (tok : ℤ) (hidden : ℕ) (row : ℤ → List F) (ids : List ℤ) (img_emb : List F)
    → All (λ x. length (row x) ≡ hidden) ids
    → count_slots tok ids * hidden ≤ length img_emb
    → length (mixed tok hidden row ids img_emb) ≡ length ids * hidden
unfolding count_slots
length-mixed tok hidden row [] img_emb wide enough = omega arith
length-mixed tok hidden row (x ∷ ids) img_emb (w, wide) enough = elim (Bool-cases (eq_ℤ x tok)) [
  | inl same ↦
      let counted : suc (count_slots tok ids) * hidden ≤ length img_emb =
        rw (count_slots, same) at enough in
      let split : suc (count_slots tok ids) * hidden ≡ count_slots tok ids * hidden + hidden =
        grind arith in
      let left : count_slots tok ids * hidden ≤ length (drop hidden img_emb) =
        omega (arith, counted, split, length-drop hidden img_emb) in
      let front : length (take hidden img_emb) ≡ hidden =
        omega (arith, counted, split, length-take hidden img_emb) in
      let ih = length-mixed tok hidden row ids (drop hidden img_emb) wide left in
      rw same (
        length-append (take hidden img_emb) (mixed tok hidden row ids (drop hidden img_emb))
        ∙ grind (arith, front, ih))
  | inr other ↦
      let counted : count_slots tok ids * hidden ≤ length img_emb =
        rw (count_slots, other) at enough in
      let ih = length-mixed tok hidden row ids img_emb wide counted in
      rw other (length-append (row x) (mixed tok hidden row ids img_emb) ∙ grind (arith, w, ih))
]

images_built :
    (lang : List ℤ) (n_img : ℕ) (tok : ℤ) (max_seq : ℕ)
    → (build_prompt lang n_img tok max_seq).1 ≡ true
    → length (build_prompt lang n_img tok max_seq).0.image_pos ≡ n_img
images_built lang n_img tok max_seq built = elim (build_prompt-IsPrompt lang n_img tok max_seq) [
  | inl (good, p) ↦ p.images
  | inr (bad, why) ↦ absurd (cc)
]

abbrev pub or_empty : {A : Type 0} → Option (List A) → List A
or_empty none = []
or_empty (some a) = a

-- Rows of `n` floats are as long as the conversions are told.
pub record IsCodec {F : Type 0} (codec : Codec F) (n : ℕ) : Type 0 where
  pub f32_rows : (bytes : Str) → length bytes ≡ n * 4 → length (codec.from_f32 bytes) ≡ n
  pub bf16_rows : (bytes : Str) → length bytes ≡ n * 2 → length (codec.from_bf16 bytes) ≡ n

module _ {F : Type 0} (g : Reader F) (codec : Codec F) where
  abbrev Rows : (List ℤ → Option (List F)) → ℕ → List ℤ → Type 0
  Rows fetch n ids =
      (flat : List F)
      → fetch ids ≡ some flat
      → (flat ≡ rows_of (λ x. or_empty (fetch (x ∷ []))) ids)
        × All (λ x. length (or_empty (fetch (x ∷ []))) ≡ n) ids

  length-read_at : (off n : ℕ) (bytes : Str) → read_at g off n ≡ some bytes → length bytes ≡ n
  unfolding read_at
  length-read_at off n bytes e =
      elim (Bool-cases (not (g.seekable off) || ltb (length g.content) (off + n))) [
        | inl bad ↦ absurd (none-ne-some bytes (rw (read_at, bad) at e))
        | inr good ↦
            let enough : off + n ≤ length g.content = ground (arith, good) in
            subst (λ b. length b ≡ n) (some-injective _ _ (rw (read_at, good) at e))
              (omega (arith, enough, length-take n (drop off g.content), length-drop off g.content))
      ]

  length-fetch_row :
      (from : Str → List F) (base rb count n : ℕ)
      → ((bytes : Str) → length bytes ≡ rb → length (from bytes) ≡ n)
      → (x : ℤ) (row : List F) → fetch_row g codec from base rb count x ≡ some row
      → length row ≡ n
  unfolding fetch_row
  length-fetch_row from base rb count n wide (negsuc r) row e = absurd (none-ne-some row e)
  length-fetch_row from base rb count n wide (pos r) row e = elim (Bool-cases (leb count r)) [
    | inl outside ↦ absurd (none-ne-some row (rw (fetch_row, outside) at e))
    | inr inside ↦ elim (Option-cases (read_at g (base + r * rb) rb)) [
      | inl short ↦ absurd (none-ne-some row (rw (fetch_row, inside, short) at e))
      | inr (bytes, there) ↦
          subst (λ b. length b ≡ n) (some-injective _ _ (rw (fetch_row, inside, there) at e))
            (wide bytes (length-read_at (base + r * rb) rb bytes there))
    ]
  ]

  fetch_loop-Rows :
      (from : Str → List F) (base rb count n : ℕ)
      → ((bytes : Str) → length bytes ≡ rb → length (from bytes) ≡ n)
      → (ids : List ℤ) → Rows (fetch_loop g codec from base rb count) n ids
  unfolding fetch_loop
  fetch_loop-Rows from base rb count n wide [] flat e = (sym (some-injective _ _ e), tt)
  fetch_loop-Rows from base rb count n wide (x ∷ ids) flat e =
      elim (Option-cases (fetch_row g codec from base rb count x)) [
        | inl missing ↦ absurd (none-ne-some flat (rw (fetch_loop, missing) at e))
        | inr (row, found) ↦ elim (Option-cases (fetch_loop g codec from base rb count ids)) [
          | inl missing ↦ absurd (none-ne-some flat (rw (fetch_loop, found, missing) at e))
          | inr (rest, more) ↦
              let (same, long) = fetch_loop-Rows from base rb count n wide ids rest more in
              let alone : fetch_loop g codec from base rb count (x ∷ []) ≡ some row =
                rw (fetch_loop, found) (ap some (append-nil row)) in
              let joined : row ++ rest ≡ flat =
                some-injective _ _ (rw (fetch_loop, found, more) at e) in
              (
                rw alone (sym joined ∙ ap (λ l. row ++ l) same),
                (rw alone (length-fetch_row from base rb count n wide x row found), long),
              )
        ]
      ]

  fetch_as-Rows :
      (type_ : TensorType) (t : Tensor) (cols : ℕ) (ids : List ℤ)
      → IsCodec codec cols
      → Rows (fetch_as g codec type_ t cols) cols ids
  unfolding fetch_as
  fetch_as-Rows t_f32 t cols ids wide flat e =
      fetch_loop-Rows codec.from_f32 (g.data_off + t.offset) (cols * 4) t.ne1 cols wide.f32_rows ids
        flat e
  fetch_as-Rows t_bf16 t cols ids wide flat e =
      fetch_loop-Rows codec.from_bf16 (g.data_off + t.offset) (cols * 2) t.ne1 cols wide.bf16_rows
        ids flat e
  fetch_as-Rows t_f16 t cols ids wide flat e = absurd (none-ne-some flat e)
  fetch_as-Rows t_i8 t cols ids wide flat e = absurd (none-ne-some flat e)
  fetch_as-Rows (packed k b) t cols ids wide flat e = absurd (none-ne-some flat e)
  fetch_as-Rows (other_type k) t cols ids wide flat e = absurd (none-ne-some flat e)

  fetch_rows_f32-Rows :
      (name : Str) (ids : List ℤ) (cols : ℕ)
      → IsCodec codec cols
      → Rows (λ l. fetch_rows_f32 g codec name l cols) cols ids
  unfolding fetch_rows_f32
  fetch_rows_f32-Rows name ids cols wide flat e = elim (Option-cases (g.tensor name)) [
    | inl missing ↦ absurd (none-ne-some flat (rw (fetch_rows_f32, missing) at e))
    | inr (t, found) ↦
        elim (Bool-cases (not (t.ne0 == cols) || not (t.ne2 == 1) || not (t.ne3 == 1))) [
          | inl unfit ↦ absurd (none-ne-some flat (rw (fetch_rows_f32, found, unfit) at e))
          | inr fit ↦
              let same : (l : List ℤ)
                  → fetch_as g codec t.type_ t cols l ≡ fetch_rows_f32 g codec name l cols =
                λ l. rw (fetch_rows_f32, found, fit) refl in
              subst (λ f. Rows f cols ids) (fun_ext same) (fetch_as-Rows t.type_ t cols ids wide)
                flat e
        ]
  ]

  -- The row of a token, fetched alone.
  abbrev pub token_row : ℕ → ℤ → List F
  token_row hidden x =
      or_empty (fetch_rows_f32 g codec (bytes_of "token_embd.weight") (x ∷ []) hidden)

  -- The embeddings of a prompt that was built: one row for each id in its order, the image's rows one
  -- after the other at the image tokens, and at every other token the row that it has alone.
  pub fetch_embeds-mixed :
      (lang : List ℤ) (n_img : ℕ) (tok : ℤ) (max_seq hidden : ℕ) (img_emb out : List F)
      → IsCodec codec hidden
      → length img_emb ≡ n_img * hidden
      → (build_prompt lang n_img tok max_seq).1 ≡ true
      → fetch_embeds g codec (build_prompt lang n_img tok max_seq).0 img_emb hidden ≡ some out
      → (out
          ≡ mixed tok hidden (token_row hidden) (build_prompt lang n_img tok max_seq).0.ids img_emb)
        × (length out ≡ length (build_prompt lang n_img tok max_seq).0.ids * hidden)
  unfolding fetch_embeds
  fetch_embeds-mixed lang n_img tok max_seq hidden img_emb out wide enough built e =
      let p = (build_prompt lang n_img tok max_seq).0 in
      elim (Option-cases (fetch_rows_f32 g codec (bytes_of "token_embd.weight") p.ids hidden)) [
        | inl missing ↦ absurd (none-ne-some out (rw (fetch_embeds, missing) at e))
        | inr (flat, found) ↦
            let (rows, long) =
              fetch_rows_f32-Rows (bytes_of "token_embd.weight") p.ids hidden wide flat found in
            let placed = build_prompt-positions lang n_img tok max_seq built in
            let slots : count_slots tok p.ids ≡ n_img =
              sym (length-positions tok 0 p.ids)
              ∙ ap length (sym placed)
              ∙ images_built lang n_img tok max_seq built in
            let fits : count_slots tok p.ids * hidden ≤ length img_emb =
              rw slots (omega (arith, enough)) in
            let none_read : 0 * hidden ≡ 0 = omega arith in
            let same : out ≡ mixed tok hidden (token_row hidden) p.ids img_emb =
              sym (some-injective _ _ (rw (fetch_embeds, found) at e))
              ∙ ap (λ ps. paste_images hidden img_emb 0 ps flat) placed
              ∙ ap (paste_images hidden img_emb 0 (positions tok 0 p.ids).0) rows
              ∙ paste_images-mixed tok hidden (token_row hidden) img_emb 0 0 [] p.ids long
                  (omega arith) (grind (arith, fits))
              ∙ ap (λ n. mixed tok hidden (token_row hidden) p.ids (drop n img_emb)) none_read in
            (
              same,
              ap length same ∙ length-mixed tok hidden (token_row hidden) p.ids img_emb long fits,
            )
      ]
