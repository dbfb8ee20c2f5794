-- ===== src/Prompt.antt =====
-- src/modules/prompt.cpp: the prompt of a model with image tokens, its embeddings and the noise.
pub mod Slots
pub mod Embedded
mod Tests
use vla_cpp.Common.{
  ℕ, zero, suc, ◌+◌, ◌*◌, Bool, true, false, Option, none, some, List, [], ◌∷◌, ◌++◌, length, take,
  drop, replicate, ltb, ◌==◌, if◌then◌else◌, write_at,
}
use vla_cpp.Common.Int.{ℤ, eq_ℤ}
use vla_cpp.Common.Text.{bytes_of}
use vla_cpp.Gguf.{Reader, Codec, fetch_rows_f32}

pub record Prompt : Type 0 where
  pub ids : List ℤ
  pub image_pos : List ℕ
  pub text_pos : List ℕ

abbrev pub empty_prompt : Prompt
empty_prompt = record { ids = []; image_pos = []; text_pos = [] }

unfoldable pub count_slots : ℤ → List ℤ → ℕ
count_slots image_token [] = 0
count_slots image_token (x ∷ xs) =
    if eq_ℤ x image_token then suc (count_slots image_token xs) else count_slots image_token xs

-- The positions from `p` on: those of the image token, and the others.
unfoldable pub positions : ℤ → ℕ → List ℤ → List ℕ × List ℕ
positions image_token p [] = ([], [])
positions image_token p (x ∷ xs) =
    let rest = positions image_token (suc p) xs in
    if eq_ℤ x image_token then (p ∷ rest.0, rest.1) else (rest.0, p ∷ rest.1)

-- The ids: the tokens as they are, or with the image's in front.
unfoldable pub build_ids : List ℤ → ℕ → ℤ → Option (List ℤ)
unfolding count_slots
build_ids lang_tokens n_img image_token =
    if count_slots image_token lang_tokens == n_img
    then some lang_tokens
    else (if count_slots image_token lang_tokens == 0
        then some (replicate n_img image_token ++ lang_tokens)
        else none)

unfoldable pub place_ids : ℤ → ℕ → List ℤ → Prompt × Bool
unfolding positions
place_ids image_token max_seq ids =
    if ltb max_seq (length ids)
    then (record { ids = ids; image_pos = []; text_pos = [] }, false)
    else (
      record {
        ids = ids;
        image_pos = (positions image_token 0 ids).0;
        text_pos = (positions image_token 0 ids).1;
      },
      true,
    )

-- What `out` holds afterwards, and the result.
unfoldable pub build_prompt : List ℤ → ℕ → ℤ → ℕ → Prompt × Bool
unfolding build_ids place_ids
build_prompt lang_tokens n_img image_token max_seq =
    elim (build_ids lang_tokens n_img image_token) [
      | none ↦ (empty_prompt, false)
      | some ids ↦ place_ids image_token max_seq ids
    ]

-- The loop over `image_pos` from its `k`th.
unfoldable pub paste_images {ℓ} : {F : Type ℓ} → ℕ → List F → ℕ → List ℕ → List F → List F
paste_images hidden img_emb k [] out = out
paste_images hidden img_emb k (p ∷ ps) out =
    paste_images hidden img_emb (suc k) ps
      (write_at (p * hidden) (take hidden (drop (k * hidden) img_emb)) out)

unfoldable pub fetch_embeds :
    {F : Type 0} → Reader F → Codec F → Prompt → List F → ℕ → Option (List F)
unfolding paste_images
fetch_embeds g rows p img_emb hidden =
    elim (fetch_rows_f32 g rows (bytes_of "token_embd.weight") p.ids hidden) [
      | none ↦ none
      | some out ↦ some (paste_images hidden img_emb 0 p.image_pos out)
    ]

-- `random` is what the generator gives, one after the other.
unfoldable pub init_noise : {F : Type 0} → Option (List F) → ℕ → (ℕ → List F) → List F
init_noise none n random = random n
init_noise (some noise) n random = take n noise
