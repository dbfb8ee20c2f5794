-- ===== src/Prompt/Slots.antt =====
-- Where the tokens of an image stand in a prompt of src/modules/prompt.cpp.
use vla_cpp.Common.{
  ℕ, zero, suc, ◌+◌, ◌-◌, ◌≤◌, ◌<◌, ◌≡◌, ◌≢◌, ◌⊎◌, refl, ◌∙◌, inl, inr, Bool, true, false, some,
  List, [], ◌∷◌, ◌++◌, length, length-append, length-replicate, replicate, get_elem?, ltb, ◌==◌,
  ==_iff, ltb→lt, Bool-cases, Option-cases, arith,
}
use mathlib.Core.Path.{subst}
use mathlib.Core.List.{append_assoc}
use vla_cpp.Common.Int.{ℤ, pos, negsuc, eq_ℤ}
use vla_cpp.Prompt.{Prompt, count_slots, positions, build_ids, place_ids, build_prompt}

-- The positions rise, and start at `lo` or later.
abbrev pub Rises : ℕ → List ℕ → Type 0
Rises lo [] = Unit
Rises lo (p ∷ ps) = (lo ≤ p) × Rises (suc p) ps

-- What stands at each position is the image token (or is not).
abbrev pub HoldsAt : ℤ → Bool → List ℤ → List ℕ → Type 0
HoldsAt tok which ids [] = Unit
HoldsAt tok which ids (p ∷ ps) =
    ((x : ℤ) × (get_elem? ids p ≡ some x) × (eq_ℤ x tok ≡ which)) × HoldsAt tok which ids ps

pub length-positions :
    (tok : ℤ) (p : ℕ) (ids : List ℤ) → length (positions tok p ids).0 ≡ count_slots tok ids
unfolding positions count_slots
length-positions tok p [] = refl
length-positions tok p (x ∷ xs) = ground (arith, length-positions tok (suc p) xs)

all_positions :
    (tok : ℤ) (p : ℕ) (ids : List ℤ)
    → length (positions tok p ids).0 + length (positions tok p ids).1 ≡ length ids
unfolding positions
all_positions tok p [] = refl
all_positions tok p (x ∷ xs) = ground (arith, all_positions tok (suc p) xs)

-- The positions of the parts of `ids`, read from `p` on.
record AreSplit (tok : ℤ) (p : ℕ) (ids : List ℤ) (parts : List ℕ × List ℕ) : Type 0 where
  pub images_rise : Rises p parts.0
  pub texts_rise : Rises p parts.1
  pub images_hold : HoldsAt tok true ids parts.0
  pub texts_hold : HoldsAt tok false ids parts.1

Rises-weaken : (lo hi : ℕ) (ps : List ℕ) → lo ≤ hi → Rises hi ps → Rises lo ps
Rises-weaken lo hi [] h r = tt
Rises-weaken lo hi (p ∷ ps) h (a, r) = (omega (arith, h, a), r)

get_elem?-append :
    (pre : List ℤ) (x : ℤ) (xs : List ℤ) (p : ℕ)
    → length pre ≡ p
    → get_elem? (pre ++ x ∷ xs) p ≡ some x
get_elem?-append [] x xs zero e = refl
get_elem?-append [] x xs (suc p) e = absurd (omega (arith, e))
get_elem?-append (y ∷ pre) x xs zero e = absurd (omega (arith, e))
get_elem?-append (y ∷ pre) x xs (suc p) e = get_elem?-append pre x xs p (omega (arith, e))

positions-AreSplit :
    (tok : ℤ) (p : ℕ) (pre xs : List ℤ)
    → length pre ≡ p
    → AreSplit tok p (pre ++ xs) (positions tok p xs)
unfolding positions
positions-AreSplit tok p pre [] e = record {
  images_rise = tt;
  texts_rise = tt;
  images_hold = tt;
  texts_hold = tt;
}
positions-AreSplit tok p pre (x ∷ xs) e =
    let rest : AreSplit tok (suc p) (pre ++ x ∷ xs) (positions tok (suc p) xs) =
      subst (λ l. AreSplit tok (suc p) l (positions tok (suc p) xs)) (append_assoc pre (x ∷ []) xs)
        (positions-AreSplit tok (suc p) (pre ++ x ∷ []) xs
          (omega (arith, e, length-append pre (x ∷ [])))) in
    elim (Bool-cases (eq_ℤ x tok)) [
      | inl same ↦ rw same (record {
        images_rise = (omega arith, rest.images_rise);
        texts_rise =
            Rises-weaken p (suc p) (positions tok (suc p) xs).1 (omega arith) rest.texts_rise;
        images_hold = ((x, get_elem?-append pre x xs p e, same), rest.images_hold);
        texts_hold = rest.texts_hold;
      })
      | inr other ↦ rw other (record {
        images_rise =
            Rises-weaken p (suc p) (positions tok (suc p) xs).0 (omega arith) rest.images_rise;
        texts_rise = (omega arith, rest.texts_rise);
        images_hold = rest.images_hold;
        texts_hold = ((x, get_elem?-append pre x xs p e, other), rest.texts_hold);
      })
    ]

eq_ℤ_self : (x : ℤ) → eq_ℤ x x ≡ true
eq_ℤ_self (pos n) = ground arith
eq_ℤ_self (negsuc n) = ground arith

count_slots-replicate :
    (tok : ℤ) (n : ℕ) (ids : List ℤ)
    → count_slots tok (replicate n tok ++ ids) ≡ n + count_slots tok ids
unfolding count_slots
count_slots-replicate tok zero ids = omega arith
count_slots-replicate tok (suc n) ids =
    rw (eq_ℤ_self tok) (omega (arith, count_slots-replicate tok n ids))

-- What a prompt is: the tokens, with the image's tokens in front where they have none, the positions of
-- the image tokens, of which there are `n_img`, and those of the others, all in order.
pub record IsPrompt (lang : List ℤ) (n_img : ℕ) (tok : ℤ) (max_seq : ℕ) (p : Prompt) : Type 0 where
  pub ids_are :
      (p.ids ≡ lang) ⊎ ((p.ids ≡ replicate n_img tok ++ lang) × (count_slots tok lang ≡ 0))
  pub fits : length p.ids ≤ max_seq
  pub images : length p.image_pos ≡ n_img
  pub together : length p.image_pos + length p.text_pos ≡ length p.ids
  pub images_rise : Rises 0 p.image_pos
  pub texts_rise : Rises 0 p.text_pos
  pub images_hold : HoldsAt tok true p.ids p.image_pos
  pub texts_hold : HoldsAt tok false p.ids p.text_pos

place_ids-IsPrompt :
    (lang : List ℤ) (n_img : ℕ) (tok : ℤ) (max_seq : ℕ) (ids : List ℤ)
    → (ids ≡ lang) ⊎ ((ids ≡ replicate n_img tok ++ lang) × (count_slots tok lang ≡ 0))
    → count_slots tok ids ≡ n_img
    → (place_ids tok max_seq ids).1 ≡ true
    → IsPrompt lang n_img tok max_seq (place_ids tok max_seq ids).0
unfolding place_ids
place_ids-IsPrompt lang n_img tok max_seq ids are slots good =
    elim (Bool-cases (ltb max_seq (length ids))) [
      | inl long ↦ absurd (cc (rw (place_ids, long) at good))
      | inr short ↦
          let split = positions-AreSplit tok 0 [] ids refl in
          rw short (record {
            ids_are = are;
            fits = ground arith;
            images = length-positions tok 0 ids ∙ slots;
            together = all_positions tok 0 ids;
            images_rise = split.images_rise;
            texts_rise = split.texts_rise;
            images_hold = split.images_hold;
            texts_hold = split.texts_hold;
          })
    ]

-- A good prompt, or a reason to refuse it: some but not all slots are there, or it is too long.
abbrev pub IsBuilt : List ℤ → ℕ → ℤ → ℕ → Prompt × Bool → Type 0
IsBuilt lang n_img tok max_seq r =
    ((r.1 ≡ true) × IsPrompt lang n_img tok max_seq r.0)
    ⊎ ((r.1 ≡ false)
        × (((count_slots tok lang ≢ 0) × (count_slots tok lang ≢ n_img))
            ⊎ (max_seq < length lang + (n_img - count_slots tok lang))))

place_ids-IsBuilt :
    (lang : List ℤ) (n_img : ℕ) (tok : ℤ) (max_seq : ℕ) (ids : List ℤ)
    → (ids ≡ lang) ⊎ ((ids ≡ replicate n_img tok ++ lang) × (count_slots tok lang ≡ 0))
    → count_slots tok ids ≡ n_img
    → length ids ≡ length lang + (n_img - count_slots tok lang)
    → IsBuilt lang n_img tok max_seq (place_ids tok max_seq ids)
unfolding place_ids
place_ids-IsBuilt lang n_img tok max_seq ids are slots all =
    elim (Bool-cases (ltb max_seq (length ids))) [
      | inl long ↦
          let over : max_seq < length lang + (n_img - count_slots tok lang) =
            omega (arith, all, ltb→lt _ _ long) in
          inr (rw (place_ids, long) refl, inr over)
      | inr short ↦
          let good : (place_ids tok max_seq ids).1 ≡ true = rw (place_ids, short) refl in
          inl (good, place_ids-IsPrompt lang n_img tok max_seq ids are slots good)
    ]

-- A prompt that is built has exactly the image tokens that were asked for, its positions of the image
-- tokens and of the others are listed in order, each once, and the text is kept; it is refused only if
-- some but not all slots are there, or if it would be too long.
pub build_prompt-IsPrompt :
    (lang : List ℤ) (n_img : ℕ) (tok : ℤ) (max_seq : ℕ)
    → IsBuilt lang n_img tok max_seq (build_prompt lang n_img tok max_seq)
unfolding build_prompt
build_prompt-IsPrompt lang n_img tok max_seq = elim (Bool-cases (count_slots tok lang == n_img)) [
  | inl whole ↦
      let same = (==_iff _ _).0 whole in
      rw (whole, build_prompt)
        (place_ids-IsBuilt lang n_img tok max_seq lang (inl refl) same (omega (arith, same)))
  | inr partial ↦ elim (Bool-cases (count_slots tok lang == 0)) [
    | inl bare ↦
        let zero_slots = (==_iff _ _).0 bare in
        rw (partial, bare, build_prompt)
          (place_ids-IsBuilt lang n_img tok max_seq (replicate n_img tok ++ lang)
            (inr (refl, zero_slots))
            (omega (arith, zero_slots, count_slots-replicate tok n_img lang))
            (omega (
              arith,
              zero_slots,
              length-append (replicate n_img tok) lang,
              length-replicate n_img tok,
            )))
    | inr some_slots ↦
        let not_zero : count_slots tok lang ≢ 0 = ground (arith, some_slots) in
        let not_all : count_slots tok lang ≢ n_img = ground (arith, partial) in
        rw (partial, some_slots, build_prompt) (inr (refl, inl (not_zero, not_all)))
  ]
]

pub build_prompt-positions :
    (lang : List ℤ) (n_img : ℕ) (tok : ℤ) (max_seq : ℕ)
    → (build_prompt lang n_img tok max_seq).1 ≡ true
    → let p = (build_prompt lang n_img tok max_seq).0 in p.image_pos ≡ (positions tok 0 p.ids).0
unfolding build_prompt place_ids
build_prompt-positions lang n_img tok max_seq built =
    elim (Option-cases (build_ids lang n_img tok)) [
      | inl bad ↦ absurd (cc (rw (build_prompt, bad) at built))
      | inr (ids, good) ↦ elim (Bool-cases (ltb max_seq (length ids))) [
        | inl long ↦ absurd (cc (rw (build_prompt, good, place_ids, long) at built))
        | inr short ↦ rw (build_prompt, good, place_ids, short) refl
      ]
    ]
