-- ===== src/Vlm/Utf8/Cut.antt =====
-- utf8_complete_prefix of src/vlm/engine.cpp on a UTF-8 text that may be cut inside a character.
use vla_cpp.Common.{
  ℕ, suc, ◌+◌, ◌-◌, ◌≤◌, ◌<◌, ◌≡◌, ◌≢◌, refl, ap, ◌∙◌, true, false, List, [], ◌∷◌, ◌++◌, length,
  length-append, get_or, ltb, leb, if◌then◌else◌, arith, All,
}
use mathlib.Core.List.{append-nil, append_assoc}
use vla_cpp.HfFetch.Names.{Str}
use vla_cpp.Vlm.Utf8.{is_continuation, char_length, scan_back, utf8_complete_prefix}

abbrev pub IsMiddle : ℕ → Type 0
IsMiddle c = (128 ≤ c) × (c < 192)

-- A character of UTF-8 by the number of its bytes.
abbrev pub IsChar : Str → Type 0
IsChar (a ∷ []) = a < 128
IsChar (a ∷ b ∷ []) = ((192 ≤ a) × (a < 224)) × IsMiddle b
IsChar (a ∷ b ∷ c ∷ []) = ((224 ≤ a) × (a < 240)) × IsMiddle b × IsMiddle c
IsChar (a ∷ b ∷ c ∷ d ∷ []) = ((240 ≤ a) × (a < 248)) × IsMiddle b × IsMiddle c × IsMiddle d
IsChar _ = ⊥

-- The first bytes of a character of which some are missing.
abbrev pub IsCutChar : Str → Type 0
IsCutChar [] = Unit
IsCutChar (a ∷ []) = (192 ≤ a) × (a < 248)
IsCutChar (a ∷ b ∷ []) = ((224 ≤ a) × (a < 248)) × IsMiddle b
IsCutChar (a ∷ b ∷ c ∷ []) = ((240 ≤ a) × (a < 248)) × IsMiddle b × IsMiddle c
IsCutChar _ = ⊥

abbrev pub joined : List Str → Str
joined [] = []
joined (c ∷ cs) = c ++ joined cs

get_or-append : (xs ys : Str) (k : ℕ) → get_or (xs ++ ys) (length xs + k) 0 ≡ get_or ys k 0
get_or-append [] ys k = ap (λ i. get_or ys i 0) (omega arith)
get_or-append (x ∷ xs) ys k =
    let next : suc (length xs) + k ≡ suc (length xs + k) = omega arith in
    ap (λ i. get_or (x ∷ (xs ++ ys)) i 0) next ∙ get_or-append xs ys k

-- The byte `i` places from the end.
from_end :
    (xs ys : Str) (i : ℕ)
    → i ≤ length ys
    → get_or (xs ++ ys) (length (xs ++ ys) - i) 0 ≡ get_or ys (length ys - i) 0
from_end xs ys i h =
    let here : length (xs ++ ys) - i ≡ length xs + (length ys - i) =
      omega (arith, length-append xs ys, h) in
    rw here (get_or-append xs ys (length ys - i))

middle_lem : (c : ℕ) → IsMiddle c → is_continuation c ≡ true
unfolding is_continuation
middle_lem c h = ground arith

lead1 : (a : ℕ) → a < 128 → (is_continuation a ≡ false) × (char_length a ≡ 1)
unfolding is_continuation char_length
lead1 a h = (ground arith, ground arith)

lead2 : (a : ℕ) → (192 ≤ a) → (a < 224) → (is_continuation a ≡ false) × (char_length a ≡ 2)
unfolding is_continuation char_length
lead2 a h k = (ground arith, ground arith)

lead3 : (a : ℕ) → (224 ≤ a) → (a < 240) → (is_continuation a ≡ false) × (char_length a ≡ 3)
unfolding is_continuation char_length
lead3 a h k = (ground arith, ground arith)

lead4 : (a : ℕ) → (240 ≤ a) → (a < 248) → (is_continuation a ≡ false) × (char_length a ≡ 4)
unfolding is_continuation char_length
lead4 a h k = (ground arith, ground arith)

lead_cut1 :
    (a : ℕ) → (192 ≤ a) → (a < 248) → (is_continuation a ≡ false) × (ltb 1 (char_length a) ≡ true)
unfolding is_continuation char_length
lead_cut1 a h k = (ground arith, ground arith)

lead_cut2 :
    (a : ℕ) → (224 ≤ a) → (a < 248) → (is_continuation a ≡ false) × (ltb 2 (char_length a) ≡ true)
unfolding is_continuation char_length
lead_cut2 a h k = (ground arith, ground arith)

-- One round of the loop: a middle byte goes on, another byte decides.
goes_back :
    (left i : ℕ) (xs ys : Str) (c : ℕ)
    → i ≤ length ys
    → get_or ys (length ys - i) 0 ≡ c
    → is_continuation c ≡ true
    → scan_back (suc left) i (xs ++ ys) ≡ scan_back left (suc i) (xs ++ ys)
unfolding scan_back
goes_back left i xs ys c h e m =
    let long : leb i (length (xs ++ ys)) ≡ true = ground (arith, length-append xs ys) in
    rw (long, from_end xs ys i h, e, m) refl

decides :
    (left i n : ℕ) (xs ys : Str) (c : ℕ)
    → i ≤ length ys
    → get_or ys (length ys - i) 0 ≡ c
    → (is_continuation c ≡ false) × (char_length c ≡ n)
    → scan_back (suc left) i (xs ++ ys)
      ≡ (if ltb i n then length (xs ++ ys) - i else length (xs ++ ys))
unfolding scan_back
decides left i n xs ys c h e (m, l) =
    let long : leb i (length (xs ++ ys)) ≡ true = ground (arith, length-append xs ys) in
    rw (long, from_end xs ys i h, e, m, l) refl

length-cut : (xs ys : Str) (n : ℕ) → length ys ≡ n → length (xs ++ ys) - n ≡ length xs
length-cut xs ys n h = omega (arith, length-append xs ys)

-- After whole characters, a cut character is left out.
cut_lem :
    (xs cut : Str) → IsCutChar cut → length cut ≢ 0 → utf8_complete_prefix (xs ++ cut) ≡ length xs
unfolding utf8_complete_prefix
cut_lem xs [] h k = absurd (k refl)
cut_lem xs (a ∷ []) h k =
    let (lead, more) = lead_cut1 a h.0 h.1 in
    decides 3 1 (char_length a) xs (a ∷ []) a (omega arith) refl (lead, refl)
    ∙ rw more (length-cut xs (a ∷ []) 1 refl)
cut_lem xs (a ∷ b ∷ []) (h, m) k =
    let (lead, more) = lead_cut2 a h.0 h.1 in
    goes_back 3 1 xs (a ∷ b ∷ []) b (omega arith) refl (middle_lem b m)
    ∙ decides 2 2 (char_length a) xs (a ∷ b ∷ []) a (omega arith) refl (lead, refl)
    ∙ rw more (length-cut xs (a ∷ b ∷ []) 2 refl)
cut_lem xs (a ∷ b ∷ c ∷ d ∷ rest) h k = absurd h
cut_lem xs (a ∷ b ∷ c ∷ []) (h, m, m') k =
    goes_back 3 1 xs (a ∷ b ∷ c ∷ []) c (omega arith) refl (middle_lem c m')
    ∙ goes_back 2 2 xs (a ∷ b ∷ c ∷ []) b (omega arith) refl (middle_lem b m)
    ∙ decides 1 3 4 xs (a ∷ b ∷ c ∷ []) a (omega arith) refl (lead4 a h.0 h.1)
    ∙ length-cut xs (a ∷ b ∷ c ∷ []) 3 refl

-- After a whole character, nothing is left out.
whole_lem : (xs char : Str) → IsChar char → utf8_complete_prefix (xs ++ char) ≡ length (xs ++ char)
unfolding utf8_complete_prefix
whole_lem xs [] h = absurd h
whole_lem xs (a ∷ b ∷ c ∷ d ∷ e ∷ rest) h = absurd h
whole_lem xs (a ∷ []) h = decides 3 1 1 xs (a ∷ []) a (omega arith) refl (lead1 a h)
whole_lem xs (a ∷ b ∷ []) (h, m) =
    goes_back 3 1 xs (a ∷ b ∷ []) b (omega arith) refl (middle_lem b m)
    ∙ decides 2 2 2 xs (a ∷ b ∷ []) a (omega arith) refl (lead2 a h.0 h.1)
whole_lem xs (a ∷ b ∷ c ∷ []) (h, m, m') =
    goes_back 3 1 xs (a ∷ b ∷ c ∷ []) c (omega arith) refl (middle_lem c m')
    ∙ goes_back 2 2 xs (a ∷ b ∷ c ∷ []) b (omega arith) refl (middle_lem b m)
    ∙ decides 1 3 3 xs (a ∷ b ∷ c ∷ []) a (omega arith) refl (lead3 a h.0 h.1)
whole_lem xs (a ∷ b ∷ c ∷ d ∷ []) (h, m, m', m'') =
    goes_back 3 1 xs (a ∷ b ∷ c ∷ d ∷ []) d (omega arith) refl (middle_lem d m'')
    ∙ goes_back 2 2 xs (a ∷ b ∷ c ∷ d ∷ []) c (omega arith) refl (middle_lem c m')
    ∙ goes_back 1 3 xs (a ∷ b ∷ c ∷ d ∷ []) b (omega arith) refl (middle_lem b m)
    ∙ decides 0 4 4 xs (a ∷ b ∷ c ∷ d ∷ []) a (omega arith) refl (lead4 a h.0 h.1)

nothing : utf8_complete_prefix [] ≡ 0
unfolding utf8_complete_prefix
nothing = refl

wholes_lem :
    (xs char : Str) (chars : List Str)
    → All IsChar (char ∷ chars)
    → utf8_complete_prefix (xs ++ joined (char ∷ chars)) ≡ length (xs ++ joined (char ∷ chars))
wholes_lem xs char [] (h, t) = rw (append-nil char) (whole_lem xs char h)
wholes_lem xs char (next ∷ chars) (h, k) =
    rw (← append_assoc xs char (joined (next ∷ chars))) (wholes_lem (xs ++ char) next chars k)

-- A UTF-8 text that is cut anywhere: the prefix is its whole characters, and all that is left out is
-- the cut character.
pub utf8_complete_prefix-joined :
    (chars : List Str) (cut : Str)
    → All IsChar chars
    → IsCutChar cut
    → utf8_complete_prefix (joined chars ++ cut) ≡ length (joined chars)
utf8_complete_prefix-joined chars (a ∷ cut) h k = cut_lem (joined chars) (a ∷ cut) k (ground arith)
utf8_complete_prefix-joined [] [] h k = nothing
utf8_complete_prefix-joined (char ∷ chars) [] h k =
    rw (append-nil (joined (char ∷ chars))) (wholes_lem [] char chars h)
