-- ===== src/Vlm/Chat/Streamed.antt =====
-- The streamed text of src/vlm/engine.cpp against the generated one.
use vla_cpp.Common.{
  ℕ, zero, suc, ◌+◌, ◌-◌, ◌≤◌, ◌≡◌, refl, sym, ap, ◌∙◌, inl, inr, ◌⊎◌, Bool, false, Option, some,
  List, [], ◌∷◌, ◌++◌, length, length-append, length-drop, take, drop, take-append-drop, get_or,
  leb, ltb, arith, Bool-cases,
}
use mathlib.Core.List.{append-nil, append_assoc}
use vla_cpp.Common.Int.{pos, eq_ℤ}
use vla_cpp.HfFetch.Names.{Str}
use vla_cpp.Vlm.Utf8.{is_continuation, char_length, scan_back, utf8_complete_prefix}
use vla_cpp.Vlm.Utf8.Cut.{joined}
use vla_cpp.Vlm.Chat.{Llama, Gen, cancelled, offer, advance, round, decode_loop}

char_length-le : (c : ℕ) → char_length c ≤ 4
unfolding char_length
char_length-le c = ground arith

scan_back_bounds :
    (left i : ℕ) (s : Str)
    → 1 ≤ i
    → (scan_back left i s ≤ length s) × (length s ≤ scan_back left i s + 3)
unfolding scan_back
scan_back_bounds zero i s h = (omega arith, omega arith)
scan_back_bounds (suc left) i s h =
    let c = get_or s (length s - i) 0 in
    let (earlier, later) = scan_back_bounds left (suc i) s (omega arith) in
    let four = char_length-le c in
    elim (Bool-cases (leb i (length s))) [
      | inr past ↦ rw (past, scan_back) (omega arith, omega arith)
      | inl inside ↦ elim (Bool-cases (is_continuation c)) [
        | inl middle ↦ rw (inside, middle, scan_back) (earlier, later)
        | inr lead ↦ elim (Bool-cases (ltb i (char_length c))) [
          | inl cut ↦ rw (inside, lead, cut, scan_back) (omega arith, ground arith)
          | inr whole ↦ rw (inside, lead, whole, scan_back) (omega arith, omega arith)
        ]
      ]
    ]

utf8_complete_prefix-bounds :
    (s : Str) → (utf8_complete_prefix s ≤ length s) × (length s ≤ utf8_complete_prefix s + 3)
unfolding utf8_complete_prefix
utf8_complete_prefix-bounds s = scan_back_bounds 4 1 s (omega arith)

-- A client that keeps what it is given, and may cancel.
abbrev pub keeping : (Str → Bool) → Option (Str → List Str → Bool × List Str)
keeping accept = some (λ piece log. (accept piece, log ++ piece ∷ []))

-- The pieces, put together, are the text but for at most three bytes.
abbrev pub IsStreamed : {C : Type 0} → Gen C (List Str) → Type 0
IsStreamed g = (joined g.client ++ g.pending ≡ g.text) × (length g.pending ≤ 3)

joined-append : (log : List Str) (piece : Str) → joined (log ++ piece ∷ []) ≡ joined log ++ piece
joined-append [] piece = append-nil piece
joined-append (x ∷ log) piece =
    ap (λ s. x ++ s) (joined-append log piece) ∙ sym (append_assoc x (joined log) piece)

module _ {K : Type 0} (llama : Llama K) (accept : Str → Bool) where
  open llama use {C}

  offer-joined :
      (n : ℕ) (pending : Str) (log : List Str)
      → joined (offer llama (keeping accept) n pending log).1 ≡ joined log ++ take n pending
  unfolding offer
  offer-joined zero pending log = sym (append-nil (joined log))
  offer-joined (suc n) pending log = joined-append log (take (suc n) pending)

  advance-IsStreamed :
      (tok : ℕ) (g : Gen C (List Str))
      → IsStreamed g
      → IsStreamed (advance llama (keeping accept) tok g).1
        × ((advance llama (keeping accept) tok g).1.generated ≡ g.generated)
  unfolding advance
  advance-IsStreamed tok g h =
      elim (Bool-cases (eq_ℤ (llama.decode tok g.n_past g.ctx).0 (pos 1))) [
        | inl full ↦ rw (full, advance) (h, refl)
        | inr room ↦ elim (Bool-cases (eq_ℤ (llama.decode tok g.n_past g.ctx).0 (pos 0))) [
          | inl fine ↦ rw (room, fine, advance) (h, refl)
          | inr bad ↦ rw (room, bad, advance) (h, refl)
        ]
      ]

  -- After a round: one token more, and the text is streamed unless the client cancelled.
  abbrev IsRound : Gen C (List Str) → Bool × Gen C (List Str) → Type 0
  IsRound g (goes_on, g') =
      ((goes_on ≡ false) × (g'.finish ≡ cancelled) ⊎ IsStreamed g')
      × (length g'.generated ≡ suc (length g.generated))

  grows : (generated : List ℕ) (tok : ℕ) → length (generated ++ tok ∷ []) ≡ suc (length generated)
  grows generated tok = omega (arith, length-append generated (tok ∷ []))

  shown_lem :
      (log : List Str) (pending piece text : Str) (n : ℕ)
      → joined log ++ pending ≡ text
      → n ≡ utf8_complete_prefix (pending ++ piece)
      → (joined (offer llama (keeping accept) n (pending ++ piece) log).1
            ++ drop n (pending ++ piece)
          ≡ text ++ piece)
        × (length (drop n (pending ++ piece)) ≤ 3)
  shown_lem log pending piece text n e m = (
    rw (offer-joined n (pending ++ piece) log) (
        append_assoc (joined log) (take n (pending ++ piece)) (drop n (pending ++ piece))
        ∙ ap (λ s. joined log ++ s) (take-append-drop n (pending ++ piece))
        ∙ sym (append_assoc (joined log) pending piece)
        ∙ ap (λ s. s ++ piece) e),
    omega (
      arith,
      length-drop n (pending ++ piece),
      utf8_complete_prefix-bounds (pending ++ piece),
      m,
    ),
  )

  round-IsRound : (g : Gen C (List Str)) → IsStreamed g → IsRound g (round llama (keeping accept) g)
  unfolding round
  round-IsRound g (e, small) =
      let (tok, ctx) = llama.sample g.ctx in
      let piece = llama.token_to_piece ctx tok in
      let pending = g.pending ++ piece in
      let n = utf8_complete_prefix pending in
      let one = grows g.generated tok in
      let (streamed, rest) = shown_lem g.client g.pending piece g.text n e refl in
      let shown : Gen C (List Str) = record {
        ctx = ctx;
        client = (offer llama (keeping accept) n pending g.client).1;
        n_past = g.n_past;
        text = g.text ++ piece;
        pending = drop n pending;
        generated = g.generated ++ tok ∷ [];
        finish = g.finish;
      } in
      elim (Bool-cases (llama.is_eog tok)) [
        | inl end ↦ rw (end, round) (inr (e, small), one)
        | inr word ↦ elim (Bool-cases (offer llama (keeping accept) n pending g.client).0) [
          | inr refused ↦ rw (word, refused, round) (inl (refl, refl), one)
          | inl taken ↦
              let (h, same) = advance-IsStreamed tok shown (streamed, rest) in
              rw (word, taken, round) (inr h, ap length same ∙ one)
        ]
      ]

  -- A client that keeps the pieces that it is given has the generated text, but for at most three
  -- bytes at its end, or it cancelled; and no more tokens are generated than the loop has rounds.
  pub decode_loop-IsStreamed :
      (rounds : ℕ) (g : Gen C (List Str))
      → IsStreamed g
      → (((decode_loop llama (keeping accept) rounds g).finish ≡ cancelled)
          ⊎ IsStreamed (decode_loop llama (keeping accept) rounds g))
        × (length (decode_loop llama (keeping accept) rounds g).generated
            ≤ length g.generated + rounds)
  unfolding decode_loop
  decode_loop-IsStreamed zero g h = (inr h, omega arith)
  decode_loop-IsStreamed (suc rounds) g h =
      let g' = (round llama (keeping accept) g).1 in
      let (after, one) = round-IsRound g h in
      elim (Bool-cases (round llama (keeping accept) g).0) [
        | inr ends ↦
            rw (ends, decode_loop)
              (
                elim after [ inl over ↦ inl over.1 | inr streamed ↦ inr streamed ],
                omega (arith, one),
              )
        | inl goes_on ↦ elim after [
          | inl over ↦ absurd (ground (arith, over.0, goes_on))
          | inr streamed ↦
              let (rest, count) = decode_loop-IsStreamed rounds g' streamed in
              rw (goes_on, decode_loop) (rest, omega (arith, count, one))
        ]
      ]
