-- ===== src/Gguf/Fetched.antt =====
-- Fetching rows of a tensor in src/gguf_reader.h, against the bytes of the whole tensor.
use vla_cpp.Common.{
  ℕ, zero, suc, ◌+◌, ◌*◌, ◌≤◌, ◌<◌, ◌≡◌, refl, sym, ap, ◌∙◌, inl, inr, Bool, true, false, ◌&&◌,
  none, some, List, [], ◌∷◌, ◌++◌, length, take, drop, leb, ltb, if◌then◌else◌, ltb→lt, Bool-cases,
  arith,
}
use vla_cpp.Common.Int.{ℤ, pos, negsuc}
use vla_cpp.HfFetch.Names.{Str}
use vla_cpp.Gguf.{Reader, Codec, read_at, fetch_row, fetch_loop}

drop_nil : (n : ℕ) → ◌≡◌ {A = Str} (drop n []) []
drop_nil zero = refl
drop_nil (suc n) = refl

drop-drop : (a b : ℕ) (xs : Str) → drop a (drop b xs) ≡ drop (b + a) xs
drop-drop a zero xs = let same : a ≡ 0 + a = omega arith in ap (λ n. drop n xs) same
drop-drop zero (suc b) xs = let same : suc b ≡ suc b + 0 = omega arith in ap (λ n. drop n xs) same
drop-drop (suc a) (suc b) [] = sym (drop_nil (suc b + suc a))
drop-drop (suc a) (suc b) (x ∷ xs) =
    let next : suc (b + suc a) ≡ suc b + suc a = omega arith in
    drop-drop (suc a) b xs ∙ ap (λ n. drop n (x ∷ xs)) next

take-drop-take :
    (n m k : ℕ) (xs : Str) → m + n ≤ k → take n (drop m (take k xs)) ≡ take n (drop m xs)
take-drop-take zero m k xs h = refl
take-drop-take (suc n) m zero xs h = absurd (omega (arith, h))
take-drop-take (suc n) m (suc k) [] h = refl
take-drop-take (suc n) zero (suc k) (x ∷ xs) h =
    ap (λ l. x ∷ l) (take-drop-take n zero k xs (omega (arith, h)))
take-drop-take (suc n) (suc m) (suc k) (x ∷ xs) h = take-drop-take (suc n) m k xs (omega (arith, h))

-- The bytes of a tensor of `count` rows of `rb` bytes, and of its row `r`.
abbrev pub tensor_bytes : Str → ℕ → ℕ → ℕ → Str
tensor_bytes content base rb count = take (count * rb) (drop base content)

abbrev pub row_bytes : Str → ℕ → ℕ → Str
row_bytes tensor rb r = take rb (drop (r * rb) tensor)

abbrev pub all_in : ℕ → List ℤ → Bool
all_in count [] = true
all_in count (pos r ∷ ids) = ltb r count && all_in count ids
all_in count (negsuc r ∷ ids) = false

abbrev pub index_of : ℤ → ℕ
index_of (pos r) = r
index_of (negsuc r) = 0

module _ {F : Type 0} (g : Reader F) (codec : Codec F) (from : Str → List F) (base rb count : ℕ)
    (reaches : (off : ℕ) → g.seekable off ≡ true)
    (whole : base + count * rb ≤ length g.content) where
  -- The rows, one after the other.
  abbrev pub rows_of : List ℤ → List F
  rows_of [] = []
  rows_of (r ∷ ids) =
      from (row_bytes (tensor_bytes g.content base rb count) rb (index_of r)) ++ rows_of ids

  inside : (r : ℕ) → r < count → (r * rb) + rb ≤ count * rb
  inside r h = grind (arith, h)

  fetch_row_in :
      (r : ℕ)
      → r < count
      → fetch_row g codec from base rb count (pos r)
        ≡ some (from (row_bytes (tensor_bytes g.content base rb count) rb r))
  unfolding fetch_row read_at
  fetch_row_in r h =
      let fits = inside r h in
      let enough : ltb (length g.content) (base + r * rb + rb) ≡ false = ground arith in
      let below : leb count r ≡ false = ground arith in
      let same : take rb (drop (base + r * rb) g.content)
          ≡ row_bytes (tensor_bytes g.content base rb count) rb r =
        ap (take rb) (sym (drop-drop (r * rb) base g.content))
        ∙ sym (take-drop-take rb (r * rb) (count * rb) (drop base g.content) fits) in
      rw (below, reaches (base + r * rb), enough, same) refl

  fetch_row_out :
      (r : ℕ) → ltb r count ≡ false → fetch_row g codec from base rb count (pos r) ≡ none
  unfolding fetch_row
  fetch_row_out r h = let over : leb count r ≡ true = ground arith in rw over refl

  -- For a tensor that lies within the file: the rows are exactly those of the tensor's own bytes, in
  -- the order of the ids, if every id is a row of it; and nothing is fetched otherwise.
  pub fetch_loop-rows_of :
      (ids : List ℤ)
      → fetch_loop g codec from base rb count ids
        ≡ (if all_in count ids then some (rows_of ids) else none)
  unfolding fetch_loop
  fetch_loop-rows_of [] = refl
  fetch_loop-rows_of (negsuc r ∷ ids) = refl
  fetch_loop-rows_of (pos r ∷ ids) = elim (Bool-cases (ltb r count)) [
    | inl below ↦ elim (Bool-cases (all_in count ids)) [
      | inl rest ↦
          rw
            (fetch_loop, fetch_row_in r (ltb→lt r count below), fetch_loop-rows_of ids, below, rest)
            refl
      | inr bad ↦
          rw (fetch_loop, fetch_row_in r (ltb→lt r count below), fetch_loop-rows_of ids, below, bad)
            refl
    ]
    | inr above ↦
        let refused : fetch_row g codec from base rb count (pos r) ≡ none = fetch_row_out r above in
        rw (fetch_loop, refused, above) refl
  ]
