-- ===== src/Loader/Padded.antt =====
-- The padding of a weight in src/loader.cpp: the rows of the file, each with zeros behind it, and rows of
-- zeros.
use vla_cpp.Common.{
  ℕ, zero, suc, ◌+◌, ◌-◌, ◌*◌, ◌≤◌, ◌≡◌, sym, ap, ◌∙◌, [], ◌∷◌, ◌++◌, length, length-append,
  length-take, length-drop, length-replicate, take, drop, replicate, write_at, write_at-append,
  arith,
}
use mathlib.Core.List.{append_assoc}
use vla_cpp.HfFetch.Names.{Str}
use vla_cpp.Gguf.{Reader, Codec, TensorType, Tensor}
use vla_cpp.Loader.{Ggml}
use vla_cpp.Loader.Upload.{pad_rows, padded_bytes}

replicate-add : (a b : ℕ) → replicate {A = ℕ} (a + b) 0 ≡ replicate a 0 ++ replicate b 0
replicate-add zero b = let same : 0 + b ≡ b = omega arith in ap (λ n. replicate n 0) same
replicate-add (suc a) b =
    let same : suc a + b ≡ suc (a + b) = omega arith in
    ap (λ n. replicate n 0) same ∙ ap (λ l. 0 ∷ l) (replicate-add a b)

-- The rows from the `r`th on, with zeros up to `rp`.
abbrev pub rows_padded : ℕ → ℕ → Str → ℕ → ℕ → Str
rows_padded rs rp out zero r = []
rows_padded rs rp out (suc left) r =
    (take rs (drop (r * rs) out) ++ replicate (rp - rs) 0) ++ rows_padded rs rp out left (suc r)

module _ (rs rp : ℕ) (out : Str) (wider : rs ≤ rp) where
  -- A row written over the zeros of its place.
  row_written :
      (r rest : ℕ) (before : Str)
      → length before ≡ r * rp
      → (r * rs) + rs ≤ length out
      → write_at (r * rp) (take rs (drop (r * rs) out)) (before ++ replicate (rp + rest) 0)
        ≡ (before ++ (take rs (drop (r * rs) out) ++ replicate (rp - rs) 0)) ++ replicate rest 0
  row_written r rest before e enough =
      let row = take rs (drop (r * rs) out) in
      let full : length row ≡ rs =
        omega (arith, enough, length-take rs (drop (r * rs) out), length-drop (r * rs) out) in
      let parts : rp + rest ≡ rs + ((rp - rs) + rest) = omega (arith, wider) in
      let zeros : replicate {A = ℕ} (rp + rest) 0
          ≡ replicate rs 0 ++ (replicate (rp - rs) 0 ++ replicate rest 0) =
        ap (λ n. replicate n 0) parts
        ∙ replicate-add rs ((rp - rs) + rest)
        ∙ ap (λ l. replicate rs 0 ++ l) (replicate-add (rp - rs) rest) in
      ap (λ l. write_at (r * rp) row (before ++ l)) zeros
      ∙ write_at-append (r * rp) before (replicate rs 0) (replicate (rp - rs) 0 ++ replicate rest 0)
          row e (length-replicate rs 0 ∙ sym full)
      ∙ ap (λ l. before ++ l) (sym (append_assoc row (replicate (rp - rs) 0) (replicate rest 0)))
      ∙ sym (append_assoc before (row ++ replicate (rp - rs) 0) (replicate rest 0))

  pad_rows-rows_padded :
      (left r rest : ℕ) (before : Str)
      → length before ≡ r * rp
      → (r + left) * rs ≤ length out
      → pad_rows rs rp out left r (before ++ replicate (left * rp + rest) 0)
        ≡ before ++ (rows_padded rs rp out left r ++ replicate rest 0)
  unfolding pad_rows
  pad_rows-rows_padded zero r rest before e enough =
      let same : 0 * rp + rest ≡ rest = omega arith in ap (λ n. before ++ replicate n 0) same
  pad_rows-rows_padded (suc left) r rest before e enough =
      let block = take rs (drop (r * rs) out) ++ replicate (rp - rs) 0 in
      let here : (r * rs) + rs ≤ length out = grind (arith, enough) in
      let full : length block ≡ rp = omega (
        arith,
        here,
        wider,
        length-append (take rs (drop (r * rs) out)) (replicate (rp - rs) 0),
        length-take rs (drop (r * rs) out),
        length-drop (r * rs) out,
        length-replicate {A = ℕ} (rp - rs) 0,
      ) in
      let parts : suc left * rp + rest ≡ rp + (left * rp + rest) = grind arith in
      let next : length (before ++ block) ≡ suc r * rp =
        grind (arith, length-append before block, full, e) in
      ap
        (λ n.
          pad_rows rs rp out left (suc r)
            (write_at (r * rp) (take rs (drop (r * rs) out)) (before ++ replicate n 0)))
        parts
      ∙ ap (pad_rows rs rp out left (suc r)) (row_written r (left * rp + rest) before e here)
      ∙ pad_rows-rows_padded left (suc r) rest (before ++ block) next (grind (arith, enough))
      ∙ append_assoc before block (rows_padded rs rp out left (suc r) ++ replicate rest 0)
      ∙ ap (λ l. before ++ l)
          (sym (append_assoc block (rows_padded rs rp out left (suc r)) (replicate rest 0)))

rows_split : (rp n m : ℕ) → n ≤ m → rp * m ≡ n * rp + (m - n) * rp
rows_split rp n m h =
    let whole : m ≡ n + (m - n) = omega (arith, h) in ap (λ (k : ℕ). rp * k) whole ∙ grind arith

-- The bytes of a padded weight are the file's rows in order, each followed by zeros up to the new width,
-- and then zeros for the rows that the file does not have.
pub padded_bytes-rows_padded :
    {F : Type 0} (gg : Ggml F) (g : Reader F) (codec : Codec F) (type_ : TensorType) (src : Tensor)
    (p : ℕ × ℕ) (out : Str)
    → gg.row_size type_ src.ne0 ≤ gg.row_size type_ p.0
    → src.ne1 ≤ p.1
    → length out ≡ src.ne1 * gg.row_size type_ src.ne0
    → padded_bytes gg g codec type_ src p out
      ≡ rows_padded (gg.row_size type_ src.ne0) (gg.row_size type_ p.0) out src.ne1 0
        ++ replicate ((p.1 - src.ne1) * gg.row_size type_ p.0) 0
unfolding padded_bytes
padded_bytes-rows_padded gg g codec type_ src p out wider taller e =
    let rp = gg.row_size type_ p.0 in
    let parts : rp * p.1 ≡ src.ne1 * rp + (p.1 - src.ne1) * rp = rows_split rp src.ne1 p.1 taller in
    ap (λ n. pad_rows (gg.row_size type_ src.ne0) rp out src.ne1 0 (replicate n 0)) parts
    ∙ pad_rows-rows_padded (gg.row_size type_ src.ne0) rp out wider src.ne1 0 ((p.1 - src.ne1) * rp)
        [] (omega arith) (grind (arith, e))
