-- ===== src/Vlm/Utf8.antt =====
-- utf8_complete_prefix of src/vlm/engine.cpp: how many bytes of a text can be shown without cutting a
-- character. `(c & 0xE0) == 0xC0` of a byte is `c / 32 == 6`, and so on.
pub mod Cut
use vla_cpp.Common.{
  ℕ, zero, suc, ◌+◌, ◌-◌, ◌/◌, Bool, List, length, get_or, ltb, leb, ◌==◌, if◌then◌else◌,
}
use vla_cpp.HfFetch.Names.{Str}

unfoldable pub is_continuation : ℕ → Bool
is_continuation c = c / 64 == 2

-- The length of the character that starts with a byte.
unfoldable pub char_length : ℕ → ℕ
char_length c =
    if c / 32 == 6 then 2 else (if c / 16 == 14 then 3 else (if c / 8 == 30 then 4 else 1))

-- The loop from `i`, with the rounds left.
unfoldable pub scan_back : ℕ → ℕ → Str → ℕ
unfolding is_continuation char_length
scan_back zero i s = length s
scan_back (suc left) i s =
    let c = get_or s (length s - i) 0 in
    let earlier = scan_back left (suc i) s in
    if leb i (length s)
    then (if is_continuation c
        then earlier
        else (if ltb i (char_length c) then length s - i else length s))
    else length s

unfoldable pub utf8_complete_prefix : Str → ℕ
unfolding scan_back
utf8_complete_prefix s = scan_back 4 1 s
