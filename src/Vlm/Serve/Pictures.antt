-- ===== src/Vlm/Serve/Pictures.antt =====
-- The engine's own test of the pictures, against the checks of src/serving/vlm-server.cpp.
use vla_cpp.Common.{
  ℕ, ◌*◌, ◌%◌, ◌^◌, ◌≤◌, ◌≡◌, refl, sym, ◌∙◌, false, List, [], ◌∷◌, length, All, ok, arith,
}
use vla_cpp.Serving.Decode.{Stb, size_mul}
use vla_cpp.Vlm.{ChatRequest, Picture}
use vla_cpp.Vlm.Request.{check_request}
use vla_cpp.Vlm.Request.Bounded.{IsHonest, IsFilled, check_request-AreBounded}
use vla_cpp.Vlm.Chat.{any_bad_rgb}

area_bound : (w h : ℕ) → w ≤ 8192 → h ≤ 8192 → w * h ≤ 2 ^ 26
area_bound w h p q = grind arith

size_lem : (w h : ℕ) → w ≤ 8192 → h ≤ 8192 → size_mul (size_mul w h) 3 ≡ 3 * w * h
unfolding size_mul
size_lem w h p q =
    let area = area_bound w h p q in
    let one : w * h % 2 ^ 64 ≡ w * h = omega (arith, area) in
    let two : w * h * 3 % 2 ^ 64 ≡ w * h * 3 = omega (arith, area) in rw (one, two) (grind arith)

fills_lem : (ps : List Picture) → All IsFilled ps → any_bad_rgb ps ≡ false
unfolding any_bad_rgb
fills_lem [] h = refl
fills_lem (p ∷ ps) ((w, h, full), rest) =
    let exact : length p.rgb ≡ size_mul (size_mul p.width p.height) 3 =
      full ∙ sym (size_lem p.width p.height w.1 h.1) in
    ground (arith, exact, fills_lem ps rest)

-- The pictures of a request that passes the server's checks always pass the engine's: its error on
-- the size of a picture never comes. It assumes that the JPEG decoder gives the size that its
-- header announced, filled.
pub any_bad_rgb-check_request :
    {K : Type 0} (stb : Stb)
    → IsHonest stb
    → (req : ChatRequest K) (ps : List Picture) → check_request stb req ≡ ok ps
    → any_bad_rgb ps ≡ false
any_bad_rgb-check_request stb honest req ps e =
    fills_lem ps (check_request-AreBounded stb honest req ps e).0
