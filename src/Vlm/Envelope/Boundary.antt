-- ===== src/Vlm/Envelope/Boundary.antt =====
-- Receiving in src/serving/vlm-server.cpp takes one whole message, however large its envelope is.
use vla_cpp.Common.{
  ℕ, ◌+◌, ◌%◌, ◌^◌, ◌<◌, ◌≡◌, refl, ap, inl, inr, Bool, true, false, not, ◌||◌, ◌&&◌, none, some,
  List, [], ◌∷◌, ◌++◌, map, length, length-append, ltb, leb, if◌then◌else◌, arith, Bool-cases,
}
use mathlib.Core.List.{append-nil, append_assoc}
use vla_cpp.HfFetch.Names.{Str}
use vla_cpp.Vlm.Envelope.{
  max_env_frames, max_env_bytes, Part, frame, Receiving, start, add_frame, receive_parts,
  is_no_frames, accepted, receive,
}

-- A message: the frames of its envelope, and the payload.
abbrev pub message_of : List Str → Str → List Part
message_of env payload = map (λ f. frame f true) env ++ frame payload false ∷ []

abbrev pub total_bytes : List Str → ℕ
total_bytes [] = 0
total_bytes (f ∷ fs) = length f + total_bytes fs

abbrev pub is_small : List Str → Bool
is_small env =
    not (is_no_frames env) && leb (length env) max_env_frames && leb (total_bytes env) max_env_bytes

-- What the loop holds after the frames `taken`.
abbrev IsAfter : List Str → Receiving → Type 0
IsAfter taken r =
    (r.env_bytes ≡ total_bytes taken)
    × (r.recv_ok ≡ true)
    × (r.payload ≡ none)
    × (r.env_overflow
        ≡ not (leb (length taken) max_env_frames && leb (total_bytes taken) max_env_bytes))
    × (r.env_overflow ≡ false → r.env ≡ taken)

total_bytes-append :
    (xs : List Str) (f : Str) → total_bytes (xs ++ f ∷ []) ≡ total_bytes xs + length f
total_bytes-append [] f = omega arith
total_bytes-append (x ∷ xs) f = omega (arith, total_bytes-append xs f)

total_bytes-append_all :
    (xs ys : List Str) → total_bytes (xs ++ ys) ≡ total_bytes xs + total_bytes ys
total_bytes-append_all [] ys = omega arith
total_bytes-append_all (x ∷ xs) ys = omega (arith, total_bytes-append_all xs ys)

-- The test for n + 1 frames with b + k bytes, from the one for n frames with b bytes.
over_next :
    (o : Bool) (n n' b b' k l : ℕ)
    → n' ≡ n + 1
    → b' ≡ b + k
    → o ≡ not (leb n max_env_frames && leb b max_env_bytes)
    → (o ≡ false → l ≡ n)
    → (leb max_env_frames l || ltb max_env_bytes b') ≡ true
    → true ≡ not (leb n' max_env_frames && leb b' max_env_bytes)
over_next true n n' b b' k l c s h e t = ground arith
over_next false n n' b b' k l c s h e t = let same = e refl in ground arith

room_next :
    (o : Bool) (n n' b b' k l : ℕ)
    → n' ≡ n + 1
    → b' ≡ b + k
    → o ≡ not (leb n max_env_frames && leb b max_env_bytes)
    → (o ≡ false → l ≡ n)
    → (leb max_env_frames l || ltb max_env_bytes b') ≡ false
    → o ≡ not (leb n' max_env_frames && leb b' max_env_bytes)
room_next true n n' b b' k l c s h e t = ground arith
room_next false n n' b b' k l c s h e t = let same = e refl in ground arith

add_frame-IsAfter :
    (taken : List Str) (f : Str) (r : Receiving)
    → total_bytes (taken ++ f ∷ []) < 2 ^ 64
    → IsAfter taken r
    → IsAfter (taken ++ f ∷ []) (add_frame f r)
unfolding add_frame
add_frame-IsAfter taken f r small (b, k, p, o, e) =
    let total : (r.env_bytes + length f) % 2 ^ 64 ≡ total_bytes (taken ++ f ∷ []) =
      omega (arith, small, b, total_bytes-append taken f) in
    let sum = total_bytes-append taken f in
    let count : length (taken ++ f ∷ []) ≡ length taken + 1 = length-append taken (f ∷ []) in
    elim (Bool-cases
      (leb max_env_frames (length r.env) || ltb max_env_bytes (total_bytes (taken ++ f ∷ [])))) [
        | inl over ↦
            rw (total, add_frame, over)
              (
                refl,
                k,
                p,
                over_next r.env_overflow (length taken) _ (total_bytes taken) _ (length f)
                    (length r.env) count sum o (λ h. ap length (e h)) over,
                λ h. absurd (ground arith),
              )
        | inr room ↦
            rw (total, add_frame, room)
              (
                refl,
                k,
                p,
                room_next r.env_overflow (length taken) _ (total_bytes taken) _ (length f)
                    (length r.env) count sum o (λ h. ap length (e h)) room,
                λ h. rw (e h) refl,
              )
      ]

receive_parts-message_of :
    (taken env : List Str) (payload : Str) (rest : List Part) (r : Receiving)
    → total_bytes (taken ++ env) < 2 ^ 64
    → IsAfter taken r
    → (r' : Receiving) × (receive_parts (message_of env payload ++ rest) r
        ≡ (record r' { payload = some payload }, rest))
      × IsAfter (taken ++ env) r'
unfolding receive_parts
receive_parts-message_of taken [] payload rest r small h = (r, refl, rw (append-nil taken) h)
receive_parts-message_of taken (f ∷ env) payload rest r small h =
    let split = append_assoc taken (f ∷ []) env in
    let whole : total_bytes ((taken ++ f ∷ []) ++ env) < 2 ^ 64 = rw split small in
    let part : total_bytes (taken ++ f ∷ []) < 2 ^ 64 =
      omega (arith, whole, total_bytes-append_all (taken ++ f ∷ []) env) in
    let (r', e, a) =
      receive_parts-message_of (taken ++ f ∷ []) env payload rest (add_frame f r) whole
        (add_frame-IsAfter taken f r part h) in
    (r', e, rw split at a)

flip : {A : Type 0} (a b : A) (c : Bool) → (if c then a else b) ≡ (if not c then b else a)
flip a b true = refl
flip a b false = refl

accepted_small :
    (r : Receiving) (env : List Str) (payload : Str)
    → IsAfter env r
    → accepted (record r { payload = some payload })
      ≡ (if is_small env then some (env, payload) else none)
unfolding accepted
accepted_small r env payload (b, k, p, o, same) =
    let fits = leb (length env) max_env_frames && leb (total_bytes env) max_env_bytes in
    elim (Bool-cases r.env_overflow) [
      | inl over ↦
          let large : is_small env ≡ false = ground (arith, o, over) in rw (over, large) refl
      | inr room ↦
          let small : is_small env ≡ not (is_no_frames env) = ground (arith, o, room) in
          rw (room, k, same room, small) (flip _ _ (is_no_frames env))
    ]

-- Whatever the envelope, exactly the message is taken from the socket; and it is kept, unchanged,
-- exactly if its envelope has one to 8 frames and at most 64 KiB. It assumes that the bytes of the
-- envelope can be counted in 64 bits.
pub receive-message_of :
    (env : List Str) (payload : Str) (rest : List Part)
    → total_bytes env < 2 ^ 64
    → receive (message_of env payload ++ rest)
      ≡ ((if is_small env then some (env, payload) else none), rest)
unfolding receive accepted
receive-message_of env payload rest small =
    let (r, e, (b, k, p, o, same)) =
      receive_parts-message_of [] env payload rest start small
        (refl, refl, refl, refl, λ h. refl) in
    rw e (ap (λ x. (x, rest)) (accepted_small r env payload (b, k, p, o, same)))
