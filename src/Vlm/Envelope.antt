-- ===== src/Vlm/Envelope.antt =====
-- The receiving of one message in src/serving/vlm-server.cpp: the frames of the ROUTER envelope and the
-- payload.
pub mod Boundary
use vla_cpp.Common.{
  ℕ, ◌+◌, ◌*◌, ◌%◌, ◌^◌, Bool, true, false, not, ◌||◌, Option, none, some, List, [], ◌∷◌, ◌++◌,
  length, ltb, leb, if◌then◌else◌,
}
use vla_cpp.HfFetch.Names.{Str}

abbrev pub max_env_frames : ℕ
max_env_frames = 8

abbrev pub max_env_bytes : ℕ
max_env_bytes = 64 * 1024

-- What a `recv` gives: a frame and the socket's rcvmore after it, or nothing (also for an error).
pub data Part : Type 0 where
  failed : Part
  frame : (bytes : Str) (more : Bool) → Part

pub record Receiving : Type 0 where
  pub env : List Str
  pub env_bytes : ℕ
  pub env_overflow : Bool
  pub recv_ok : Bool
  pub payload : Option Str

abbrev pub start : Receiving
start = record { env = []; env_bytes = 0; env_overflow = false; recv_ok = true; payload = none }

-- A frame with more behind it; `env_bytes` is a size_t.
unfoldable pub add_frame : Str → Receiving → Receiving
add_frame bytes r =
    let total = (r.env_bytes + length bytes) % 2 ^ 64 in
    if leb max_env_frames (length r.env) || ltb max_env_bytes total
    then (record r { env_bytes = total; env_overflow = true })
    else (record r { env_bytes = total; env = r.env ++ bytes ∷ [] })

-- The loop, over what the calls of `recv` give; and what is left for the next message.
unfoldable pub receive_parts : List Part → Receiving → Receiving × List Part
unfolding add_frame
receive_parts [] r = (record r { recv_ok = false }, [])
receive_parts (failed ∷ parts) r = (record r { recv_ok = false }, parts)
receive_parts (frame bytes true ∷ parts) r = receive_parts parts (add_frame bytes r)
receive_parts (frame bytes false ∷ parts) r = (record r { payload = some bytes }, parts)

unfoldable pub is_no_frames : List Str → Bool
is_no_frames [] = true
is_no_frames (f ∷ fs) = false

-- The envelope and the payload of a message that is not dropped.
unfoldable pub accepted : Receiving → Option (List Str × Str)
unfolding is_no_frames
accepted r = elim r.payload [
  | none ↦ none
  | some payload ↦
      if r.env_overflow || not r.recv_ok || is_no_frames r.env then none else some (r.env, payload)
]

unfoldable pub receive : List Part → Option (List Str × Str) × List Part
unfolding receive_parts accepted
receive parts = let (r, rest) = receive_parts parts start in (accepted r, rest)
