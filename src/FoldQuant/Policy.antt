-- ===== src/FoldQuant/Policy.antt =====
-- How a loaded FoldQuant model is run: foldquant_check_backend of src/foldquant.cpp, and env_flag of
-- src/env_flag.h. Texts are lists of bytes; `build` says which parts are compiled in.
use vla_cpp.Common.{
  ◌≡◌, ◌↔◌, refl, Bool, true, false, not, ◌&&◌, ◌||◌, Option, none, some, [], ◌∷◌, take, drop,
  if◌then◌else◌, arith,
}
use vla_cpp.HfFetch.Names.{Str}
use vla_cpp.HfFetch.Names.Match.{hf_lower, str_eq, starts}

-- "0", "false", "off" and "no".
abbrev pub is_no : Str → Bool
is_no s =
    str_eq s (48 ∷ [])
    || str_eq s (102 ∷ 97 ∷ 108 ∷ 115 ∷ 101 ∷ [])
    || str_eq s (111 ∷ 102 ∷ 102 ∷ [])
    || str_eq s (110 ∷ 111 ∷ [])

abbrev pub is_empty : Str → Bool
is_empty [] = true
is_empty (c ∷ s) = false

-- `value` is that of the variable; the buffer takes its first seven bytes.
unfoldable pub env_flag : Bool → Option Str → Bool
unfolding hf_lower str_eq
env_flag def none = def
env_flag def (some v) =
    if is_empty v
    then false
    else (if not (is_empty (drop 7 v)) then true else not (is_no (hf_lower (take 7 v))))

-- A variable that is set is a switch that is on, unless its value is empty or, in any case of its
-- letters, one of the four words for no; that the buffer is short does not show.
pub env_flag-is_no :
    (def : Bool) (v : Str) → env_flag def (some v) ≡ not (is_empty v || is_no (hf_lower v))
unfolding env_flag
env_flag-is_no def [] = refl
env_flag-is_no def (a ∷ []) = refl
env_flag-is_no def (a ∷ b ∷ []) = refl
env_flag-is_no def (a ∷ b ∷ c ∷ []) = refl
env_flag-is_no def (a ∷ b ∷ c ∷ d ∷ []) = refl
env_flag-is_no def (a ∷ b ∷ c ∷ d ∷ e ∷ []) = refl
env_flag-is_no def (a ∷ b ∷ c ∷ d ∷ e ∷ f ∷ []) = refl
env_flag-is_no def (a ∷ b ∷ c ∷ d ∷ e ∷ f ∷ g ∷ []) = refl
env_flag-is_no def (a ∷ b ∷ c ∷ d ∷ e ∷ f ∷ g ∷ h ∷ s) = ground arith

pub record Build : Type 0 where
  pub sycl : Bool
  pub openvino : Bool

-- VLA_FQ_DEQUANT and GGML_OPENVINO_DEVICE, and the backend's name and kind.
pub record Host : Type 0 where
  pub name : Str
  pub is_cuda : Bool
  pub dequant_env : Option Str
  pub ov_device : Option Str

-- What runs the sites of the model.
pub data Kernels : Type 0 where
  untouched : Kernels
  sycl_kernels : Kernels
  openvino_nodes : Kernels
  float_weights : Kernels
  cuda_kernels : Kernels
  cpu_reference : Kernels

abbrev pub is_named : Str → Option Str → Bool
is_named s none = false
is_named s (some t) = str_eq t s

abbrev pub is_cpu : Host → Bool
is_cpu h = str_eq h.name (67 ∷ 80 ∷ 85 ∷ [])

abbrev pub runs_sycl : Build → Host → Bool
runs_sycl b h = b.sycl && starts (83 ∷ 89 ∷ 67 ∷ 76 ∷ []) h.name

-- OpenVINO on another device than the NPU.
abbrev pub runs_openvino : Build → Host → Bool
runs_openvino b h =
    b.openvino
    && str_eq h.name (79 ∷ 80 ∷ 69 ∷ 78 ∷ 86 ∷ 73 ∷ 78 ∷ 79 ∷ [])
    && not (is_named (78 ∷ 80 ∷ 85 ∷ []) h.ov_device)

unfoldable pub foldquant_check_backend : Build → Bool → Host → Kernels
unfolding env_flag str_eq starts
foldquant_check_backend b present h =
    let dequant = env_flag false h.dequant_env in
    if not present
    then untouched
    else (if runs_sycl b h && not dequant
        then sycl_kernels
        else (if runs_openvino b h && not dequant
            then openvino_nodes
            else (if (not h.is_cuda && not (is_cpu h)) || dequant
                then float_weights
                else (if h.is_cuda then cuda_kernels else cpu_reference))))

-- The sites of a model are read back as float weights exactly if that is asked for, or if no integer
-- path runs on the backend: no compiled-in SYCL, no OpenVINO on another device than the NPU, no CUDA
-- and no CPU.
pub foldquant_check_backend_iff :
    (b : Build) (h : Host)
    → (foldquant_check_backend b true h ≡ float_weights) ↔ (
        (env_flag false h.dequant_env
          || not (runs_sycl b h || runs_openvino b h || h.is_cuda || is_cpu h))
        ≡ true)
unfolding foldquant_check_backend
foldquant_check_backend_iff b h =
    by_tests (env_flag false h.dequant_env) (runs_sycl b h) (runs_openvino b h) h.is_cuda (is_cpu h)
  where
    by_tests :
        (dequant sycl ov cuda cpu : Bool)
        → ((if sycl && not dequant
              then sycl_kernels
              else (if ov && not dequant
                  then openvino_nodes
                  else (if (not cuda && not cpu) || dequant
                      then float_weights
                      else (if cuda then cuda_kernels else cpu_reference))))
            ≡ float_weights)
          ↔ ((dequant || not (sycl || ov || cuda || cpu)) ≡ true)
    by_tests dequant sycl ov cuda cpu = (λ e. ground arith, λ e. ground arith)
