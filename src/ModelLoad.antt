-- ===== src/ModelLoad.antt =====
-- src/model.cpp: which architecture a checkpoint is, what a load refuses, and the flags that each model keeps.
-- GGUF and safetensors files are what their readers give; the architectures are a parameter.
pub mod Loaded
mod Tests
use vla_cpp.Common.{
  ℕ, zero, suc, ◌+◌, ◌*◌, ◌^◌, Bool, true, false, not, ◌||◌, ◌&&◌, Option, none, some, List, [],
  ◌∷◌, ◌++◌, length, take, drop, ltb, leb, ◌==◌, if◌then◌else◌,
}
use vla_cpp.Common.Int.{ℤ, pos, leb_ℤ, is_negative}
use vla_cpp.Common.Text.{bytes_of}
use vla_cpp.HfFetch.Names.{Str}
use vla_cpp.HfFetch.Names.Match.{str_eq, contains}
use vla_cpp.Options.{Dtype, bf16, Options}

pub data Arch : Type 0 where
  smolvla pi0 pi05 evo1 gr00t_n1_5 gr00t_n1_6 gr00t_n1_7 octo bitvla vla_adapter openvla_oft
        vla_jepa :
      Arch
  turbovla act : Arch

-- The names in the order of the comparisons.
abbrev pub arch_names : List (Str × Arch)
arch_names =
    (bytes_of "smolvla", smolvla)
    ∷ (bytes_of "pi0", pi0)
    ∷ (bytes_of "pi05", pi05)
    ∷ (bytes_of "evo1", evo1)
    ∷ (bytes_of "gr00t_n1_5", gr00t_n1_5)
    ∷ (bytes_of "gr00t_n1_6", gr00t_n1_6)
    ∷ (bytes_of "gr00t_n1_7", gr00t_n1_7)
    ∷ (bytes_of "octo", octo)
    ∷ (bytes_of "octo-small-1.5", octo)
    ∷ (bytes_of "bitvla", bitvla)
    ∷ (bytes_of "vla_adapter", vla_adapter)
    ∷ (bytes_of "openvla_oft", openvla_oft)
    ∷ (bytes_of "vla_jepa", vla_jepa)
    ∷ (bytes_of "turbovla", turbovla)
    ∷ (bytes_of "act", act)
    ∷ []

abbrev pub arch_keys : List Str
arch_keys =
    bytes_of "general.architecture"
    ∷ bytes_of "smolvla.architecture"
    ∷ bytes_of "pi0.architecture"
    ∷ bytes_of "pi05.architecture"
    ∷ bytes_of "evo1.architecture"
    ∷ bytes_of "gr00t_n1_5.architecture"
    ∷ bytes_of "gr00t_n1_6.architecture"
    ∷ bytes_of "gr00t_n1_7.architecture"
    ∷ bytes_of "octo.architecture"
    ∷ bytes_of "bitvla.architecture"
    ∷ bytes_of "openvla_oft.architecture"
    ∷ bytes_of "vla_jepa.architecture"
    ∷ bytes_of "vla_adapter.architecture"
    ∷ bytes_of "turbovla.architecture"
    ∷ bytes_of "act.architecture"
    ∷ []

unfoldable pub find_name : List (Str × Arch) → Str → Option Arch
unfolding str_eq
find_name [] s = none
find_name ((name, arch) ∷ names) s = if str_eq s name then some arch else find_name names s

-- The first of the keys that holds a text.
unfoldable pub first_str : (Str → Option Str) → List Str → Option Str
first_str text_of [] = none
first_str text_of (key ∷ keys) = elim (text_of key) [
  | none ↦ first_str text_of keys
  | some s ↦ some s
]

-- `text_of` is the text of a key of a GGUF file, none for another type; none for a file that does not
-- open.
unfoldable pub detect_arch_gguf : Option (Str → Option Str) → Option Arch
unfolding first_str find_name
detect_arch_gguf none = none
detect_arch_gguf (some text_of) = elim (first_str text_of arch_keys) [
  | none ↦ none
  | some s ↦ find_name arch_names s
]

unfoldable pub arch_of_header : Str → Option Arch
unfolding contains
arch_of_header header =
    if contains (bytes_of "vlm_with_expert.vlm.") header
    then some smolvla
    else (if contains (bytes_of "paligemma_with_expert.paligemma.") header
        then (if contains (bytes_of "action_time_mlp_in") header
            then some pi0
            else (if contains (bytes_of "time_mlp_in") header then some pi05 else none))
        else none)

-- The number of eight bytes, the lowest first.
unfoldable pub little_endian : Str → ℕ
little_endian [] = 0
little_endian (b ∷ bytes) = b + 256 * little_endian bytes

unfoldable pub detect_arch_safetensors : Option Str → Option Arch
unfolding little_endian arch_of_header
detect_arch_safetensors none = none
detect_arch_safetensors (some file) =
    let size = little_endian (take 8 file) in
    if ltb (length file) 8 || size == 0 || ltb (2 ^ 24) size || ltb (length (drop 8 file)) size
    then none
    else arch_of_header (take size (drop 8 file))

unfoldable pub ends_with_gguf : Str → Bool
unfolding str_eq
ends_with_gguf [] = false
ends_with_gguf (c ∷ s) = str_eq (c ∷ s) (bytes_of ".gguf") || ends_with_gguf s

-- What a path holds, for each of the two readers.
pub record Files : Type 0 where
  pub gguf : Str → Option (Str → Option Str)
  pub bytes : Str → Option Str

unfoldable pub detect_arch_from_ckpt : Files → Str → Option Arch
unfolding ends_with_gguf detect_arch_gguf detect_arch_safetensors
detect_arch_from_ckpt files path =
    if ends_with_gguf path
    then detect_arch_gguf (files.gguf path)
    else detect_arch_safetensors (files.bytes path)

pub record Dims : Type 0 where
  pub real_state_dim : ℤ
  pub max_state_dim : ℤ
  pub real_action_dim : ℤ
  pub max_action_dim : ℤ

unfoldable pub dims_sane : ℤ → ℤ → Bool
dims_sane real most =
    not (is_negative real || is_negative most)
    && not (not (leb_ℤ most (pos 0)) && not (leb_ℤ real most))

unfoldable pub config_is_sane : Dims → Bool
unfolding dims_sane
config_is_sane c =
    dims_sane c.real_state_dim c.max_state_dim && dims_sane c.real_action_dim c.max_action_dim

unfoldable pub refuses_steps : Arch → Bool
refuses_steps octo = true
refuses_steps bitvla = true
refuses_steps vla_adapter = true
refuses_steps openvla_oft = true
refuses_steps turbovla = true
refuses_steps act = true
refuses_steps _ = false

unfoldable pub takes_bf16 : Arch → Bool
takes_bf16 pi0 = true
takes_bf16 pi05 = true
takes_bf16 evo1 = true
takes_bf16 _ = false

unfoldable pub is_bf16 : Option Dtype → Bool
is_bf16 none = false
is_bf16 (some t) = elim t [ bf16 ↦ true | _ ↦ false ]

unfoldable pub is_set : {A : Type 0} → Option A → Bool
is_set none = false
is_set (some a) = true

unfoldable pub value_or : {A : Type 0} → A → Option A → A
value_or default none = default
value_or default (some a) = a

-- What the architectures and the layers read of the process: the two flags that a model sets before each
-- prediction, fa_takes_views of src/options.cpp and fused_ops_active of src/layers/fused_ops.h, which no
-- prediction sets, and the rest.
pub record Flags (W : Type 0) : Type 0 where
  pub flash_attn : Bool
  pub mm_prec_f32 : Bool
  pub fa_views : Bool
  pub fused_ops : Bool
  pub rest : W

-- The architectures: making one, its dimensions, and a prediction for an input. Making and predicting
-- may read and change all of the process.
pub record Archs (W I In A : Type 0) : Type 1 where
  pub create : Arch → Str → Str → Str → Options → Flags W → Option I × Flags W
  pub dims : I → Dims
  pub predict : I → In → Flags W → A × I × Flags W

pub record Model (I : Type 0) : Type 0 where
  pub impl : I
  pub fa : Bool
  pub mm : Bool

unfoldable pub set_flags : {W : Type 0} → Bool → Bool → Flags W → Flags W
set_flags fa mm flags = record flags { flash_attn = fa; mm_prec_f32 = mm }

module _ {W I In A : Type 0} (archs : Archs W I In A) where
  -- From the flags on.
  unfoldable pub create_model :
      Bool → Arch → Str → Str → Str → Options → Flags W → Option (Model I) × Flags W
  unfolding value_or config_is_sane set_flags
  create_model default_fa arch mmproj ckpt config opts flags =
      let mm = value_or true opts.mm_prec_f32 in
      let own = set_flags (value_or default_fa opts.flash_attn) mm flags in
      let (made, after) = archs.create arch mmproj ckpt config opts own in
      elim made [
        | none ↦ (none, after)
        | some impl ↦
            if config_is_sane (archs.dims impl)
            then (some (record { impl = impl; fa = after.flash_attn; mm = mm }), after)
            else (none, after)
      ]

  -- `retired` says that a variable is set which is no longer read.
  unfoldable pub model_load :
      Files → Bool → Bool → Str → Str → Str → Options → Flags W → Option (Model I) × Flags W
  unfolding detect_arch_from_ckpt is_set refuses_steps is_bf16 takes_bf16 create_model
  model_load files retired default_fa mmproj ckpt config opts flags =
      elim (detect_arch_from_ckpt files ckpt) [
        | none ↦ (none, flags)
        | some arch ↦
            if retired
              || (is_set opts.num_steps && refuses_steps arch)
              || (is_bf16 opts.act_dtype && not (takes_bf16 arch))
            then (none, flags)
            else create_model default_fa arch mmproj ckpt config opts flags
      ]

  -- A prediction of a loaded model, which sets its own two flags.
  unfoldable pub predict : Model I → In → Flags W → A × Model I × Flags W
  unfolding set_flags
  predict m input flags =
      let (out, impl, after) = archs.predict m.impl input (set_flags m.fa m.mm flags) in
      (out, record m { impl = impl }, after)
