-- ===== src/ModelLoad/Loaded.antt =====
-- Which models model_load of src/model.cpp loads, in terms of what each architecture supports.
use vla_cpp.Common.{
  zero, suc, ◌≤◌, ◌≡◌, ◌↔◌, refl, ap, ◌∙◌, inl, inr, Bool, true, false, not, ◌||◌, ◌&&◌, Option,
  none, some, Bool-cases, Option-cases, arith,
}
use mathlib.Core.Option.{some-injective, none-ne-some}
use vla_cpp.Common.Int.{ℤ, pos, negsuc}
use vla_cpp.HfFetch.Names.{Str}
use vla_cpp.Options.{Dtype, f32, bf16, f16, Options}
use vla_cpp.ModelLoad.{
  Arch, smolvla, pi0, pi05, evo1, gr00t_n1_5, gr00t_n1_6, gr00t_n1_7, octo, bitvla, vla_adapter,
  openvla_oft, vla_jepa, turbovla, act, Files, Flags, Dims, Archs, Model, detect_arch_from_ckpt,
  dims_sane, config_is_sane, is_set, refuses_steps, is_bf16, takes_bf16, value_or, set_flags,
  create_model, model_load,
}

-- The architectures that make their actions in steps, whose number may be chosen.
abbrev pub HasSteps : Arch → Type 0
HasSteps smolvla = Unit
HasSteps pi0 = Unit
HasSteps pi05 = Unit
HasSteps evo1 = Unit
HasSteps gr00t_n1_5 = Unit
HasSteps gr00t_n1_6 = Unit
HasSteps gr00t_n1_7 = Unit
HasSteps vla_jepa = Unit
HasSteps _ = ⊥

-- The architectures whose activations may be bf16.
abbrev pub HasBf16 : Arch → Type 0
HasBf16 pi0 = Unit
HasBf16 pi05 = Unit
HasBf16 evo1 = Unit
HasBf16 _ = ⊥

-- A dimension and the most it may be, where 0 is no bound: neither is negative.
abbrev pub InRange : ℤ → ℤ → Type 0
InRange (pos real) (pos zero) = Unit
InRange (pos real) (pos (suc most)) = real ≤ suc most
InRange _ _ = ⊥

refuses_steps-HasSteps : (arch : Arch) → (refuses_steps arch ≡ false) ↔ HasSteps arch
unfolding refuses_steps
refuses_steps-HasSteps smolvla = (λ e. tt, λ h. refl)
refuses_steps-HasSteps pi0 = (λ e. tt, λ h. refl)
refuses_steps-HasSteps pi05 = (λ e. tt, λ h. refl)
refuses_steps-HasSteps evo1 = (λ e. tt, λ h. refl)
refuses_steps-HasSteps gr00t_n1_5 = (λ e. tt, λ h. refl)
refuses_steps-HasSteps gr00t_n1_6 = (λ e. tt, λ h. refl)
refuses_steps-HasSteps gr00t_n1_7 = (λ e. tt, λ h. refl)
refuses_steps-HasSteps octo = (λ e. absurd (cc), λ h. absurd h)
refuses_steps-HasSteps bitvla = (λ e. absurd (cc), λ h. absurd h)
refuses_steps-HasSteps vla_adapter = (λ e. absurd (cc), λ h. absurd h)
refuses_steps-HasSteps openvla_oft = (λ e. absurd (cc), λ h. absurd h)
refuses_steps-HasSteps vla_jepa = (λ e. tt, λ h. refl)
refuses_steps-HasSteps turbovla = (λ e. absurd (cc), λ h. absurd h)
refuses_steps-HasSteps act = (λ e. absurd (cc), λ h. absurd h)

takes_bf16-HasBf16 : (arch : Arch) → (takes_bf16 arch ≡ true) ↔ HasBf16 arch
unfolding takes_bf16
takes_bf16-HasBf16 smolvla = (λ e. absurd (cc), λ h. absurd h)
takes_bf16-HasBf16 pi0 = (λ e. tt, λ h. refl)
takes_bf16-HasBf16 pi05 = (λ e. tt, λ h. refl)
takes_bf16-HasBf16 evo1 = (λ e. tt, λ h. refl)
takes_bf16-HasBf16 gr00t_n1_5 = (λ e. absurd (cc), λ h. absurd h)
takes_bf16-HasBf16 gr00t_n1_6 = (λ e. absurd (cc), λ h. absurd h)
takes_bf16-HasBf16 gr00t_n1_7 = (λ e. absurd (cc), λ h. absurd h)
takes_bf16-HasBf16 octo = (λ e. absurd (cc), λ h. absurd h)
takes_bf16-HasBf16 bitvla = (λ e. absurd (cc), λ h. absurd h)
takes_bf16-HasBf16 vla_adapter = (λ e. absurd (cc), λ h. absurd h)
takes_bf16-HasBf16 openvla_oft = (λ e. absurd (cc), λ h. absurd h)
takes_bf16-HasBf16 vla_jepa = (λ e. absurd (cc), λ h. absurd h)
takes_bf16-HasBf16 turbovla = (λ e. absurd (cc), λ h. absurd h)
takes_bf16-HasBf16 act = (λ e. absurd (cc), λ h. absurd h)

dims_sane-InRange : (real most : ℤ) → (dims_sane real most ≡ true) ↔ InRange real most
unfolding dims_sane
dims_sane-InRange (pos real) (pos zero) = (λ e. tt, λ h. ground arith)
dims_sane-InRange (pos real) (pos (suc most)) = (λ e. ground (arith, e), λ h. ground (arith, h))
dims_sane-InRange (pos real) (negsuc most) = (λ e. absurd (cc), λ h. absurd h)
dims_sane-InRange (negsuc real) (pos most) = (λ e. absurd (cc), λ h. absurd h)
dims_sane-InRange (negsuc real) (negsuc most) = (λ e. absurd (cc), λ h. absurd h)

-- A number of steps is asked for only where there are steps.
abbrev pub StepsFit : Option ℤ → Arch → Type 0
StepsFit none arch = Unit
StepsFit (some n) arch = HasSteps arch

-- bf16 activations are asked for only where they are supported.
abbrev pub ActFits : Option Dtype → Arch → Type 0
ActFits (some bf16) arch = HasBf16 arch
ActFits _ arch = Unit

is_set-StepsFit :
    (n : Option ℤ) (arch : Arch) → ((is_set n && refuses_steps arch) ≡ false) ↔ StepsFit n arch
unfolding is_set
is_set-StepsFit none arch = (λ e. tt, λ h. refl)
is_set-StepsFit (some n) arch = refuses_steps-HasSteps arch

is_bf16-ActFits :
    (t : Option Dtype) (arch : Arch)
    → ((is_bf16 t && not (takes_bf16 arch)) ≡ false) ↔ ActFits t arch
unfolding is_bf16
is_bf16-ActFits none arch = (λ e. tt, λ h. refl)
is_bf16-ActFits (some f32) arch = (λ e. tt, λ h. refl)
is_bf16-ActFits (some f16) arch = (λ e. tt, λ h. refl)
is_bf16-ActFits (some bf16) arch =
    let (to, back) = takes_bf16-HasBf16 arch in
    (λ e. to (ground (arith, e)), λ h. let t = back h in ground (arith, t))

module _ {W I In A : Type 0} (archs : Archs W I In A) where
  -- The dimensions of a model are in range.
  abbrev pub DimsFit : Dims → Type 0
  DimsFit c = InRange c.real_state_dim c.max_state_dim × InRange c.real_action_dim c.max_action_dim

  config_is_sane-DimsFit : (c : Dims) → (config_is_sane c ≡ true) ↔ DimsFit c
  unfolding config_is_sane
  config_is_sane-DimsFit c =
      let (s_to, s_back) = dims_sane-InRange c.real_state_dim c.max_state_dim in
      let (a_to, a_back) = dims_sane-InRange c.real_action_dim c.max_action_dim in
      (
        λ e. (s_to (ground (arith, e)), a_to (ground (arith, e))),
        λ h. let s = s_back h.0 in let a = a_back h.1 in ground (arith, s, a),
      )

  -- The model that is loaded, from what the architecture is asked for and what it makes: it keeps the
  -- flash attention that the architecture has left, and the precision that was asked for.
  pub record Loads (files : Files) (default_fa : Bool) (mmproj ckpt config : Str) (opts : Options)
      (flags : Flags W) (m : Model I) : Type 0 where
    pub arch : Arch
    pub found : detect_arch_from_ckpt files ckpt ≡ some arch
    pub steps : StepsFit opts.num_steps arch
    pub activations : ActFits opts.act_dtype arch
    pub impl : I
    pub after : Flags W
    pub made :
        archs.create arch mmproj ckpt config opts
          (set_flags (value_or default_fa opts.flash_attn) (value_or true opts.mm_prec_f32) flags)
        ≡ (some impl, after)
    pub dims : DimsFit (archs.dims impl)
    pub is_model :
        record { impl = impl; fa = after.flash_attn; mm = value_or true opts.mm_prec_f32 } ≡ m

  to_Loads :
      (files : Files) (default_fa : Bool) (mmproj ckpt config : Str) (opts : Options)
      (flags : Flags W) (m : Model I) (arch : Arch)
      → detect_arch_from_ckpt files ckpt ≡ some arch
      → StepsFit opts.num_steps arch
      → ActFits opts.act_dtype arch
      → (create_model archs default_fa arch mmproj ckpt config opts flags).0 ≡ some m
      → Loads files default_fa mmproj ckpt config opts flags m
  unfolding create_model
  to_Loads files default_fa mmproj ckpt config opts flags m arch found steps activations e =
      let own =
        set_flags (value_or default_fa opts.flash_attn) (value_or true opts.mm_prec_f32) flags in
      let made = archs.create arch mmproj ckpt config opts own in
      elim (Option-cases made.0) [
        | inl failed ↦ absurd (none-ne-some m (rw (create_model, failed) at e))
        | inr (impl, got) ↦ elim (Bool-cases (config_is_sane (archs.dims impl))) [
          | inr bad ↦ absurd (none-ne-some m (rw (create_model, got, bad) at e))
          | inl sane ↦ record {
            arch = arch;
            found = found;
            steps = steps;
            activations = activations;
            impl = impl;
            after = made.1;
            made = ap (λ o. (o, made.1)) got;
            dims = (config_is_sane-DimsFit (archs.dims impl)).0 sane;
            is_model = some-injective _ _ (rw (create_model, got, sane) at e);
          }
        ]
      ]

  -- Where no retired variable is set, a model is loaded exactly when an architecture is detected, steps
  -- and bf16 activations are asked for only where it has them, it can be made, and its dimensions are in
  -- range; it keeps the flags that a prediction sets again.
  pub model_load-Loads :
      (files : Files) (default_fa : Bool) (mmproj ckpt config : Str) (opts : Options)
      (flags : Flags W) (m : Model I)
      → ((model_load archs files false default_fa mmproj ckpt config opts flags).0 ≡ some m)
        ↔ Loads files default_fa mmproj ckpt config opts flags m
  unfolding model_load create_model
  model_load-Loads files default_fa mmproj ckpt config opts flags m = (
    λ e. elim (Option-cases (detect_arch_from_ckpt files ckpt)) [
      | inl bad ↦ absurd (none-ne-some m (rw (bad, model_load) at e))
      | inr (arch, found) ↦
          elim (Bool-cases (
            (is_set opts.num_steps && refuses_steps arch)
            || (is_bf16 opts.act_dtype && not (takes_bf16 arch)))) [
              | inl refused ↦ absurd (none-ne-some m (rw (found, model_load, refused) at e))
              | inr fine ↦
                  to_Loads files default_fa mmproj ckpt config opts flags m arch found
                    ((is_set-StepsFit opts.num_steps arch).0 (ground (arith, fine)))
                    ((is_bf16-ActFits opts.act_dtype arch).0 (ground (arith, fine)))
                    (rw (found, model_load, fine) at e)
            ]
    ],
    λ h.
        let steps = (is_set-StepsFit opts.num_steps h.arch).1 h.steps in
        let activations = (is_bf16-ActFits opts.act_dtype h.arch).1 h.activations in
        let sane = (config_is_sane-DimsFit (archs.dims h.impl)).1 h.dims in
        let kept_model : Flags W → I → Model I = λ after impl. record {
          impl = impl;
          fa = after.flash_attn;
          mm = value_or true opts.mm_prec_f32;
        } in
        rw (h.found, model_load, steps, activations, create_model, h.made, sane)
          (ap (λ r. some (kept_model r.1 h.impl)) h.made ∙ ap some h.is_model),
  )
