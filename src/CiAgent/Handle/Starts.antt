-- ===== src/CiAgent/Handle/Starts.antt =====
-- The calls of ci/agent/agent.cpp that start no background process, and the one that does.
use mathlib.Core.Path.{subst}
use vla_cpp.Common.{
  ℕ, ◌≡◌, refl, sym, inl, inr, ◌⊎◌, Bool, true, false, not, ◌||◌, List, [], ◌∷◌, Result, ok,
  >>=-eq-ok, ok-injective, Bool-cases, Option-cases,
}
use vla_cpp.Common.Int.{ℤ, pos, eq_ℤ, is_negative}
use vla_cpp.HfFetch.Names.{Str}
use vla_cpp.CiAgent.{Why, Entry, entry, Entries, none_left, and_then, exited, Os}
use vla_cpp.CiAgent.Process.{apply_env, capture_loop, run_capture, spawn_detached}
use vla_cpp.CiAgent.Archive.{
  is_protected, in_keep, remove_counted, prune_entry, prune_walk, prune_members, members,
  extract_and_prune,
}
use vla_cpp.CiAgent.Handle.Orphans.{Reaps, Sub}

module _ (os : Os) (Runs : ℤ → os.W → Type 0) (law : Reaps os Runs) where
  pub run_capture-Sub :
      (cwd : Str) (argv env : List Str) (w : os.W) (r : (ℤ × Str) × os.W)
      → run_capture os cwd argv env w ≡ ok r
      → Sub Runs w r.1
  unfolding run_capture
  run_capture-Sub cwd argv env w r e q here =
      let forked = os.fork_capture cwd argv (apply_env env) w in
      let back : (r' : (ℤ × Str) × os.W) → r' ≡ r → r'.1 ≡ forked.1 → Runs q w = λ r' same after.
        law.fork_capture cwd argv (apply_env env) q w
          (subst (Runs q) after (subst (λ x. Runs q x.1) (sym same) here)) in
      elim (Option-cases forked.0) [
        | inl failed ↦ back _ (ok-injective (rw (failed, run_capture) at e)) refl
        | inr (child, started) ↦
            let (ended, f, g) =
              >>=-eq-ok (capture_loop child.pid child.passes false (exited 0) []) _
                (rw (started, run_capture) at e) in
            back _ (ok-injective g) refl
      ]

  pub spawn_detached-starts :
      (cwd : Str) (argv env : List Str) (logfile : Str) (w : os.W) (q : ℤ)
      → Runs q (spawn_detached os cwd argv env logfile w).1
      → Runs q w ⊎ ((q ≡ (spawn_detached os cwd argv env logfile w).0) × (is_negative q ≡ false))
  unfolding spawn_detached
  spawn_detached-starts cwd argv env [] w q r = law.fork_detached cwd argv (apply_env env) [] q w r
  spawn_detached-starts cwd argv env (c ∷ logfile) w q r =
      let made = os.create_directories (os.parent_path (c ∷ logfile)) w in
      elim (law.fork_detached cwd argv (apply_env env) (c ∷ logfile) q made r) [
        | inl before ↦ inl (law.create_directories (os.parent_path (c ∷ logfile)) q w before)
        | inr new ↦ inr new
      ]

  remove_counted-Sub :
      (path : Str) (state : os.W × ℕ) → Sub Runs state.0 (remove_counted os path state).0
  unfolding remove_counted
  remove_counted-Sub path (w, n) q r = elim (Bool-cases (os.remove path w).0) [
    | inl gone ↦ law.remove path q w (rw gone at r)
    | inr stays ↦ law.remove path q w (rw stays at r)
  ]

  module _ (dst : Str) (protect keep : List Str) where
    mutual
      unfolding prune_walk

      prune_entry-Sub :
          (e : Entry) (state : os.W × ℕ)
          → Sub Runs state.0 (prune_entry os dst protect keep e state).0
      prune_entry-Sub (entry path true regular below) state q r =
          elim (Bool-cases (is_protected (os.relative path dst) protect)) [
            | inl kept ↦ rw (kept, prune_entry) at r
            | inr open_dir ↦ prune_walk-Sub below state q (rw (open_dir, prune_entry) at r)
          ]
      prune_entry-Sub (entry path false regular below) state q r =
          let rel = os.relative path dst in
          elim (Bool-cases (not regular || is_protected rel protect || in_keep keep rel)) [
            | inl kept ↦ rw (kept, prune_entry) at r
            | inr goes ↦ remove_counted-Sub path state q (rw (goes, prune_entry) at r)
          ]

      prune_walk-Sub :
          (es : Entries) (state : os.W × ℕ)
          → Sub Runs state.0 (prune_walk os dst protect keep es state).0
      prune_walk-Sub none_left state q r = r
      prune_walk-Sub (and_then e es) state q r =
          prune_entry-Sub e state q
            (prune_walk-Sub es (prune_entry os dst protect keep e state) q r)

  prune_members-Sub :
      (dst : Str) (prune : Bool) (protect keep : List Str) (w : os.W)
      → Sub Runs w (prune_members os dst prune protect keep w).1
  unfolding prune_members
  prune_members-Sub dst false protect keep w q r = r
  prune_members-Sub dst true protect keep w q r =
      prune_walk-Sub dst protect keep (os.listing dst w) (w, 0) q r

  pub extract_and_prune-Sub :
      (tarfile dst : Str) (prune : Bool) (protect : List Str) (w : os.W)
      (out : Result Why (ℕ × ℕ) × os.W)
      → extract_and_prune os tarfile dst prune protect w ≡ ok out
      → Sub Runs w out.1
  unfolding extract_and_prune
  extract_and_prune-Sub tarfile dst prune protect w out e q here =
      let made = os.create_directories dst w in
      let (ran, f, g) = >>=-eq-ok (run_capture os [] _ [] made) _ e in
      let back : Runs q ran.1 → Runs q w =
        λ r. law.create_directories dst q w (run_capture-Sub [] _ [] made ran f q r) in
      elim (Bool-cases (not (eq_ℤ ran.0.0 (pos 0)))) [
        | inl failed ↦ back (subst (λ x. Runs q x.1) (sym (ok-injective (rw failed at g))) here)
        | inr done ↦
            let (listed, f', g') = >>=-eq-ok (run_capture os [] _ [] ran.1) _ (rw done at g) in
            let keep = members [] listed.0.1 in
            back (
              run_capture-Sub [] _ [] ran.1 listed f' q (
                prune_members-Sub dst prune protect keep listed.1 q
                  (subst (λ x. Runs q x.1) (sym (ok-injective g')) here)))
      ]
