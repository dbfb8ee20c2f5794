-- ===== src/CiAgent/Handle/Orphans.antt =====
-- The processes that ci/agent/agent.cpp starts: each that is still there has a name by which a later
-- request reaches it.
use mathlib.Core.Path.{subst}
use vla_cpp.Common.{ℕ, zero, suc, ◌≡◌, ◌≢◌, inl, inr, ◌⊎◌, true, false, List, arith, Bool-cases}
use vla_cpp.Common.Int.{ℤ, eq_ℤ, is_negative}
use vla_cpp.HfFetch.Names.{Str}
use vla_cpp.CiAgent.{Signal, sigint, sigterm, sigkill, Os}
use vla_cpp.CiAgent.Process.{poll_loop, kill_group}

eq_ℤ-eq : (a b : ℤ) → eq_ℤ a b ≡ true → a ≡ b
eq_ℤ-eq a b h = ground arith

-- `Runs q w`: the process q was started by spawn_detached and was not reaped yet.
-- A call starts none, unless it forks one; waitpid reaps the process that it reports.
pub record Reaps (os : Os) (Runs : ℤ → os.W → Type 0) : Type 0 where
  pub write_file : (p t : Str) (q : ℤ) (w : os.W) → Runs q (os.write_file p t w) → Runs q w
  pub create_directories :
      (p : Str) (q : ℤ) (w : os.W) → Runs q (os.create_directories p w) → Runs q w
  pub remove : (p : Str) (q : ℤ) (w : os.W) → Runs q (os.remove p w).1 → Runs q w
  pub fork_capture :
      (cwd : Str) (argv : List Str) (env : List (Str × Str)) (q : ℤ) (w : os.W)
      → Runs q (os.fork_capture cwd argv env w).1
      → Runs q w
  pub fork_detached :
      (cwd : Str) (argv : List Str) (env : List (Str × Str)) (logfile : Str) (q : ℤ) (w : os.W)
      → Runs q (os.fork_detached cwd argv env logfile w).1
      → Runs q w ⊎ ((q ≡ (os.fork_detached cwd argv env logfile w).0) × (is_negative q ≡ false))
  pub killpg : (p : ℤ) (sig : Signal) (q : ℤ) (w : os.W) → Runs q (os.killpg p sig w) → Runs q w
  pub sleep : (q : ℤ) (w : os.W) → Runs q (os.sleep w) → Runs q w
  pub poll_child : (p q : ℤ) (w : os.W) → Runs q (os.poll_child p w).1 → Runs q w
  pub poll_reaps : (p : ℤ) (w : os.W) → (os.poll_child p w).0 ≡ p → ¬ Runs p (os.poll_child p w).1
  pub wait_child : (p q : ℤ) (w : os.W) → Runs q (os.wait_child p w) → Runs q w × (q ≢ p)

-- What runs after a call ran before it.
abbrev pub Sub : {W : Type 0} → (ℤ → W → Type 0) → W → W → Type 0
Sub Runs w w' = (q : ℤ) → Runs q w' → Runs q w

module _ (os : Os) (Runs : ℤ → os.W → Type 0) (law : Reaps os Runs) where
  poll_loop-Sub : (n : ℕ) (p : ℤ) (w : os.W) → Sub Runs w (poll_loop os n p w).1
  unfolding poll_loop
  poll_loop-Sub zero p w q r = r
  poll_loop-Sub (suc n) p w q r = elim (Bool-cases (eq_ℤ (os.poll_child p w).0 p)) [
    | inl gone ↦ law.poll_child p q w (rw (gone, poll_loop) at r)
    | inr other ↦ law.poll_child p q w (
        law.sleep q _
          (poll_loop-Sub n p (os.sleep (os.poll_child p w).1) q (rw (other, poll_loop) at r)))
  ]

  poll_loop-reaps :
      (n : ℕ) (p : ℤ) (w : os.W) → (poll_loop os n p w).0 ≡ true → ¬ Runs p (poll_loop os n p w).1
  unfolding poll_loop
  poll_loop-reaps zero p w e = ground arith
  poll_loop-reaps (suc n) p w e = elim (Bool-cases (eq_ℤ (os.poll_child p w).0 p)) [
    | inl gone ↦ rw (gone, poll_loop) (law.poll_reaps p w (eq_ℤ-eq _ p gone))
    | inr other ↦
        rw (other, poll_loop)
          (poll_loop-reaps n p (os.sleep (os.poll_child p w).1) (rw (other, poll_loop) at e))
  ]

  -- When kill_group returns the process is reaped, and nothing was started.
  pub kill_group-reaps : (p q : ℤ) (w : os.W) → Runs q (kill_group os p w) → Runs q w × (q ≢ p)
  unfolding kill_group
  kill_group-reaps p q w r =
      let w0 = os.killpg p sigint w in
      let w1 = (poll_loop os 20 p w0).1 in
      let w2 = (poll_loop os 10 p (os.killpg p sigterm w1)).1 in
      let first : Sub Runs w w1 = λ q r. law.killpg p sigint q w (poll_loop-Sub 20 p w0 q r) in
      let second : Sub Runs w w2 = λ q r.
        first q (law.killpg p sigterm q w1 (poll_loop-Sub 10 p (os.killpg p sigterm w1) q r)) in
      elim (Bool-cases (poll_loop os 20 p w0).0) [
        | inl gone ↦
            let here : Runs q w1 = rw (gone, kill_group) at r in
            (first q here, λ e. poll_loop-reaps 20 p w0 gone (subst (λ x. Runs x w1) e here))
        | inr stays ↦ elim (Bool-cases (poll_loop os 10 p (os.killpg p sigterm w1)).0) [
          | inl gone ↦
              let here : Runs q w2 = rw (stays, gone, kill_group) at r in
              (
                second q here,
                λ e.
                    poll_loop-reaps 10 p (os.killpg p sigterm w1) gone
                      (subst (λ x. Runs x w2) e here),
              )
          | inr lives ↦
              let (here, other) =
                law.wait_child p q (os.killpg p sigkill w2) (rw (stays, lives, kill_group) at r) in
              (second q (law.killpg p sigkill q w2 here), other)
        ]
      ]
