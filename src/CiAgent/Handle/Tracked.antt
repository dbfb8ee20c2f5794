-- ===== src/CiAgent/Handle/Tracked.antt =====
-- The invariant of the request loop of ci/agent/agent.cpp: g_spawned has every process that
-- spawn_detached started and that was not reaped.
use mathlib.Core.Path.{subst}
use vla_cpp.Common.{
  ◌≡◌, ap, sym, inl, inr, ◌⊎◌, Bool, false, not, ◌||◌, ◌&&◌, Option, none, List, [], ◌∷◌, ◌++◌,
  Result, ok, >>=-eq-ok, ok-injective, Result-cases, arith, Bool-cases, Option-cases,
}
use vla_cpp.Common.Int.{ℤ, pos, eq_ℤ, is_negative}
use vla_cpp.HfFetch.Names.{Str}
use vla_cpp.HfFetch.Names.Match.{str_eq}
use vla_cpp.CiAgent.{Op, ping, put, exec, spawn, stop, get, rev, no_op, Request, Reply, Hang, Os}
use vla_cpp.CiAgent.Process.{run_capture, spawn_detached}
use vla_cpp.CiAgent.Archive.{pop_back_while, extract_and_prune}
use vla_cpp.CiAgent.Handle.{
  Agent, find, assign, kill_named, handle_put, handle_exec, handle_spawn, handle_stop, handle_rev,
  is_space, is_empty_text, handle, answer, serve,
}
use vla_cpp.CiAgent.Handle.Table.{
  Has, Once, find-erase, erase-Once, assign-Once, Has-erase, Has-assign, Has-assign_new,
}
use vla_cpp.CiAgent.Handle.Starts.{run_capture-Sub, spawn_detached-starts, extract_and_prune-Sub}
use vla_cpp.CiAgent.Handle.Orphans.{Reaps, Sub, kill_group-reaps}

module _ (os : Os) (Runs : ℤ → os.W → Type 0) (law : Reaps os Runs) where
  abbrev pub IsTracked : Agent os.W → Type 0
  IsTracked s = Once s.spawned × ((q : ℤ) → Runs q s.world → Has q s.spawned)

  kill_named-IsTracked :
      (name : Str) (s : Agent os.W)
      → IsTracked s
      → IsTracked (kill_named os name s) × (find name (kill_named os name s).spawned ≡ none)
  unfolding kill_named
  kill_named-IsTracked name s (once, all) = elim (Option-cases (find name s.spawned)) [
    | inl absent ↦ rw (absent, kill_named) ((once, all), absent)
    | inr (p, found) ↦
        rw (found, kill_named)
          (
            (
              erase-Once name s.spawned once,
              λ q r.
                  let (before, other) = kill_group-reaps os Runs law p q s.world r in
                  Has-erase name p q s.spawned found other (all q before),
            ),
            find-erase name s.spawned once,
          )
  ]

  handle_stop-IsTracked :
      (name : Str) (s : Agent os.W) → IsTracked s → IsTracked (handle_stop os name s).1
  unfolding handle_stop kill_named
  handle_stop-IsTracked name s h =
      let killed = (kill_named-IsTracked name s h).0 in
      elim (Option-cases (find name s.spawned)) [
        | inl absent ↦ rw (absent, handle_stop) h
        | inr (p, found) ↦ rw (found, handle_stop) (rw (found, kill_named) at killed)
      ]

  handle_spawn-IsTracked :
      (name cwd : Str) (argv env : List Str) (logfile : Str) (s : Agent os.W)
      → IsTracked s
      → IsTracked (handle_spawn os name cwd argv env logfile s).1
  unfolding handle_spawn
  handle_spawn-IsTracked name cwd [] env logfile s h = h
  handle_spawn-IsTracked name cwd (a ∷ argv) env logfile s h =
      let s1 = kill_named os name s in
      let ((once, all), absent) = kill_named-IsTracked name s h in
      let forked = spawn_detached os cwd (a ∷ argv) env logfile s1.world in
      let from : (q : ℤ)
          → Runs q forked.1
          → Runs q s1.world ⊎ ((q ≡ forked.0) × (is_negative q ≡ false)) =
        spawn_detached-starts os Runs law cwd (a ∷ argv) env logfile s1.world in
      elim (Bool-cases (is_negative forked.0)) [
        | inl failed ↦
            rw (failed, handle_spawn)
              (
                once,
                λ q r. elim (from q r) [
                  | inl before ↦ all q before
                  | inr (e, positive) ↦ absurd (ground (arith, failed, positive, ap is_negative e))
                ],
              )
        | inr positive ↦
            rw (positive, handle_spawn)
              (
                assign-Once name forked.0 s1.spawned once,
                λ q r. elim (from q r) [
                  | inl before ↦ Has-assign name forked.0 q s1.spawned absent (all q before)
                  | inr (e, started) ↦
                      subst (λ x. Has x (assign name forked.0 s1.spawned)) (sym e)
                        (Has-assign_new name forked.0 s1.spawned)
                ],
              )
      ]

  moved :
      (s : Agent os.W) (w : os.W)
      → IsTracked s
      → Sub Runs s.world w
      → IsTracked (record s { world = w })
  moved s w (once, all) sub = (once, λ q r. all q (sub q r))

  abbrev Leads : Result Hang (Reply × Agent os.W) → Type 0
  Leads r = (out : Reply × Agent os.W) → r ≡ ok out → IsTracked out.1

  now : (r : Reply) (s : Agent os.W) → IsTracked s → Leads (ok (r, s))
  now r s h out e = subst (λ x. IsTracked x.1) (ok-injective e) h

  handle_put-IsTracked :
      (dst targz : Str) (prune : Bool) (protect : List Str) (s : Agent os.W)
      → IsTracked s
      → Leads (handle_put os dst targz prune protect s)
  unfolding handle_put
  handle_put-IsTracked dst targz prune protect s h out e =
      let tmp = os.temp_file s.world in
      let w = os.write_file tmp targz s.world in
      let (done, f, g) = >>=-eq-ok (extract_and_prune os tmp dst prune protect w) _ e in
      let tidy = moved s (os.remove tmp done.1).1 h (λ q r. law.write_file tmp targz q s.world (
        extract_and_prune-Sub os Runs law tmp dst prune protect w done f q
          (law.remove tmp q done.1 r))) in
      elim (Result-cases done.0) [
        | inl (why, bad) ↦ now _ _ tidy out (rw bad at g)
        | inr (counts, good) ↦ now _ _ tidy out (rw good at g)
      ]

  handle_exec-IsTracked :
      (cwd : Str) (argv env : List Str) (s : Agent os.W)
      → IsTracked s
      → Leads (handle_exec os cwd argv env s)
  unfolding handle_exec
  handle_exec-IsTracked cwd [] env s h out e = now _ s h out e
  handle_exec-IsTracked cwd (a ∷ argv) env s h out e =
      let (ran, f, g) = >>=-eq-ok (run_capture os cwd (a ∷ argv) env s.world) _ e in
      now _ _ (moved s ran.1 h (run_capture-Sub os Runs law cwd (a ∷ argv) env s.world ran f)) out g

  handle_rev-IsTracked : (path : Str) (s : Agent os.W) → IsTracked s → Leads (handle_rev os path s)
  unfolding handle_rev
  handle_rev-IsTracked path s h out e =
      let (ran, f, g) = >>=-eq-ok (run_capture os [] _ [] s.world) _ e in
      let sub = run_capture-Sub os Runs law [] _ [] s.world ran f in
      let sha = pop_back_while is_space ran.0.1 in
      elim (Bool-cases (not (eq_ℤ ran.0.0 (pos 0)) || is_empty_text sha)) [
        | inl failed ↦ now _ _ (moved s ran.1 h sub) out (rw failed at g)
        | inr fine ↦
            let (st, f', g') = >>=-eq-ok (run_capture os [] _ [] ran.1) _ (rw fine at g) in
            now _ _
              (moved s st.1 h (λ q r. sub q (run_capture-Sub os Runs law [] _ [] ran.1 st f' q r)))
              out g'
      ]

  handle-IsTracked : (op : Op) (s : Agent os.W) → IsTracked s → Leads (handle os op s)
  unfolding handle
  handle-IsTracked ping s h = now _ s h
  handle-IsTracked (put dst targz prune protect) s h =
      handle_put-IsTracked dst targz prune protect s h
  handle-IsTracked (exec cwd argv env) s h = handle_exec-IsTracked cwd argv env s h
  handle-IsTracked (spawn name cwd argv env logfile) s h =
      now _ _ (handle_spawn-IsTracked name cwd argv env logfile s h)
  handle-IsTracked (stop name) s h = now _ _ (handle_stop-IsTracked name s h)
  handle-IsTracked (get path) s h = elim (Option-cases (os.read_file path s.world)) [
    | inl missing ↦ rw (missing, handle) (now _ s h)
    | inr (content, found) ↦ rw (found, handle) (now _ s h)
  ]
  handle-IsTracked (rev path) s h = handle_rev-IsTracked path s h
  handle-IsTracked no_op s h = now _ s h

  module _ (token : Str) (parse : Str → Option Request) where
    answer-IsTracked :
        (msg : Str) (s : Agent os.W) → IsTracked s → Leads (answer os token parse msg s)
    unfolding answer
    answer-IsTracked msg s h = elim (Option-cases (parse msg)) [
      | inl bad ↦ rw (bad, answer) (now _ s h)
      | inr (req, good) ↦
          elim (Bool-cases (not (is_empty_text token) && not (str_eq req.token token))) [
            | inl foreign ↦ rw (good, answer, foreign) (now _ s h)
            | inr own ↦ rw (good, answer, own) (handle-IsTracked req.op s h)
          ]
    ]

    -- Whatever requests come, every process that was started and not reaped keeps a name in the
    -- list, each name standing once, so that stop and a respawn reach it. It assumes that calls
    -- start no such process but the fork of spawn_detached, and that a successful waitpid reaps.
    pub serve-IsTracked :
        (msgs : List Str) (before : List Reply) (s : Agent os.W)
        → IsTracked s
        → (out : List Reply × Agent os.W) → serve os token parse msgs before s ≡ ok out
        → IsTracked out.1
    unfolding serve
    serve-IsTracked [] before s h out e = subst (λ x. IsTracked x.1) (ok-injective e) h
    serve-IsTracked (msg ∷ msgs) before s h out e =
        let (sent, f, g) = >>=-eq-ok (answer os token parse msg s) _ e in
        serve-IsTracked msgs (before ++ sent.0 ∷ []) sent.1 (answer-IsTracked msg s h sent f) out g
