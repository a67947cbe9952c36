-- ===== src/UpdateService/Pool/Attended.antt =====
-- Every adapter that is on its way to another state has a task that takes it there.
pub mod Unsettled
pub mod Outcomes
pub mod Steps
use parking_fee_service.Prelude.{
  zero, suc, ◌≡◌, String, Bool, true, false, not, Option, none, some, List, [], ◌∷◌, ◌++◌, map,
  if◌then◌else◌, arith, ◌==◌, Act, ℕ, ◌≤◌, Option-cases, Bool-cases, ◌∙◌, inl, inr, refl,
}
use parking_fee_service.UpdateService.Adapter.{AdapterEntry}
use parking_fee_service.UpdateService.StateManager.{get_adapter}
use parking_fee_service.UpdateService.World.{Env, World}
use parking_fee_service.UpdateService.Pool.{
  Task, Next, task_of, resume, begin_install, begin_remove, begin_offload,
}
use parking_fee_service.UpdateService.Pool.Schedule.{
  Pool, Move, ask_install, ask_remove, tick, go, abandon, is_handler, drop_handler, advance, clear,
  next_list, pick, step, step-go, step_idle, exec,
}
use parking_fee_service.UpdateService.Pool.Cost.{run_with, run_with_ends, IsChoice, total}
use parking_fee_service.UpdateService.Pool.Attended.Unsettled.{is_final, unsettled}
use parking_fee_service.UpdateService.Pool.Attended.Outcomes.{about, attended, Hands}
use parking_fee_service.UpdateService.Pool.Attended.Steps.{
  begin_install-Hands, begin_remove-Hands, begin_offload-Hands, resume-Hands,
}

-- Every adapter that is neither STOPPED nor in ERROR has a live task that will settle it.
pub record IsAttended (p : Pool) : Type 0 where
  pub at : (j : String) → unsettled j p.world ≡ true → attended j p.live ≡ true

attended-append :
    (j : String) (ts us : List Task)
    → attended j (ts ++ us) ≡ (if attended j ts then true else attended j us)
attended-append j [] us = refl
attended-append j (t ∷ ts) us = ground (arith, attended-append j ts us)

pick-attended :
    (j : String) (k : ℕ) (ts : List Task) (t : Task) (us : List Task)
    → pick k ts ≡ some (t, us)
    → attended j ts ≡ (if about j t then true else attended j us)
unfolding pick
pick-attended j k [] t us found = absurd (ground arith)
pick-attended j zero (s ∷ ts) t us found = ground arith
pick-attended j (suc k) (s ∷ ts) t us found = elim (Option-cases (pick k ts)) [
  | inl missing ↦ absurd (ground arith)
  | inr ((u, vs), known) ↦ ground (arith, pick-attended j k ts u vs known)
]

-- A handler settles no adapter that is there already.
handler_about : (j : String) (t : Task) → is_handler t ≡ true → about j t ≡ false
handler_about j t h = ground arith

attended-drop_handler :
    (j : String) (k : ℕ) (ts : List Task) → attended j (drop_handler k ts) ≡ attended j ts
unfolding drop_handler
attended-drop_handler j k [] = refl
attended-drop_handler j zero (t ∷ ts) = elim (Bool-cases (is_handler t)) [
  | inl dropped ↦ rw (dropped, handler_about j t dropped) refl
  | inr kept ↦ rw kept refl
]
attended-drop_handler j (suc k) (t ∷ ts) = ground (arith, attended-drop_handler j k ts)

-- A stretch of code, where the tasks beside it attend to every adapter that is not the code's own.
advance-IsAttended :
    (act : Act World Next) (own : String → Bool) (others : List Task) (w : World)
    → ((j : String) → Hands j (own j) (clear w) (act (clear w)))
    → ((j : String) → unsettled j w ≡ true → own j ≡ false → attended j others ≡ true)
    → IsAttended (advance act others w)
unfolding advance unsettled
advance-IsAttended act own others w hands rest = record {
  at = λ j u.
      let r = act (clear w) in
      let joined = attended-append j (next_list r.0 ++ map task_of r.1.spawned) others in
      let left = attended-append j (next_list r.0) (map task_of r.1.spawned) in
      let left' = attended-append j (next_list r.0) (map task_of r.1.spawned ++ others) in
      let right = attended-append j (map task_of r.1.spawned) others in
      elim (Bool-cases (attended j (next_list r.0 ++ map task_of r.1.spawned))) [
        | inl kept ↦ ground arith
        | inr handed ↦
            let (before, foreign) = (hands j).over u handed in
            let still = rest j before foreign in ground arith
      ];
}

module _ (env : Env) where
  step-IsAttended : (move : Move) (p : Pool) → IsAttended p → IsAttended (step env move p)
  unfolding step
  step-IsAttended (ask_install job image_ref checksum) p h =
      advance-IsAttended (begin_install env job image_ref checksum) (λ _. false) p.live p.world
        (λ j. begin_install-Hands env j job image_ref checksum (clear p.world) refl)
        (λ j u _. h.at j u)
  step-IsAttended (ask_remove id) p h =
      advance-IsAttended (begin_remove env id) (λ _. false) p.live p.world
        (λ j. begin_remove-Hands env j id (clear p.world) refl) (λ j u _. h.at j u)
  step-IsAttended (tick now timeout) p h =
      advance-IsAttended (begin_offload env now timeout) (λ _. false) p.live p.world
        (λ j. begin_offload-Hands env j now timeout (clear p.world) refl) (λ j u _. h.at j u)
  step-IsAttended (go k) p h = elim (Option-cases (pick k p.live)) [
    | inl missing ↦ rw (step_idle env k p missing) h
    | inr ((t, others), found) ↦ rw (step-go env k p t others found) (
        advance-IsAttended (resume env t) (λ j. about j t) others p.world
          (λ j. resume-Hands env j t (clear p.world) refl)
          (λ j u foreign. ground (arith, h.at j u, pick-attended j k p.live t others found)))
  ]
  step-IsAttended (abandon k) p h = record {
    at = λ j u. attended-drop_handler j k p.live ∙ h.at j u;
  }

  -- However requests, ticks of the timer, the steps of the tasks and the going away of clients interleave, and
  -- whatever podman answers: from a pool where every adapter that is neither STOPPED nor in ERROR has a live task that
  -- will settle it, such a pool is reached.
  pub exec-IsAttended :
      (moves : List Move) (p : Pool) → IsAttended p → IsAttended (exec env moves p)
  unfolding exec
  exec-IsAttended [] p h = h
  exec-IsAttended (move ∷ moves) p h =
      exec-IsAttended moves (step env move p) (step-IsAttended move p h)

  run_with-IsAttended :
      (choose : List Task → ℕ) (n : ℕ) (p : Pool)
      → IsAttended p
      → IsAttended (run_with env choose n p)
  unfolding run_with
  run_with-IsAttended choose zero p h = h
  run_with-IsAttended choose (suc n) p h =
      run_with-IsAttended choose n (step env (go (choose p.live)) p)
        (step-IsAttended (go (choose p.live)) p h)

  -- Once requests and ticks have ceased, from a pool where every adapter that is neither STOPPED nor in
  -- ERROR has a live task that will settle it: whichever live task gets its answer from podman each time, and
  -- whatever the answer, after as many steps as `total` says every adapter that the service still has is STOPPED or
  -- in ERROR.
  pub run_with_settles :
      (choose : List Task → ℕ) (n : ℕ) (p : Pool) (id : String) (adapter : AdapterEntry)
      → IsAttended p
      → IsChoice choose
      → total p.live ≤ n
      → get_adapter id (run_with env choose n p).world.mgr ≡ some adapter
      → is_final adapter.state ≡ true
  unfolding unsettled
  run_with_settles choose n p id adapter h fair enough found =
      let q : Pool = run_with env choose n p in
      let ended = run_with_ends env choose n p fair enough in
      let kept = (run_with-IsAttended choose n p h).at id in
      elim (Bool-cases (is_final adapter.state)) [
        | inl final ↦ final
        | inr moving ↦ absurd (ground (arith, kept (ground arith)))
      ]
