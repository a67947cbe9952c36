-- ===== src/UpdateService/Pool/Verified.antt =====
-- What had to happen before a container is started, however the tasks interleave.
pub mod Defs
mod Calls
mod Steps
use parking_fee_service.Prelude.{
  zero, suc, String, ◌≡◌, refl, inl, inr, Option, none, some, List, [], ◌∷◌, map, Result, ok, err,
  ℕ, All, arith, ◌∙◌, Option-cases, Bool-cases, eq_iff, ◌==◌, Act, All-append, ◌++◌,
}
use parking_fee_service.UpdateService.Adapter.{AdapterEntry}
use parking_fee_service.UpdateService.Podman.{PodmanCall, PodmanError}
use parking_fee_service.UpdateService.World
use parking_fee_service.UpdateService.World.{Env, World}
use parking_fee_service.UpdateService.Install.{record_stop}
use parking_fee_service.UpdateService.Monitor.{record_exit}
use parking_fee_service.UpdateService.Pool.{
  Task, stopping, pulling, inspecting, starting, discarding, waiting, removing_stop, removing_rm,
  removing_rmi, offloading_rm, offloading_rmi, Next, task_of, resume, pulled, started, inspected,
  removal_stopped, removal_removed, removal_done, offload_removed, offload_done, next_offload, fail,
  accept, begin_install, begin_remove, begin_offload, get_running_adapter, get_offload_candidates,
  stop_active, is_empty,
}
use parking_fee_service.UpdateService.Pool.Schedule.{
  Pool, next_list, pick, step, Move, advance, exec, ask_install, ask_remove, clear, tick, go,
  abandon, is_handler, drop_handler, step_idle, step-go,
}
use parking_fee_service.UpdateService.Pool.Verified.Defs.{
  Verified, earlier, IsCovered, IsJustified, IsSafe, IsAsked,
}
use parking_fee_service.UpdateService.Pool.Verified.Calls.{
  awaited, resume-calls, begin_install-calls, begin_remove-calls, begin_offload-calls,
}
use parking_fee_service.UpdateService.Pool.Verified.Steps.{
  Leaves, resume-Leaves, begin_install-Leaves, begin_remove-Leaves, begin_offload-Leaves,
}

-- `Asked` holds of the images and checksums of the requests.
module _ (env : Env) (Asked : String → String → Type 0) where
  Verified-append :
      (t : Task) (calls : List PodmanCall) (call : PodmanCall)
      → IsJustified env Asked calls t
      → IsJustified env Asked (call ∷ calls) t
  Verified-append (stopping _ _ _ _) calls call j = j
  Verified-append (pulling _ _ _) calls call j = j
  Verified-append (inspecting _ _ _) calls call j = j
  Verified-append (starting _ _ _) calls call j = (j.0, earlier call calls j.1)
  Verified-append (discarding _) calls call j = tt
  Verified-append (waiting _) calls call j = tt
  Verified-append (removing_stop _ _) calls call j = tt
  Verified-append (removing_rm _ _) calls call j = tt
  Verified-append (removing_rmi _ _) calls call j = tt
  Verified-append (offloading_rm _ _) calls call j = tt
  Verified-append (offloading_rmi _ _) calls call j = tt

  -- The tasks beside the one that goes on.
  waits :
      (ts : List Task) (calls : List PodmanCall) (call : PodmanCall)
      → All (IsJustified env Asked calls) ts
      → All (IsJustified env Asked (call ∷ calls)) ts
  waits [] calls call js = tt
  waits (t ∷ ts) calls call js = (Verified-append t calls call js.0, waits ts calls call js.1)

  picked :
      (k : ℕ) (ts : List Task) (t : Task) (us : List Task) (P : Task → Type 0)
      → pick k ts ≡ some (t, us)
      → All P ts
      → P t × All P us
  unfolding pick
  picked k [] t us P found js = absurd (ground arith)
  picked zero (s ∷ ts) t us P found js = ground arith
  picked (suc k) (s ∷ ts) t us P found js = elim (Option-cases (pick k ts)) [
    | inl missing ↦ absurd (ground arith)
    | inr ((u, vs), known) ↦ ground (arith, picked k ts u vs P known js.1)
  ]

  All-drop_handler :
      (P : Task → Type 0) (k : ℕ) (ts : List Task) → All P ts → All P (drop_handler k ts)
  unfolding drop_handler
  All-drop_handler P k [] js = tt
  All-drop_handler P zero (t ∷ ts) js = elim (Bool-cases (is_handler t)) [
    | inl dropped ↦ rw dropped js.1
    | inr kept ↦ rw kept js
  ]
  All-drop_handler P (suc k) (t ∷ ts) js = (js.0, All-drop_handler P k ts js.1)

  advance-IsSafe :
      (act : Act World Next) (others : List Task) (w : World)
      → Leaves env Asked (act (clear w))
      → All (IsJustified env Asked (act (clear w)).1.calls) others
      → IsSafe env Asked (advance act others w)
  unfolding advance
  advance-IsSafe act others w l js = record {
    covered = l.covered;
    justified =
        All-append (IsJustified env Asked (act (clear w)).1.calls) (next_list (act (clear w)).0)
          (map task_of (act (clear w)).1.spawned ++ others) l.next
          (All-append (IsJustified env Asked (act (clear w)).1.calls)
            (map task_of (act (clear w)).1.spawned) others l.spawned js);
  }

  step-IsSafe :
      (move : Move) (p : Pool)
      → IsAsked env Asked move
      → IsSafe env Asked p
      → IsSafe env Asked (step env move p)
  unfolding step
  step-IsSafe (ask_install job image_ref checksum) p a s =
      advance-IsSafe (begin_install env job image_ref checksum) p.live p.world
        (begin_install-Leaves env Asked job image_ref checksum (clear p.world) refl s.covered a)
        (rw (begin_install-calls env job image_ref checksum (clear p.world)) s.justified)
  step-IsSafe (ask_remove id) p a s =
      advance-IsSafe (begin_remove env id) p.live p.world
        (begin_remove-Leaves env Asked id (clear p.world) refl s.covered)
        (rw (begin_remove-calls env id (clear p.world)) s.justified)
  step-IsSafe (tick instant timeout) p a s =
      advance-IsSafe (begin_offload env instant timeout) p.live p.world
        (begin_offload-Leaves env Asked instant timeout (clear p.world) refl s.covered)
        (rw (begin_offload-calls env instant timeout (clear p.world)) s.justified)
  step-IsSafe (go k) p a s = elim (Option-cases (pick k p.live)) [
    | inl missing ↦ rw (step_idle env k p missing) s
    | inr ((t, others), found) ↦
        let (j, js) =
          picked k p.live t others (IsJustified env Asked p.world.calls) found s.justified in
        rw (step-go env k p t others found) (
          advance-IsSafe (resume env t) others p.world
            (resume-Leaves env Asked t (clear p.world) refl s.covered j)
            (rw (resume-calls env t (clear p.world))
              (waits others p.world.calls (awaited env t) js)))
  ]
  step-IsSafe (abandon k) p a s = record {
    covered = s.covered;
    justified = All-drop_handler (IsJustified env Asked p.world.calls) k p.live s.justified;
  }

  -- However requests, ticks of the timer, the steps of the tasks and the going away of clients interleave, and
  -- whatever podman answers: if `Asked` holds of the image and the checksum of every installation that is asked for,
  -- and the pool is safe to begin with, then it is safe in the end. In a safe pool every start of a
  -- container came after podman had reported, for its image, a digest that was asked for with that
  -- image, and no live task is about to start another one without that.
  pub exec-IsSafe :
      (moves : List Move) (p : Pool)
      → All (IsAsked env Asked) moves
      → IsSafe env Asked p
      → IsSafe env Asked (exec env moves p)
  unfolding exec
  exec-IsSafe [] p a s = s
  exec-IsSafe (move ∷ moves) p a s =
      exec-IsSafe moves (step env move p) a.1 (step-IsSafe move p a.0 s)
