-- ===== src/UpdateService/Pool/Validity.antt =====
-- The state manager stays valid however the tasks interleave.
use parking_fee_service.Prelude.{
  String, Option, none, some, List, [], ◌∷◌, Result, ok, err, ℕ, Act, Option-cases, inl, inr,
}
use parking_fee_service.UpdateService.Adapter.{AdapterEntry}
use parking_fee_service.UpdateService.Podman.{PodmanError}
use parking_fee_service.UpdateService.StateManager.{StateManager}
use parking_fee_service.UpdateService.StateManager.Invariant.{IsValid, apply-IsValid}
use parking_fee_service.UpdateService.World.{Env, World}
use parking_fee_service.UpdateService.World.Keeps.{
  Keeps, IsStable, IsSteady, IsStable-IsSteady, keeps_rules,
}
use parking_fee_service.UpdateService.Install.{record_stop, fresh_entry}
use parking_fee_service.UpdateService.Tasks.Validity.{record_exit-Keeps}
use parking_fee_service.UpdateService.Pool
use parking_fee_service.UpdateService.Pool.{
  Task, Next, resume, begin_install, begin_remove, begin_offload, next_offload, accept, stop_active,
  fail, stopping, pulling, inspecting, starting, discarding, waiting, removing_stop, removing_rm,
  removing_rmi, offloading_rm, offloading_rmi,
}
use parking_fee_service.UpdateService.Pool.Schedule.{
  Pool, Move, ask_install, ask_remove, tick, go, abandon, advance, clear, pick, step, step-go,
  step_idle, exec,
}

module _ {P : StateManager → Type 0} (steady : IsSteady P) (env : Env)
    (accepts : (job image_ref checksum : String)
      → Keeps P (accept env job image_ref checksum)) where
  fail-Keeps : (id message : String) → Keeps P (fail env id message)
  unfolding fail
  fail-Keeps id message = search (keeps_rules, steady)

  next_offload-Keeps : (adapters : List AdapterEntry) → Keeps P (next_offload env adapters)
  unfolding next_offload
  next_offload-Keeps [] = search keeps_rules
  next_offload-Keeps (a ∷ rest) = search (keeps_rules, steady)

  pulled-Keeps :
      (id image_ref checksum : String) (r : Result (Unit {0}) PodmanError)
      → Keeps P (Pool.pulled env id image_ref checksum r)
  unfolding Pool.pulled
  pulled-Keeps id image_ref checksum (ok _) = search keeps_rules
  pulled-Keeps id image_ref checksum (err e) = fail-Keeps id e.message

  inspected-Keeps :
      (id image_ref checksum : String) (r : Result String PodmanError)
      → Keeps P (Pool.inspected env id image_ref checksum r)
  unfolding Pool.inspected
  inspected-Keeps id image_ref checksum (ok digest) = search (keeps_rules, steady)
  inspected-Keeps id image_ref checksum (err e) = fail-Keeps id e.message

  started-Keeps :
      (id : String) (r : Result (Unit {0}) PodmanError) → Keeps P (Pool.started env id r)
  unfolding Pool.started
  started-Keeps id (ok _) = search (keeps_rules, steady)
  started-Keeps id (err e) = fail-Keeps id e.message

  removal_stopped-Keeps :
      (id image_ref : String) (r : Result (Unit {0}) PodmanError)
      → Keeps P (Pool.removal_stopped env id image_ref r)
  unfolding Pool.removal_stopped
  removal_stopped-Keeps id image_ref (ok _) = search keeps_rules
  removal_stopped-Keeps id image_ref (err e) = fail-Keeps id e.message

  removal_removed-Keeps :
      (id image_ref : String) (r : Result (Unit {0}) PodmanError)
      → Keeps P (Pool.removal_removed env id image_ref r)
  unfolding Pool.removal_removed
  removal_removed-Keeps id image_ref (ok _) = search keeps_rules
  removal_removed-Keeps id image_ref (err e) = fail-Keeps id e.message

  removal_done-Keeps :
      (id : String) (r : Result (Unit {0}) PodmanError) → Keeps P (Pool.removal_done env id r)
  unfolding Pool.removal_done
  removal_done-Keeps id (ok _) = search (keeps_rules, steady)
  removal_done-Keeps id (err e) = fail-Keeps id e.message

  offload_removed-Keeps :
      (a : AdapterEntry) (rest : List AdapterEntry) (r : Result (Unit {0}) PodmanError)
      → Keeps P (Pool.offload_removed env a rest r)
  unfolding Pool.offload_removed
  offload_removed-Keeps a rest (ok _) = search keeps_rules
  offload_removed-Keeps a rest (err e) = search (keeps_rules, steady, next_offload-Keeps)

  offload_done-Keeps :
      (a : AdapterEntry) (rest : List AdapterEntry) (r : Result (Unit {0}) PodmanError)
      → Keeps P (Pool.offload_done env a rest r)
  unfolding Pool.offload_done
  offload_done-Keeps a rest (ok _) = search (keeps_rules, steady, next_offload-Keeps)
  offload_done-Keeps a rest (err e) = search (keeps_rules, steady, next_offload-Keeps)

  record_stop-Keeps :
      (id : String) (r : Result (Unit {0}) PodmanError) → Keeps P (record_stop env id r)
  unfolding record_stop
  record_stop-Keeps id (ok _) = search (keeps_rules, steady)
  record_stop-Keeps id (err e) = search (keeps_rules, steady)

  stop_active-Keeps :
      (job image_ref checksum : String) (active : Option AdapterEntry)
      → Keeps P (stop_active env job image_ref checksum active)
  unfolding stop_active
  stop_active-Keeps job image_ref checksum none = accepts job image_ref checksum
  stop_active-Keeps job image_ref checksum (some a) = search keeps_rules

  begin_install-Keeps :
      (job image_ref checksum : String) → Keeps P (begin_install env job image_ref checksum)
  unfolding begin_install
  begin_install-Keeps job image_ref checksum = search (keeps_rules, stop_active-Keeps)

  begin_remove-Keeps : (id : String) → Keeps P (begin_remove env id)
  unfolding begin_remove
  begin_remove-Keeps id = search keeps_rules

  begin_offload-Keeps : (now timeout : ℕ) → Keeps P (begin_offload env now timeout)
  unfolding begin_offload
  begin_offload-Keeps now timeout = search (keeps_rules, next_offload-Keeps)

  resume-Keeps : (t : Task) → Keeps P (resume env t)
  unfolding resume
  resume-Keeps (stopping job image_ref checksum active) =
      search (keeps_rules, record_stop-Keeps, accepts)
  resume-Keeps (pulling id image_ref checksum) = search (keeps_rules, pulled-Keeps)
  resume-Keeps (inspecting id image_ref checksum) = search (keeps_rules, inspected-Keeps)
  resume-Keeps (starting id image_ref checksum) = search (keeps_rules, started-Keeps)
  resume-Keeps (discarding image_ref) = search keeps_rules
  resume-Keeps (waiting id) = search (keeps_rules, record_exit-Keeps, steady)
  resume-Keeps (removing_stop id image_ref) = search (keeps_rules, removal_stopped-Keeps)
  resume-Keeps (removing_rm id image_ref) = search (keeps_rules, removal_removed-Keeps)
  resume-Keeps (removing_rmi id image_ref) = search (keeps_rules, removal_done-Keeps)
  resume-Keeps (offloading_rm a rest) = search (keeps_rules, offload_removed-Keeps)
  resume-Keeps (offloading_rmi a rest) = search (keeps_rules, offload_done-Keeps)

  advance-Keeps :
      (act : Act World Next) (others : List Task) (w : World)
      → Keeps P act
      → P w.mgr
      → P (advance act others w).world.mgr
  unfolding advance
  advance-Keeps act others w k h = k.at (clear w) h

  step-Keeps : (move : Move) (p : Pool) → P p.world.mgr → P (step env move p).world.mgr
  unfolding step
  step-Keeps (ask_install job image_ref checksum) p h =
      advance-Keeps (begin_install env job image_ref checksum) p.live p.world
        (begin_install-Keeps job image_ref checksum) h
  step-Keeps (ask_remove id) p h =
      advance-Keeps (begin_remove env id) p.live p.world (begin_remove-Keeps id) h
  step-Keeps (tick now timeout) p h =
      advance-Keeps (begin_offload env now timeout) p.live p.world (begin_offload-Keeps now timeout)
        h
  step-Keeps (go k) p h = elim (Option-cases (pick k p.live)) [
    | inl missing ↦ rw (step_idle env k p missing) h
    | inr ((t, others), found) ↦
        rw (step-go env k p t others found)
          (advance-Keeps (resume env t) others p.world (resume-Keeps t) h)
  ]
  step-Keeps (abandon k) p h = h

  pub exec-Keeps : (moves : List Move) (p : Pool) → P p.world.mgr → P (exec env moves p).world.mgr
  unfolding exec
  exec-Keeps [] p h = h
  exec-Keeps (move ∷ moves) p h = exec-Keeps moves (step env move p) (step-Keeps move p h)

-- A property that every operation of the program keeps.
accept-Keeps :
    {P : StateManager → Type 0} (stable : IsStable P) (env : Env) (job image_ref checksum : String)
    → Keeps P (accept env job image_ref checksum)
unfolding accept fresh_entry
accept-Keeps stable env job image_ref checksum =
    let steady = IsStable-IsSteady stable in search (keeps_rules, stable, steady) depth 9

-- From a valid state manager, however requests, ticks of the timer, the steps of the tasks and the going away of
-- clients interleave, and whatever podman answers, the state manager is valid: no identifier has two entries,
-- every entry stands under its own identifier, and every stopped adapter has a time of stopping.
pub exec-IsValid :
    (env : Env) (moves : List Move) (p : Pool)
    → IsValid p.world.mgr
    → IsValid (exec env moves p).world.mgr
exec-IsValid env moves p v =
    exec-Keeps (IsStable-IsSteady apply-IsValid) env (accept-Keeps apply-IsValid env) moves p v
