-- ===== src/UpdateService/Tasks/Validity.antt =====
-- The state manager stays valid under every request and task.
use parking_fee_service.Prelude.{String, Option, none, some, List, [], ◌∷◌, Result, ok, err}
use parking_fee_service.Prelude.Number.{ℤ}
use parking_fee_service.UpdateService.Adapter.{AdapterEntry}
use parking_fee_service.UpdateService.Podman.{PodmanError}
use parking_fee_service.UpdateService.StateManager.{StateManager}
use parking_fee_service.UpdateService.StateManager.Invariant.{IsValid, apply-IsValid}
use parking_fee_service.UpdateService.World.{Env, World, Spawned, install_task, monitor_task}
use parking_fee_service.UpdateService.World.Keeps.{
  Keeps, IsStable, IsSteady, IsStable-IsSteady, keeps_rules, Keeps-bind,
}
use parking_fee_service.UpdateService.Install
use parking_fee_service.UpdateService.Install.{fresh_entry}
use parking_fee_service.UpdateService.Monitor.{monitor_container, record_exit}
use parking_fee_service.UpdateService.Offload
use parking_fee_service.UpdateService.Tasks.Defs.{
  Stimulus, install, remove, task, offload_tick, run_task, react, react_all,
}

-- Every property that the operations keep is kept by the requests and the tasks.
module _ {P : StateManager → Type 0} (steady : IsSteady P) (env : Env) where
  pub record_exit-Keeps : (id : String) (r : Result ℤ PodmanError) → Keeps P (record_exit env id r)
  unfolding record_exit
  record_exit-Keeps id (ok code) = search (keeps_rules, steady)
  record_exit-Keeps id (err e) = search (keeps_rules, steady)

  monitor_container-Keeps : (id : String) → Keeps P (monitor_container env id)
  unfolding monitor_container
  monitor_container-Keeps id = search (keeps_rules, record_exit-Keeps)

module _ {P : StateManager → Type 0} (stable : IsStable P) (env : Env) where
  steady : IsSteady P
  steady = IsStable-IsSteady stable

  after_run-Keeps :
      (id : String) (r : Result (Unit {0}) PodmanError) → Keeps P (Install.after_run env id r)
  unfolding Install.after_run
  after_run-Keeps id (ok _) = search (keeps_rules, steady)
  after_run-Keeps id (err e) = search (keeps_rules, steady)

  after_inspect-Keeps :
      (id image_ref checksum : String) (r : Result String PodmanError)
      → Keeps P (Install.after_inspect env id image_ref checksum r)
  unfolding Install.after_inspect
  after_inspect-Keeps id image_ref checksum (ok digest) =
      search (keeps_rules, steady, after_run-Keeps)
  after_inspect-Keeps id image_ref checksum (err e) = search (keeps_rules, steady)

  after_pull-Keeps :
      (id image_ref checksum : String) (r : Result (Unit {0}) PodmanError)
      → Keeps P (Install.after_pull env id image_ref checksum r)
  unfolding Install.after_pull
  after_pull-Keeps id image_ref checksum (ok _) = search (keeps_rules, after_inspect-Keeps)
  after_pull-Keeps id image_ref checksum (err e) = search (keeps_rules, steady)

  run_task-Keeps : (t : Spawned) → Keeps P (run_task env t)
  unfolding run_task Install.pull_verify_run
  run_task-Keeps (install_task id image_ref checksum) = search (keeps_rules, after_pull-Keeps)
  run_task-Keeps (monitor_task id) = monitor_container-Keeps steady env id

  stop_running-Keeps : (active : Option AdapterEntry) → Keeps P (Install.stop_running env active)
  unfolding Install.stop_running
  stop_running-Keeps none = search keeps_rules
  stop_running-Keeps (some entry) = search (keeps_rules, record_stop-Keeps)
    where
      record_stop-Keeps :
          (id : String) (r : Result (Unit {0}) PodmanError) → Keeps P (Install.record_stop env id r)
      record_stop-Keeps id (ok _) = search (keeps_rules, steady)
      record_stop-Keeps id (err e) = search (keeps_rules, steady)

  install_adapter-Keeps :
      (job_id image_ref checksum : String)
      → Keeps P (Install.install_adapter env job_id image_ref checksum)
  unfolding Install.install_adapter
  install_adapter-Keeps job_id image_ref checksum =
      search (keeps_rules, steady, stable, stop_running-Keeps) depth 9

  fail_removal-Keeps : (id : String) (e : PodmanError) → Keeps P (Install.fail_removal env id e)
  unfolding Install.fail_removal
  fail_removal-Keeps id e = search (keeps_rules, steady)

  after_rmi-Keeps :
      (id : String) (r : Result (Unit {0}) PodmanError) → Keeps P (Install.after_rmi env id r)
  unfolding Install.after_rmi
  after_rmi-Keeps id (ok _) = search (keeps_rules, steady)
  after_rmi-Keeps id (err e) = fail_removal-Keeps id e

  after_rm-Keeps :
      (id image_ref : String) (r : Result (Unit {0}) PodmanError)
      → Keeps P (Install.after_rm env id image_ref r)
  unfolding Install.after_rm
  after_rm-Keeps id image_ref (ok _) = search (keeps_rules, after_rmi-Keeps)
  after_rm-Keeps id image_ref (err e) = fail_removal-Keeps id e

  after_stop-Keeps :
      (id image_ref : String) (r : Result (Unit {0}) PodmanError)
      → Keeps P (Install.after_stop env id image_ref r)
  unfolding Install.after_stop
  after_stop-Keeps id image_ref (ok _) = search (keeps_rules, after_rm-Keeps)
  after_stop-Keeps id image_ref (err e) = fail_removal-Keeps id e

  remove_found-Keeps :
      (id : String) (found : Option AdapterEntry) → Keeps P (Install.remove_found env id found)
  unfolding Install.remove_found
  remove_found-Keeps id none = search keeps_rules
  remove_found-Keeps id (some adapter) = search (keeps_rules, after_stop-Keeps)

  offload-Keeps : (adapter : AdapterEntry) → Keeps P (Offload.offload env adapter)
  unfolding Offload.offload
  offload-Keeps adapter = search (keeps_rules, steady, rm_done)
    where
      rmi_done : (r : Result (Unit {0}) PodmanError) → Keeps P (Offload.after_rmi env adapter r)
      rmi_done (ok _) = search (keeps_rules, steady)
      rmi_done (err e) = search (keeps_rules, steady)

      rm_done : (r : Result (Unit {0}) PodmanError) → Keeps P (Offload.after_rm env adapter r)
      rm_done (ok _) = search (keeps_rules, rmi_done)
      rm_done (err e) = search (keeps_rules, steady)

  offload_all-Keeps : (adapters : List AdapterEntry) → Keeps P (Offload.offload_all env adapters)
  unfolding Offload.offload_all
  offload_all-Keeps [] = search keeps_rules
  offload_all-Keeps (adapter ∷ rest) =
      Keeps-bind (Offload.offload env adapter) (λ _. Offload.offload_all env rest)
        (offload-Keeps adapter) (λ _. offload_all-Keeps rest)

  react-Keeps : (s : Stimulus) → Keeps P (react env s)
  unfolding react Install.remove_adapter Offload.run_offload_cycle
  react-Keeps (install job_id image_ref checksum) = search (keeps_rules, install_adapter-Keeps)
  react-Keeps (remove id) = search (keeps_rules, remove_found-Keeps)
  react-Keeps (task t) = run_task-Keeps t
  react-Keeps (offload_tick now timeout) = search (keeps_rules, offload_all-Keeps)

  react_all-Keeps : (ss : List Stimulus) → Keeps P (react_all env ss)
  unfolding react_all
  react_all-Keeps [] = search keeps_rules
  react_all-Keeps (s ∷ ss) =
      Keeps-bind (react env s) (λ _. react_all env ss) (react-Keeps s) (λ _. react_all-Keeps ss)

-- From a valid state manager, any requests, spawned tasks and ticks of the offload timer, whatever
-- podman answers, lead to a valid one: no identifier has two entries, every entry stands under its own
-- identifier, and every stopped adapter has a time of stopping.
pub react_all-IsValid :
    (env : Env) (ss : List Stimulus) (w : World)
    → IsValid w.mgr
    → IsValid (react_all env ss w).1.mgr
react_all-IsValid env ss w v = (react_all-Keeps apply-IsValid env ss).at w v
