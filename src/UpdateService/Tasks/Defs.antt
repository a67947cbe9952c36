-- ===== src/UpdateService/Tasks/Defs.antt =====
-- The requests and tasks of the service, and runs of them. A run takes them one after another;
-- interleavings within one are runs of the state manager's operations (StateManager/Ops.antt).
use parking_fee_service.Prelude.{ℕ, String, List, [], ◌∷◌, Act, ◌>>◌, pure}
use parking_fee_service.UpdateService.World.{Env, World, Spawned, install_task, monitor_task}
use parking_fee_service.UpdateService.Install.{install_adapter, remove_adapter, pull_verify_run}
use parking_fee_service.UpdateService.Monitor.{monitor_container}
use parking_fee_service.UpdateService.Offload.{run_offload_cycle}

-- What makes the service act: a request, a spawned task that is run, a tick of the offload timer.
pub data Stimulus : Type 0 where
  install : String → String → String → Stimulus
  remove : String → Stimulus
  task : Spawned → Stimulus
  offload_tick : ℕ → ℕ → Stimulus

module _ (env : Env) where
  -- The future behind a spawned task.
  unfoldable pub run_task : Spawned → Act World (Unit {0})
  run_task (install_task adapter_id image_ref checksum) =
      pull_verify_run env adapter_id image_ref checksum
  run_task (monitor_task adapter_id) = monitor_container env adapter_id

  unfoldable pub react : Stimulus → Act World (Unit {0})
  unfolding run_task
  react (install job_id image_ref checksum) = do
    install_adapter env job_id image_ref checksum
    pure tt
  react (remove adapter_id) = do remove_adapter env adapter_id; pure tt
  react (task t) = run_task t
  react (offload_tick now timeout) = run_offload_cycle env now timeout

  unfoldable pub react_all : List Stimulus → Act World (Unit {0})
  unfolding react
  react_all [] = pure tt
  react_all (s ∷ rest) = do react s; react_all rest
