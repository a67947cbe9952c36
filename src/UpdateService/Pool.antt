-- ===== src/UpdateService/Pool.antt =====
-- The tasks of rhivos/update-service as they run at the same time: each is suspended at an await of a
-- podman operation, with what it holds there. A step takes one task from its await to the next one; the
-- operation and its answer are one moment, and other tasks run between any two of them. A spawned task
-- does nothing before its first await.
pub mod Schedule
pub mod Validity
pub mod Cost
pub mod Verified
pub mod Attended
pub mod Replaced
mod Tests
use parking_fee_service.Prelude.{
  ℕ, zero, suc, String, Option, none, some, List, [], ◌∷◌, ◌++◌, map, Result, ok, err, Act, ◌>>=◌,
  ◌>>◌, pure, if◌then◌else◌, ◌==◌,
}
use parking_fee_service.Prelude.Text.{is_empty}
use parking_fee_service.UpdateService.Adapter.{
  AdapterEntry, derive_adapter_id, state_eq, downloading, installing, running, error, offloading,
}
use parking_fee_service.UpdateService.Podman.{PodmanError}
use parking_fee_service.UpdateService.StateManager.{
  get_adapter, get_running_adapter, get_offload_candidates,
}
use parking_fee_service.UpdateService.Install.{fresh_entry, record_stop}
use parking_fee_service.UpdateService.Monitor.{record_exit}
use parking_fee_service.UpdateService.World.{
  Env, World, Spawned, install_task, monitor_task, pull, inspect_digest, run, stop, rm, rmi, wait,
  transition, create_adapter, remove_adapter, gets, spawn,
}

-- Where a task stands, with the variables that are live there.
pub data Task : Type 0 where
  stopping : String → String → String → String → Task  -- `install_adapter`: job, image, checksum, running
  pulling : String → String → String → Task  -- the installation: adapter, image, checksum
  inspecting : String → String → String → Task
  starting : String → String → String → Task
  discarding : String → Task  -- after a mismatch: image
  waiting : String → Task  -- `monitor_container`
  removing_stop : String → String → Task  -- `remove_adapter`: adapter, image
  removing_rm : String → String → Task
  removing_rmi : String → String → Task
  offloading_rm : AdapterEntry → List AdapterEntry → Task  -- `run_offload_cycle`: the adapter, the rest
  offloading_rmi : AdapterEntry → List AdapterEntry → Task

-- A task goes on, or it has ended.
abbrev pub Next : Type 0
Next = Option Task

-- The task that `tokio::spawn` starts.
abbrev pub task_of : Spawned → Task
task_of (install_task adapter_id image_ref checksum) = pulling adapter_id image_ref checksum
task_of (monitor_task adapter_id) = waiting adapter_id

module _ (env : Env) where
  -- `transition`, as the last thing that a task does.
  unfoldable pub fail : String → String → Act World Next
  fail adapter_id message = do transition env adapter_id error (some message); pure none

  -- `install_adapter` from the creation of the entry on.
  unfoldable pub accept : String → String → String → Act World Next
  accept job_id image_ref checksum = do
    let adapter_id = derive_adapter_id image_ref
    create_adapter (fresh_entry job_id adapter_id image_ref checksum)
    transition env adapter_id downloading none
    spawn (install_task adapter_id image_ref checksum)
    pure none

  -- `install_adapter` where it has looked for the adapter that runs.
  unfoldable pub stop_active : String → String → String → Option AdapterEntry → Act World Next
  unfolding accept
  stop_active job_id image_ref checksum none = accept job_id image_ref checksum
  stop_active job_id image_ref checksum (some active) =
      pure (some (stopping job_id image_ref checksum active.adapter_id))

  -- `install_adapter` up to its first await.
  unfoldable pub begin_install : String → String → String → Act World Next
  unfolding stop_active
  begin_install job_id image_ref checksum =
      if is_empty image_ref
      then pure none
      else if is_empty checksum
      then pure none
      else do active ← gets get_running_adapter; stop_active job_id image_ref checksum active

  -- `remove_adapter` up to its first await.
  unfoldable pub begin_remove : String → Act World Next
  begin_remove adapter_id = do
    found ← gets (get_adapter adapter_id)
    pure (elim found [
      | none ↦ none
      | some adapter ↦ some (
          if state_eq adapter.state running
          then removing_stop adapter_id adapter.image_ref
          else removing_rm adapter_id adapter.image_ref)
    ])

  -- The loop of `run_offload_cycle`, up to its next await.
  unfoldable pub next_offload : List AdapterEntry → Act World Next
  next_offload [] = pure none
  next_offload (adapter ∷ rest) = do
    transition env adapter.adapter_id offloading none
    pure (some (offloading_rm adapter rest))

  -- `run_offload_cycle` up to its first await.
  unfoldable pub begin_offload : ℕ → ℕ → Act World Next
  unfolding next_offload
  begin_offload now timeout = do
    candidates ← gets (get_offload_candidates now timeout)
    next_offload candidates

  -- What each task does with the answer to its await.
  unfoldable pub pulled : String → String → String → Result (Unit {0}) PodmanError → Act World Next
  unfolding fail
  pulled adapter_id image_ref checksum (err e) = fail adapter_id e.message
  pulled adapter_id image_ref checksum (ok _) =
      pure (some (inspecting adapter_id image_ref checksum))

  unfoldable pub inspected : String → String → String → Result String PodmanError → Act World Next
  unfolding fail
  inspected adapter_id image_ref checksum (err e) = fail adapter_id e.message
  inspected adapter_id image_ref checksum (ok digest) =
      if digest == checksum
      then (do
        transition env adapter_id installing none
        pure (some (starting adapter_id image_ref checksum)))
      else (do
        transition env adapter_id error (some "checksum_mismatch")
        pure (some (discarding image_ref)))

  unfoldable pub started : String → Result (Unit {0}) PodmanError → Act World Next
  unfolding fail
  started adapter_id (err e) = fail adapter_id e.message
  started adapter_id (ok _) = do
    transition env adapter_id running none
    spawn (monitor_task adapter_id)
    pure none

  unfoldable pub removal_stopped : String → String → Result (Unit {0}) PodmanError → Act World Next
  unfolding fail
  removal_stopped adapter_id image_ref (err e) = fail adapter_id e.message
  removal_stopped adapter_id image_ref (ok _) = pure (some (removing_rm adapter_id image_ref))

  unfoldable pub removal_removed : String → String → Result (Unit {0}) PodmanError → Act World Next
  unfolding fail
  removal_removed adapter_id image_ref (err e) = fail adapter_id e.message
  removal_removed adapter_id image_ref (ok _) = pure (some (removing_rmi adapter_id image_ref))

  unfoldable pub removal_done : String → Result (Unit {0}) PodmanError → Act World Next
  unfolding fail
  removal_done adapter_id (err e) = fail adapter_id e.message
  removal_done adapter_id (ok _) = do remove_adapter adapter_id; pure none

  unfoldable pub offload_removed :
      AdapterEntry → List AdapterEntry → Result (Unit {0}) PodmanError → Act World Next
  unfolding next_offload
  offload_removed adapter rest (err e) = do
    transition env adapter.adapter_id error (some e.message)
    next_offload rest
  offload_removed adapter rest (ok _) = pure (some (offloading_rmi adapter rest))

  unfoldable pub offload_done :
      AdapterEntry → List AdapterEntry → Result (Unit {0}) PodmanError → Act World Next
  unfolding next_offload
  offload_done adapter rest (err e) = do
    transition env adapter.adapter_id error (some e.message)
    next_offload rest
  offload_done adapter rest (ok _) = do remove_adapter adapter.adapter_id; next_offload rest

  -- One task, from its await to the next one.
  unfoldable pub resume : Task → Act World Next
  unfolding pulled inspected started removal_stopped removal_removed removal_done offload_removed
      offload_done accept
  resume (stopping job_id image_ref checksum active) = do
    outcome ← stop env active
    record_stop env active outcome
    accept job_id image_ref checksum
  resume (pulling adapter_id image_ref checksum) = do
    outcome ← pull env image_ref
    pulled adapter_id image_ref checksum outcome
  resume (inspecting adapter_id image_ref checksum) = do
    digest ← inspect_digest env image_ref
    inspected adapter_id image_ref checksum digest
  resume (starting adapter_id image_ref checksum) = do
    outcome ← run env adapter_id image_ref
    started adapter_id outcome
  resume (discarding image_ref) = do rmi env image_ref; pure none
  resume (waiting adapter_id) = do
    outcome ← wait env adapter_id
    record_exit env adapter_id outcome
    pure none
  resume (removing_stop adapter_id image_ref) = do
    outcome ← stop env adapter_id
    removal_stopped adapter_id image_ref outcome
  resume (removing_rm adapter_id image_ref) = do
    outcome ← rm env adapter_id
    removal_removed adapter_id image_ref outcome
  resume (removing_rmi adapter_id image_ref) = do
    outcome ← rmi env image_ref
    removal_done adapter_id outcome
  resume (offloading_rm adapter rest) = do
    outcome ← rm env adapter.adapter_id
    offload_removed adapter rest outcome
  resume (offloading_rmi adapter rest) = do
    outcome ← rmi env adapter.image_ref
    offload_done adapter rest outcome
