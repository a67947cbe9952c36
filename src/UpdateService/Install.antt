-- ===== src/UpdateService/Install.antt =====
-- rhivos/update-service/src/install.rs: `install_adapter`, the task that it spawns, and
-- `remove_adapter`. A stretch of code after an await is a function of its own, on the await's result.
pub mod Outcome
pub mod Single
pub mod Removal
pub mod Race
pub mod Starts
pub mod Sequence
pub mod Real
use parking_fee_service.Prelude.{
  String, ◌<>◌, Option, none, some, Result, ok, err, Act, ◌>>=◌, ◌>>◌, pure, if◌then◌else◌, ◌==◌,
}
use parking_fee_service.Prelude.Text.{is_empty}
use parking_fee_service.UpdateService.Adapter.{
  AdapterState, unknown, downloading, installing, running, stopped, error, state_eq, AdapterEntry,
  derive_adapter_id,
}
use parking_fee_service.UpdateService.Podman.{PodmanError}
use parking_fee_service.UpdateService.StateManager.{get_running_adapter, get_adapter}
use parking_fee_service.UpdateService.World.{
  Env, World, install_task, monitor_task, pull, inspect_digest, run, stop, rm, rmi, transition,
  create_adapter, remove_adapter as forget_adapter, gets, spawn,
}

pub data InstallError : Type 0 where
  invalid_argument : String → InstallError

pub data RemoveError : Type 0 where
  not_found podman_failed : String → RemoveError

-- The triple that `install_adapter` returns.
pub record InstallReply : Type 0 where
  pub job_id : String
  pub adapter_id : String
  pub state : AdapterState

-- `AdapterEntry { adapter_id, …, state: AdapterState::Unknown, … }`
unfoldable pub fresh_entry : String → String → String → String → AdapterEntry
fresh_entry job_id adapter_id image_ref checksum_sha256 = record {
  adapter_id = adapter_id;
  image_ref = image_ref;
  checksum_sha256 = checksum_sha256;
  state = unknown;
  job_id = job_id;
  stopped_at = none;
  error_message = none;
}

module _ (env : Env) where
  -- The `match` on `podman.stop(&running.adapter_id)`.
  unfoldable pub record_stop : String → Result (Unit {0}) PodmanError → Act World (Unit {0})
  record_stop adapter_id (ok _) = transition env adapter_id stopped none
  record_stop adapter_id (err e) = transition env adapter_id error (some e.message)

  -- The single adapter constraint: stop the adapter that runs.
  unfoldable pub stop_running : Option AdapterEntry → Act World (Unit {0})
  unfolding record_stop
  stop_running none = pure tt
  stop_running (some entry) = do
    outcome ← stop env entry.adapter_id
    record_stop entry.adapter_id outcome

  -- `install_adapter`; `job_id` is the fresh identifier of `Uuid::new_v4`.
  unfoldable pub install_adapter :
      String → String → String → Act World (Result InstallReply InstallError)
  unfolding stop_running fresh_entry
  install_adapter job_id image_ref checksum_sha256 =
      if is_empty image_ref
      then pure (err (invalid_argument "image_ref is required"))
      else if is_empty checksum_sha256
      then pure (err (invalid_argument "checksum_sha256 is required"))
      else do
        let adapter_id = derive_adapter_id image_ref
        active ← gets get_running_adapter
        stop_running active
        create_adapter (fresh_entry job_id adapter_id image_ref checksum_sha256)
        transition env adapter_id downloading none
        spawn (install_task adapter_id image_ref checksum_sha256)
        pure (ok (record { job_id = job_id; adapter_id = adapter_id; state = downloading }))

  -- After `pm.run(…)`.
  unfoldable pub after_run : String → Result (Unit {0}) PodmanError → Act World (Unit {0})
  after_run adapter_id (err e) = transition env adapter_id error (some e.message)
  after_run adapter_id (ok _) = do
    transition env adapter_id running none
    spawn (monitor_task adapter_id)

  -- After `pm.inspect_digest(…)`.
  unfoldable pub after_inspect :
      String → String → String → Result String PodmanError → Act World (Unit {0})
  unfolding after_run
  after_inspect adapter_id image_ref checksum (err e) =
      transition env adapter_id error (some e.message)
  after_inspect adapter_id image_ref checksum (ok digest) =
      if digest == checksum
      then (do
        transition env adapter_id installing none
        outcome ← run env adapter_id image_ref
        after_run adapter_id outcome)
      else (do
        transition env adapter_id error (some "checksum_mismatch")
        rmi env image_ref
        pure tt)

  -- After `pm.pull(…)`.
  unfoldable pub after_pull :
      String → String → String → Result (Unit {0}) PodmanError → Act World (Unit {0})
  unfolding after_inspect
  after_pull adapter_id image_ref checksum (err e) =
      transition env adapter_id error (some e.message)
  after_pull adapter_id image_ref checksum (ok _) = do
    digest ← inspect_digest env image_ref
    after_inspect adapter_id image_ref checksum digest

  -- The spawned pull, verify and run task.
  unfoldable pub pull_verify_run : String → String → String → Act World (Unit {0})
  unfolding after_pull
  pull_verify_run adapter_id image_ref checksum = do
    outcome ← pull env image_ref
    after_pull adapter_id image_ref checksum outcome

  -- A failed operation of `remove_adapter`.
  unfoldable pub fail_removal : String → PodmanError → Act World (Result (Unit {0}) RemoveError)
  fail_removal adapter_id e = do
    transition env adapter_id error (some e.message)
    pure (err (podman_failed e.message))

  -- After `podman.rmi(…)`.
  unfoldable pub after_rmi :
      String → Result (Unit {0}) PodmanError → Act World (Result (Unit {0}) RemoveError)
  unfolding fail_removal
  after_rmi adapter_id (err e) = fail_removal adapter_id e
  after_rmi adapter_id (ok _) = do forget_adapter adapter_id; pure (ok tt)

  -- After `podman.rm(…)`.
  unfoldable pub after_rm :
      String → String → Result (Unit {0}) PodmanError → Act World (Result (Unit {0}) RemoveError)
  unfolding after_rmi
  after_rm adapter_id image_ref (err e) = fail_removal adapter_id e
  after_rm adapter_id image_ref (ok _) = do
    outcome ← rmi env image_ref
    after_rmi adapter_id outcome

  -- After `podman.stop(…)`, or at once if the adapter does not run.
  unfoldable pub after_stop :
      String → String → Result (Unit {0}) PodmanError → Act World (Result (Unit {0}) RemoveError)
  unfolding after_rm
  after_stop adapter_id image_ref (err e) = fail_removal adapter_id e
  after_stop adapter_id image_ref (ok _) = do
    outcome ← rm env adapter_id
    after_rm adapter_id image_ref outcome

  -- The removal of an adapter that was found.
  unfoldable pub remove_found :
      String → Option AdapterEntry → Act World (Result (Unit {0}) RemoveError)
  unfolding after_stop
  remove_found adapter_id none = pure (err (not_found ("adapter not found: " <> adapter_id)))
  remove_found adapter_id (some adapter) =
      if state_eq adapter.state running
      then (do outcome ← stop env adapter_id; after_stop adapter_id adapter.image_ref outcome)
      else after_stop adapter_id adapter.image_ref (ok tt)

  -- `remove_adapter`
  unfoldable pub remove_adapter : String → Act World (Result (Unit {0}) RemoveError)
  unfolding remove_found
  remove_adapter adapter_id = do
    adapter ← gets (get_adapter adapter_id)
    remove_found adapter_id adapter
