-- ===== src/UpdateService/Monitor.antt =====
-- rhivos/update-service/src/monitor.rs: what a container's exit does to its adapter.
use parking_fee_service.Prelude.{
  String, ◌<>◌, none, some, Result, ok, err, Act, ◌>>=◌, if◌then◌else◌,
}
use parking_fee_service.Prelude.Number.{ℤ, is_zero, show_ℤ}
use parking_fee_service.UpdateService.Adapter.{stopped, error}
use parking_fee_service.UpdateService.Podman.{PodmanError}
use parking_fee_service.UpdateService.World.{Env, World, wait, transition}

module _ (env : Env) where
  -- The `match` on the outcome of the wait.
  unfoldable pub record_exit : String → Result ℤ PodmanError → Act World (Unit {0})
  record_exit adapter_id (ok code) =
      if is_zero code
      then transition env adapter_id stopped none
      else transition env adapter_id error (some ("container exited with code " <> show_ℤ code))
  record_exit adapter_id (err e) = transition env adapter_id error (some e.message)

  -- `monitor_container`
  unfoldable pub monitor_container : String → Act World (Unit {0})
  unfolding record_exit
  monitor_container adapter_id = do outcome ← wait env adapter_id; record_exit adapter_id outcome
