-- ===== src/UpdateService/World.antt =====
-- The shared components of rhivos/update-service/src/main.rs as its tasks see them: the state
-- manager, the podman calls made so far (latest first), the number of clock readings taken, and the
-- tasks handed to `tokio::spawn` (latest first). An await of a podman operation is one action.
pub mod Keeps
pub mod Laws
use parking_fee_service.Prelude.{ℕ, suc, String, Option, List, ◌∷◌, Result, Act}
use parking_fee_service.Prelude.Number.{ℤ}
use parking_fee_service.UpdateService.Adapter.{AdapterState, AdapterEntry}
use parking_fee_service.UpdateService.Podman.{PodmanCall, PodmanError, PodmanExecutor}
use parking_fee_service.UpdateService.StateManager
use parking_fee_service.UpdateService.StateManager.{StateManager, StateError, Clock}

-- What the tasks meet: the executor, and the k-th reading of the clocks.
pub record Env : Type 0 where
  pub podman : PodmanExecutor
  pub clock : ℕ → Clock

-- The futures that the program spawns.
pub data Spawned : Type 0 where
  install_task : String → String → String → Spawned
  monitor_task : String → Spawned

pub record World : Type 0 where
  pub mgr : StateManager
  pub calls : List PodmanCall
  pub reads : ℕ
  pub spawned : List Spawned

module _ (env : Env) where
  -- One operation of the executor, recorded.
  unfoldable pub pull : String → Act World (Result (Unit {0}) PodmanError)
  pull image_ref w =
      (env.podman.pull w.calls image_ref, record w { calls = PodmanCall.pull image_ref ∷ w.calls })

  unfoldable pub inspect_digest : String → Act World (Result String PodmanError)
  inspect_digest image_ref w = (
    env.podman.inspect_digest w.calls image_ref,
    record w { calls = PodmanCall.inspect_digest image_ref ∷ w.calls },
  )

  unfoldable pub run : String → String → Act World (Result (Unit {0}) PodmanError)
  run adapter_id image_ref w = (
    env.podman.run w.calls adapter_id image_ref,
    record w { calls = PodmanCall.run adapter_id image_ref ∷ w.calls },
  )

  unfoldable pub stop : String → Act World (Result (Unit {0}) PodmanError)
  stop adapter_id w = (
    env.podman.stop w.calls adapter_id,
    record w { calls = PodmanCall.stop adapter_id ∷ w.calls },
  )

  unfoldable pub rm : String → Act World (Result (Unit {0}) PodmanError)
  rm adapter_id w =
      (env.podman.rm w.calls adapter_id, record w { calls = PodmanCall.rm adapter_id ∷ w.calls })

  unfoldable pub rmi : String → Act World (Result (Unit {0}) PodmanError)
  rmi image_ref w =
      (env.podman.rmi w.calls image_ref, record w { calls = PodmanCall.rmi image_ref ∷ w.calls })

  unfoldable pub wait : String → Act World (Result ℤ PodmanError)
  wait adapter_id w = (
    env.podman.wait w.calls adapter_id,
    record w { calls = PodmanCall.wait adapter_id ∷ w.calls },
  )

  -- `let _ = state_mgr.transition(…)` at the present reading of the clocks.
  unfoldable pub transition : String → AdapterState → Option String → Act World (Unit {0})
  transition adapter_id new_state error_msg w = (
    tt,
    record w {
      mgr = (StateManager.transition (env.clock w.reads) adapter_id new_state error_msg w.mgr).1;
      reads = suc w.reads;
    },
  )

-- `state_mgr.create_adapter(entry)`
unfoldable pub create_adapter : AdapterEntry → Act World (Unit {0})
create_adapter entry w = (tt, record w { mgr = StateManager.create_adapter entry w.mgr })

-- `let _ = state_mgr.remove_adapter(…)`
unfoldable pub remove_adapter : String → Act World (Unit {0})
remove_adapter adapter_id w =
    (tt, record w { mgr = (StateManager.remove_adapter adapter_id w.mgr).1 })

-- A look at the state manager.
unfoldable pub gets {ℓ} : {A : Type ℓ} → (StateManager → A) → Act World A
gets f w = (f w.mgr, w)

-- `tokio::spawn`
unfoldable pub spawn : Spawned → Act World (Unit {0})
spawn task w = (tt, record w { spawned = task ∷ w.spawned })
