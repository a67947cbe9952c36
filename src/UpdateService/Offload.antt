-- ===== src/UpdateService/Offload.antt =====
-- rhivos/update-service/src/offload.rs: one cycle of the offload timer.
pub mod Sweep
pub mod Age
use parking_fee_service.Prelude.{
  ℕ, none, some, List, [], ◌∷◌, Result, ok, err, Act, ◌>>=◌, ◌>>◌, pure,
}
use parking_fee_service.UpdateService.Adapter.{offloading, error, AdapterEntry}
use parking_fee_service.UpdateService.Podman.{PodmanError}
use parking_fee_service.UpdateService.StateManager.{get_offload_candidates}
use parking_fee_service.UpdateService.World.{Env, World, rm, rmi, transition, remove_adapter, gets}

module _ (env : Env) where
  -- After `podman.rmi(…)`.
  unfoldable pub after_rmi : AdapterEntry → Result (Unit {0}) PodmanError → Act World (Unit {0})
  after_rmi adapter (err e) = transition env adapter.adapter_id error (some e.message)
  after_rmi adapter (ok _) = remove_adapter adapter.adapter_id

  -- After `podman.rm(…)`.
  unfoldable pub after_rm : AdapterEntry → Result (Unit {0}) PodmanError → Act World (Unit {0})
  unfolding after_rmi
  after_rm adapter (err e) = transition env adapter.adapter_id error (some e.message)
  after_rm adapter (ok _) = do outcome ← rmi env adapter.image_ref; after_rmi adapter outcome

  -- The body of the loop over the candidates.
  unfoldable pub offload : AdapterEntry → Act World (Unit {0})
  unfolding after_rm
  offload adapter = do
    transition env adapter.adapter_id offloading none
    outcome ← rm env adapter.adapter_id
    after_rm adapter outcome

  unfoldable pub offload_all : List AdapterEntry → Act World (Unit {0})
  unfolding offload
  offload_all [] = pure tt
  offload_all (adapter ∷ rest) = do offload adapter; offload_all rest

  -- `run_offload_cycle`; `now` is the reading of the clock at which the candidates are chosen.
  unfoldable pub run_offload_cycle : ℕ → ℕ → Act World (Unit {0})
  unfolding offload_all
  run_offload_cycle now inactivity_timeout = do
    candidates ← gets (get_offload_candidates now inactivity_timeout)
    offload_all candidates
