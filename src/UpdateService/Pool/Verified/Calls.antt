-- ===== src/UpdateService/Pool/Verified/Calls.antt =====
-- The podman operations that a stretch of a task's code makes.
use parking_fee_service.Prelude.{
  String, ◌≡◌, refl, Option, none, some, List, [], ◌∷◌, Result, ok, err, ℕ, arith, ◌∙◌,
}
use parking_fee_service.UpdateService.Adapter.{AdapterEntry}
use parking_fee_service.UpdateService.Podman.{PodmanCall, PodmanError}
use parking_fee_service.UpdateService.World
use parking_fee_service.UpdateService.World.{Env, World}
use parking_fee_service.UpdateService.Install.{record_stop}
use parking_fee_service.UpdateService.Monitor.{record_exit}
use parking_fee_service.UpdateService.Pool.{
  Task, stopping, pulling, inspecting, starting, discarding, waiting, removing_stop, removing_rm,
  removing_rmi, offloading_rm, offloading_rmi, resume, pulled, started, inspected, removal_stopped,
  removal_removed, removal_done, offload_removed, offload_done, next_offload, fail, accept,
  begin_install, begin_remove, begin_offload, get_running_adapter, get_offload_candidates,
  stop_active,
}

module _ (env : Env) where
  -- The stop of the adapter that ran only adds its call.
  pub record_stop-calls :
      (id : String) (r : Result (Unit {0}) PodmanError) (w : World)
      → ((record_stop env id r w).1.calls ≡ w.calls)
        × ((record_stop env id r w).1.spawned ≡ w.spawned)
  unfolding record_stop World.transition
  record_stop-calls id (ok _) w = (refl, refl)
  record_stop-calls id (err e) w = (refl, refl)

  -- The operation that a task awaits.
  abbrev pub awaited : Task → PodmanCall
  awaited (stopping _ _ _ active) = PodmanCall.stop active
  awaited (pulling _ image_ref _) = PodmanCall.pull image_ref
  awaited (inspecting _ image_ref _) = PodmanCall.inspect_digest image_ref
  awaited (starting id image_ref _) = PodmanCall.run id image_ref
  awaited (discarding image_ref) = PodmanCall.rmi image_ref
  awaited (waiting id) = PodmanCall.wait id
  awaited (removing_stop id _) = PodmanCall.stop id
  awaited (removing_rm id _) = PodmanCall.rm id
  awaited (removing_rmi _ image_ref) = PodmanCall.rmi image_ref
  awaited (offloading_rm a _) = PodmanCall.rm a.adapter_id
  awaited (offloading_rmi a _) = PodmanCall.rmi a.image_ref

  accept-calls :
      (job image_ref checksum : String) (w : World)
      → (accept env job image_ref checksum w).1.calls ≡ w.calls
  unfolding accept World.transition World.spawn World.create_adapter
  accept-calls job image_ref checksum w = refl

  pub resume-calls : (t : Task) (w : World) → (resume env t w).1.calls ≡ awaited t ∷ w.calls
  unfolding resume World.pull World.inspect_digest World.run World.stop World.rm World.rmi
      World.wait World.transition World.spawn World.remove_adapter World.create_adapter record_exit
      pulled inspected started removal_stopped removal_removed removal_done offload_removed
      offload_done next_offload fail
  resume-calls (stopping job image_ref checksum active) w =
      accept-calls job image_ref checksum
        (record_stop env active (env.podman.stop w.calls active) (World.stop env active w).1).1
      ∙ (record_stop-calls active (env.podman.stop w.calls active) (World.stop env active w).1).0
  resume-calls (pulling id image_ref checksum) w = ground arith
  resume-calls (inspecting id image_ref checksum) w = ground arith
  resume-calls (starting id image_ref checksum) w = ground arith
  resume-calls (discarding image_ref) w = refl
  resume-calls (waiting id) w = ground arith
  resume-calls (removing_stop id image_ref) w = ground arith
  resume-calls (removing_rm id image_ref) w = ground arith
  resume-calls (removing_rmi id image_ref) w = ground arith
  resume-calls (offloading_rm a []) w = ground arith
  resume-calls (offloading_rm a (b ∷ rest)) w = ground arith
  resume-calls (offloading_rmi a []) w = ground arith
  resume-calls (offloading_rmi a (b ∷ rest)) w = ground arith

  pub begin_remove-calls : (id : String) (w : World) → (begin_remove env id w).1.calls ≡ w.calls
  unfolding begin_remove World.gets
  begin_remove-calls id w = refl

  next_offload-calls :
      (adapters : List AdapterEntry) (w : World) → (next_offload env adapters w).1.calls ≡ w.calls
  unfolding next_offload World.transition
  next_offload-calls [] w = refl
  next_offload-calls (a ∷ rest) w = refl

  pub begin_offload-calls :
      (instant timeout : ℕ) (w : World) → (begin_offload env instant timeout w).1.calls ≡ w.calls
  unfolding begin_offload World.gets
  begin_offload-calls instant timeout w =
      next_offload-calls (get_offload_candidates instant timeout w.mgr) w

  stop_active-calls :
      (job image_ref checksum : String) (active : Option AdapterEntry) (w : World)
      → (stop_active env job image_ref checksum active w).1.calls ≡ w.calls
  unfolding stop_active
  stop_active-calls job image_ref checksum none w = accept-calls job image_ref checksum w
  stop_active-calls job image_ref checksum (some a) w = refl

  pub begin_install-calls :
      (job image_ref checksum : String) (w : World)
      → (begin_install env job image_ref checksum w).1.calls ≡ w.calls
  unfolding begin_install World.gets
  begin_install-calls job image_ref checksum w =
      ground (arith, stop_active-calls job image_ref checksum (get_running_adapter w.mgr) w)
