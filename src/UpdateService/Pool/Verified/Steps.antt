-- ===== src/UpdateService/Pool/Verified/Steps.antt =====
-- What a stretch of a task's code leaves: starts that are covered, and tasks that are justified.
use parking_fee_service.Prelude.{
  String, ◌≡◌, inl, inr, Option, none, some, List, [], ◌∷◌, map, Result, ok, err, ℕ, All, arith,
  ◌∙◌, Bool-cases, eq_iff, ◌==◌,
}
use parking_fee_service.UpdateService.Adapter.{AdapterEntry}
use parking_fee_service.UpdateService.Podman.{PodmanError}
use parking_fee_service.UpdateService.World
use parking_fee_service.UpdateService.World.{Env, World}
use parking_fee_service.UpdateService.Install.{record_stop}
use parking_fee_service.UpdateService.Monitor.{record_exit}
use parking_fee_service.UpdateService.Pool.{
  Task, stopping, pulling, inspecting, starting, discarding, waiting, removing_stop, removing_rm,
  removing_rmi, offloading_rm, offloading_rmi, Next, task_of, resume, pulled, started, inspected,
  removal_stopped, removal_removed, removal_done, offload_removed, offload_done, next_offload, fail,
  accept, begin_install, begin_remove, begin_offload, get_running_adapter, get_offload_candidates,
  stop_active, is_empty,
}
use parking_fee_service.UpdateService.Pool.Schedule.{next_list}
use parking_fee_service.UpdateService.Pool.Verified.Defs.{
  Verified, reported, IsCovered, IsJustified,
}
use parking_fee_service.UpdateService.Pool.Verified.Calls.{record_stop-calls}

-- `Asked` holds of the images and checksums of the requests.
module _ (env : Env) (Asked : String → String → Type 0) where
  -- What a stretch of code leaves.
  pub record Leaves (r : Next × World) : Type 0 where
    pub covered : IsCovered env Asked r.1.calls
    pub next : All (IsJustified env Asked r.1.calls) (next_list r.0)
    pub spawned : All (IsJustified env Asked r.1.calls) (map task_of r.1.spawned)

  inspected-Leaves :
      (id image_ref checksum : String) (r : Result String PodmanError) (w : World)
      → w.spawned ≡ []
      → IsCovered env Asked w.calls
      → Asked image_ref checksum
      → (r ≡ ok checksum → Verified env image_ref checksum w.calls)
      → Leaves (inspected env id image_ref checksum r w)
  unfolding inspected fail World.transition
  inspected-Leaves id image_ref checksum (err e) w s c j v = record {
    covered = c;
    next = tt;
    spawned = rw s tt;
  }
  inspected-Leaves id image_ref checksum (ok digest) w s c j v =
      elim (Bool-cases (digest == checksum)) [
        | inl same ↦ rw same (record {
          covered = c;
          next = ((j, v (let e = (eq_iff digest checksum).0 same in cc)), tt);
          spawned = rw s tt;
        })
        | inr other ↦ rw other (record { covered = c; next = (tt, tt); spawned = rw s tt })
      ]

  accept-Leaves :
      (job image_ref checksum : String) (w : World)
      → w.spawned ≡ []
      → IsCovered env Asked w.calls
      → Asked image_ref checksum
      → Leaves (accept env job image_ref checksum w)
  unfolding accept World.transition World.spawn World.create_adapter
  accept-Leaves job image_ref checksum w s c j = record {
    covered = c;
    next = tt;
    spawned = rw s (j, tt);
  }

  started-Leaves :
      (id : String) (r : Result (Unit {0}) PodmanError) (w : World)
      → w.spawned ≡ []
      → IsCovered env Asked w.calls
      → Leaves (started env id r w)
  unfolding started fail World.transition World.spawn
  started-Leaves id (ok _) w s c = record { covered = c; next = tt; spawned = rw s (tt, tt) }
  started-Leaves id (err e) w s c = record { covered = c; next = tt; spawned = rw s tt }

  pub resume-Leaves :
      (t : Task) (w : World)
      → w.spawned ≡ []
      → IsCovered env Asked w.calls
      → IsJustified env Asked w.calls t
      → Leaves (resume env t w)
  unfolding resume World.pull World.inspect_digest World.run World.stop World.rm World.rmi
      World.wait World.transition World.spawn World.remove_adapter World.create_adapter record_exit
      pulled started removal_stopped removal_removed removal_done offload_removed offload_done
      next_offload fail
  resume-Leaves (stopping job image_ref checksum active) w e c j =
      let w' : World = (World.stop env active w).1 in
      let r = env.podman.stop w.calls active in
      let same = record_stop-calls env active r w' in
      accept-Leaves job image_ref checksum (record_stop env active r w').1 (same.1 ∙ e)
        (rw (same.0, World.stop) c) j
  resume-Leaves (pulling id image_ref checksum) w e c j = ground arith
  resume-Leaves (inspecting id image_ref checksum) w e c j =
      let w' = (World.inspect_digest env image_ref w).1 in
      inspected-Leaves id image_ref checksum (env.podman.inspect_digest w.calls image_ref) w' e c j
        (reported w.calls)
  resume-Leaves (starting id image_ref checksum) w e c j =
      let w' : World = (World.run env id image_ref w).1 in
      started-Leaves id (env.podman.run w.calls id image_ref) w' e ((checksum, j.0, j.1), c)
  resume-Leaves (discarding image_ref) w e c j = ground arith
  resume-Leaves (waiting id) w e c j = ground arith
  resume-Leaves (removing_stop id image_ref) w e c j = ground arith
  resume-Leaves (removing_rm id image_ref) w e c j = ground arith
  resume-Leaves (removing_rmi id image_ref) w e c j = ground arith
  resume-Leaves (offloading_rm a []) w e c j = ground arith
  resume-Leaves (offloading_rm a (b ∷ rest)) w e c j = ground arith
  resume-Leaves (offloading_rmi a []) w e c j = ground arith
  resume-Leaves (offloading_rmi a (b ∷ rest)) w e c j = ground arith

  next_offload-Leaves :
      (adapters : List AdapterEntry) (w : World)
      → w.spawned ≡ []
      → IsCovered env Asked w.calls
      → Leaves (next_offload env adapters w)
  unfolding next_offload World.transition
  next_offload-Leaves [] w e c = ground arith
  next_offload-Leaves (a ∷ rest) w e c = ground arith

  pub begin_offload-Leaves :
      (now timeout : ℕ) (w : World)
      → w.spawned ≡ []
      → IsCovered env Asked w.calls
      → Leaves (begin_offload env now timeout w)
  unfolding begin_offload World.gets
  begin_offload-Leaves now timeout w e c =
      next_offload-Leaves (get_offload_candidates now timeout w.mgr) w e c

  pub begin_remove-Leaves :
      (id : String) (w : World)
      → w.spawned ≡ []
      → IsCovered env Asked w.calls
      → Leaves (begin_remove env id w)
  unfolding begin_remove World.gets
  begin_remove-Leaves id w e c = ground arith

  stop_active-Leaves :
      (job image_ref checksum : String) (active : Option AdapterEntry) (w : World)
      → w.spawned ≡ []
      → IsCovered env Asked w.calls
      → Asked image_ref checksum
      → Leaves (stop_active env job image_ref checksum active w)
  unfolding stop_active
  stop_active-Leaves job image_ref checksum none w e c j =
      accept-Leaves job image_ref checksum w e c j
  stop_active-Leaves job image_ref checksum (some a) w e c j = ground arith

  pub begin_install-Leaves :
      (job image_ref checksum : String) (w : World)
      → w.spawned ≡ []
      → IsCovered env Asked w.calls
      → Asked image_ref checksum
      → Leaves (begin_install env job image_ref checksum w)
  unfolding begin_install World.gets
  begin_install-Leaves job image_ref checksum w e c j = elim (Bool-cases (is_empty image_ref)) [
    | inl missing ↦ rw missing (record { covered = c; next = tt; spawned = rw e tt })
    | inr named ↦ rw named (elim (Bool-cases (is_empty checksum)) [
      | inl missing ↦ rw missing (record { covered = c; next = tt; spawned = rw e tt })
      | inr given ↦
          rw given (stop_active-Leaves job image_ref checksum (get_running_adapter w.mgr) w e c j)
    ])
  ]
