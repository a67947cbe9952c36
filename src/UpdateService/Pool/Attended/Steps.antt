-- ===== src/UpdateService/Pool/Attended/Steps.antt =====
-- What a task's step and a request leave: unsettled adapters keep a task that is about them.
use parking_fee_service.Prelude.{
  ◌<>◌, ◌∙◌, String, ◌≡◌, refl, true, false, Option, none, some, [], Result, ok, err, arith, ◌==◌,
  ℕ, Bool-cases, inl, inr,
}
use parking_fee_service.UpdateService.Monitor.{record_exit}
use parking_fee_service.Prelude.Number.{ℤ, show_ℤ}
use parking_fee_service.Prelude.Text.{is_empty}
use parking_fee_service.UpdateService.Adapter.{AdapterEntry, stopped, error}
use parking_fee_service.UpdateService.Podman.{PodmanError}
use parking_fee_service.UpdateService.StateManager.{get_running_adapter, get_offload_candidates}
use parking_fee_service.UpdateService.World
use parking_fee_service.UpdateService.World.{
  Env, World, Spawned, install_task, monitor_task, transition, create_adapter, spawn,
}
use parking_fee_service.UpdateService.Install.{record_stop}
use parking_fee_service.UpdateService.Pool.{
  Task, stopping, pulling, inspecting, starting, discarding, waiting, removing_stop, removing_rm,
  removing_rmi, offloading_rm, offloading_rmi, accept, begin_install, begin_remove, begin_offload,
  stop_active, resume, record_exit,
}
use parking_fee_service.UpdateService.Pool.Attended.Unsettled.{
  unsettled, is_final, unsettled-transition_final,
}
use parking_fee_service.UpdateService.Pool.Attended.Outcomes.{
  about, Hands, settled-Hands, accept-Hands, pulled-Hands, started-Hands, inspected-Hands,
  removal_stopped-Hands, removal_removed-Hands, removal_done-Hands, offload_removed-Hands,
  offload_done-Hands, next_offload-Hands,
}

module _ (env : Env) (j : String) where
  record_stop_settles :
      (id : String) (r : Result (Unit {0}) PodmanError) (w : World)
      → unsettled j (record_stop env id r w).1 ≡ true
      → unsettled j w ≡ true
  unfolding record_stop is_final
  record_stop_settles id (ok _) w u =
      ground (arith, unsettled-transition_final env id j stopped none w refl)
  record_stop_settles id (err e) w u =
      ground (arith, unsettled-transition_final env id j error (some e.message) w refl)

  record_stop_spawned :
      (id : String) (r : Result (Unit {0}) PodmanError) (w : World)
      → (record_stop env id r w).1.spawned ≡ w.spawned
  unfolding record_stop transition
  record_stop_spawned id (ok _) w = refl
  record_stop_spawned id (err e) w = refl

  stop_active-Hands :
      (job image_ref checksum : String) (active : Option AdapterEntry) (w : World)
      → w.spawned ≡ []
      → Hands j false w (stop_active env job image_ref checksum active w)
  unfolding stop_active
  stop_active-Hands job image_ref checksum none w s = accept-Hands env j job image_ref checksum w s
  stop_active-Hands job image_ref checksum (some b) w s = record { over = λ u a. ground arith }

  pub begin_install-Hands :
      (job image_ref checksum : String) (w : World)
      → w.spawned ≡ []
      → Hands j false w (begin_install env job image_ref checksum w)
  unfolding begin_install World.gets
  begin_install-Hands job image_ref checksum w s = elim (Bool-cases (is_empty image_ref)) [
    | inl missing ↦ rw missing (record { over = λ u a. ground arith })
    | inr named ↦ rw named (elim (Bool-cases (is_empty checksum)) [
      | inl missing ↦ rw missing (record { over = λ u a. ground arith })
      | inr given ↦
          rw given (stop_active-Hands job image_ref checksum (get_running_adapter w.mgr) w s)
    ])
  ]

  pub begin_remove-Hands :
      (id : String) (w : World) → w.spawned ≡ [] → Hands j false w (begin_remove env id w)
  unfolding begin_remove World.gets
  begin_remove-Hands id w s = record { over = λ u a. ground arith }

  pub begin_offload-Hands :
      (now timeout : ℕ) (w : World)
      → w.spawned ≡ []
      → Hands j false w (begin_offload env now timeout w)
  unfolding begin_offload World.gets
  begin_offload-Hands now timeout w s =
      next_offload-Hands env j (get_offload_candidates now timeout w.mgr) w s

  record_exit_settles :
      (id : String) (r : Result ℤ PodmanError) (w : World)
      → unsettled j (record_exit env id r w).1 ≡ true
      → (unsettled j w ≡ true) × ((id == j) ≡ false)
  unfolding record_exit is_final
  record_exit_settles id (err e) w u =
      ground (arith, unsettled-transition_final env id j error (some e.message) w refl)
  record_exit_settles id (ok code) w u = ground (
    arith,
    unsettled-transition_final env id j stopped none w refl,
    unsettled-transition_final env id j error (some ("container exited with code " <> show_ℤ code))
        w refl,
  )

  pub resume-Hands :
      (t : Task) (w : World) → w.spawned ≡ [] → Hands j (about j t) w (resume env t w)
  unfolding resume World.pull World.inspect_digest World.run World.stop World.rm World.rmi
      World.wait unsettled
  resume-Hands (stopping job image_ref checksum active) w s =
      let r = env.podman.stop w.calls active in
      let w' : World = (World.stop env active w).1 in
      let w'' : World = (record_stop env active r w').1 in
      settled-Hands env j false w w'' (accept env job image_ref checksum w'')
        (λ u. (record_stop_settles active r w' u, refl))
        (accept-Hands env j job image_ref checksum w'' (record_stop_spawned active r w' ∙ s))
  resume-Hands (pulling id image_ref checksum) w s = record {
    over =
        (pulled-Hands env j id image_ref checksum (env.podman.pull w.calls image_ref)
          (World.pull env image_ref w).1 s).over;
  }
  resume-Hands (inspecting id image_ref checksum) w s = record {
    over =
        (inspected-Hands env j id image_ref checksum (env.podman.inspect_digest w.calls image_ref)
          (World.inspect_digest env image_ref w).1 s).over;
  }
  resume-Hands (starting id image_ref checksum) w s = record {
    over =
        (started-Hands env j id (env.podman.run w.calls id image_ref)
          (World.run env id image_ref w).1 s).over;
  }
  resume-Hands (discarding image_ref) w s = record { over = λ u a. (u, refl) }
  resume-Hands (waiting id) w s = record {
    over = λ u a. record_exit_settles id (env.podman.wait w.calls id) (World.wait env id w).1 u;
  }
  resume-Hands (removing_stop id image_ref) w s = record {
    over =
        (removal_stopped-Hands env j id image_ref (env.podman.stop w.calls id)
          (World.stop env id w).1 s).over;
  }
  resume-Hands (removing_rm id image_ref) w s = record {
    over =
        (removal_removed-Hands env j id image_ref (env.podman.rm w.calls id) (World.rm env id w).1
          s).over;
  }
  resume-Hands (removing_rmi id image_ref) w s = record {
    over =
        (removal_done-Hands env j id (env.podman.rmi w.calls image_ref)
          (World.rmi env image_ref w).1 s).over;
  }
  resume-Hands (offloading_rm b rest) w s = record {
    over =
        (offload_removed-Hands env j b rest (env.podman.rm w.calls b.adapter_id)
          (World.rm env b.adapter_id w).1 s).over;
  }
  resume-Hands (offloading_rmi b rest) w s = record {
    over =
        (offload_done-Hands env j b rest (env.podman.rmi w.calls b.image_ref)
          (World.rmi env b.image_ref w).1 s).over;
  }
