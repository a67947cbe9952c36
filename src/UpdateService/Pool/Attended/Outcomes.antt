-- ===== src/UpdateService/Pool/Attended/Outcomes.antt =====
-- What the handlers of podman's answers leave: unsettled adapters keep a task that is about them.
use parking_fee_service.Prelude.{
  String, ◌≡◌, refl, Bool, true, false, none, some, List, [], ◌∷◌, ◌++◌, map, if◌then◌else◌, Result,
  ok, err, arith, ◌==◌, Bool-cases, inl, inr,
}
use parking_fee_service.UpdateService.Adapter.{
  AdapterEntry, error, downloading, installing, running, offloading, derive_adapter_id,
}
use parking_fee_service.UpdateService.Podman.{PodmanError}
use parking_fee_service.UpdateService.World
use parking_fee_service.UpdateService.World.{
  Env, World, Spawned, install_task, monitor_task, transition, create_adapter, spawn,
}
use parking_fee_service.UpdateService.Install.{fresh_entry}
use parking_fee_service.UpdateService.Pool.{
  Task, stopping, pulling, inspecting, starting, discarding, waiting, removing_stop, removing_rm,
  removing_rmi, offloading_rm, offloading_rmi, Next, task_of, pulled, started, inspected,
  removal_stopped, removal_removed, removal_done, offload_removed, offload_done, next_offload, fail,
  accept,
}
use parking_fee_service.UpdateService.Pool.Schedule.{next_list}
use parking_fee_service.UpdateService.Pool.Attended.Unsettled.{
  unsettled, is_final, unsettled-transition_final, unsettled-transition_other,
  unsettled-create_adapter_other, unsettled-remove_adapter,
}

-- The task will settle the adapter, or hand it to one that will.
abbrev pub about : String → Task → Bool
about j (stopping _ _ _ _) = false
about j (pulling id _ _) = id == j
about j (inspecting id _ _) = id == j
about j (starting id _ _) = id == j
about j (discarding _) = false
about j (waiting id) = id == j
about j (removing_stop _ _) = false
about j (removing_rm _ _) = false
about j (removing_rmi _ _) = false
about j (offloading_rm a _) = a.adapter_id == j
about j (offloading_rmi a _) = a.adapter_id == j

abbrev pub attended : String → List Task → Bool
attended j [] = false
attended j (t ∷ ts) = if about j t then true else attended j ts

-- What a stretch of code leaves to others: an adapter that it leaves unsettled without a task about it was
-- unsettled before, and the adapter was not the code's own, as `own` tells.
pub record Hands (j : String) (own : Bool) (w : World) (r : Next × World) : Type 0 where
  pub over :
      unsettled j r.1 ≡ true
      → attended j (next_list r.0 ++ map task_of r.1.spawned) ≡ false
      → (unsettled j w ≡ true) × (own ≡ false)

module _ (env : Env) (j : String) where
  fail-Hands :
      (id message : String) (w : World)
      → w.spawned ≡ []
      → Hands j (id == j) w (fail env id message w)
  unfolding fail is_final
  fail-Hands id message w e = record {
    over = λ u a. ground (arith, unsettled-transition_final env id j error (some message) w refl);
  }

  pub accept-Hands :
      (job image_ref checksum : String) (w : World)
      → w.spawned ≡ []
      → Hands j false w (accept env job image_ref checksum w)
  unfolding accept fresh_entry spawn transition create_adapter unsettled
  accept-Hands job image_ref checksum w e =
      let id = derive_adapter_id image_ref in
      let fresh = fresh_entry job id image_ref checksum in
      let w' : World = (create_adapter fresh w).1 in
      record {
        over = λ u a. ground (
          arith,
          unsettled-create_adapter_other fresh j w,
          unsettled-transition_other env id j downloading none w',
        );
      }

  pub pulled-Hands :
      (id image_ref checksum : String) (r : Result (Unit {0}) PodmanError) (w : World)
      → w.spawned ≡ []
      → Hands j (id == j) w (pulled env id image_ref checksum r w)
  unfolding pulled
  pulled-Hands id image_ref checksum (err e) w s = fail-Hands id e.message w s
  pulled-Hands id image_ref checksum (ok _) w s = record { over = λ u a. ground arith }

  pub started-Hands :
      (id : String) (r : Result (Unit {0}) PodmanError) (w : World)
      → w.spawned ≡ []
      → Hands j (id == j) w (started env id r w)
  unfolding started spawn transition unsettled
  started-Hands id (err e) w s = fail-Hands id e.message w s
  started-Hands id (ok _) w s = record {
    over = λ u a. ground (arith, unsettled-transition_other env id j running none w);
  }

  pub inspected-Hands :
      (id image_ref checksum : String) (r : Result String PodmanError) (w : World)
      → w.spawned ≡ []
      → Hands j (id == j) w (inspected env id image_ref checksum r w)
  unfolding inspected is_final
  inspected-Hands id image_ref checksum (err e) w s = fail-Hands id e.message w s
  inspected-Hands id image_ref checksum (ok digest) w s = elim (Bool-cases (digest == checksum)) [
    | inl same ↦ rw same (record {
      over = λ u a. ground (arith, unsettled-transition_other env id j installing none w);
    })
    | inr other ↦ rw other (record {
      over = λ u a.
          ground
            (arith, unsettled-transition_final env id j error (some "checksum_mismatch") w refl);
    })
  ]

  pub removal_stopped-Hands :
      (id image_ref : String) (r : Result (Unit {0}) PodmanError) (w : World)
      → w.spawned ≡ []
      → Hands j false w (removal_stopped env id image_ref r w)
  unfolding removal_stopped fail is_final
  removal_stopped-Hands id image_ref (err e) w s = record {
    over = λ u a. ground (arith, unsettled-transition_final env id j error (some e.message) w refl);
  }
  removal_stopped-Hands id image_ref (ok _) w s = record { over = λ u a. ground arith }

  pub removal_removed-Hands :
      (id image_ref : String) (r : Result (Unit {0}) PodmanError) (w : World)
      → w.spawned ≡ []
      → Hands j false w (removal_removed env id image_ref r w)
  unfolding removal_removed fail is_final
  removal_removed-Hands id image_ref (err e) w s = record {
    over = λ u a. ground (arith, unsettled-transition_final env id j error (some e.message) w refl);
  }
  removal_removed-Hands id image_ref (ok _) w s = record { over = λ u a. ground arith }

  pub removal_done-Hands :
      (id : String) (r : Result (Unit {0}) PodmanError) (w : World)
      → w.spawned ≡ []
      → Hands j false w (removal_done env id r w)
  unfolding removal_done fail is_final
  removal_done-Hands id (err e) w s = record {
    over = λ u a. ground (arith, unsettled-transition_final env id j error (some e.message) w refl);
  }
  removal_done-Hands id (ok _) w s = record {
    over = λ u a. ground (arith, unsettled-remove_adapter id j w);
  }

  pub next_offload-Hands :
      (adapters : List AdapterEntry) (w : World)
      → w.spawned ≡ []
      → Hands j false w (next_offload env adapters w)
  unfolding next_offload
  next_offload-Hands [] w s = record { over = λ u a. ground arith }
  next_offload-Hands (b ∷ rest) w s = record {
    over = λ u a. ground (arith, unsettled-transition_other env b.adapter_id j offloading none w);
  }

  -- The offloading of one adapter ends, and the next one begins.
  pub settled-Hands :
      (own : Bool) (w w' : World) (r : Next × World)
      → (unsettled j w' ≡ true → (unsettled j w ≡ true) × (own ≡ false))
      → Hands j false w' r
      → Hands j own w r
  settled-Hands own w w' r f h = record { over = λ u a. f (h.over u a).0 }

  pub offload_removed-Hands :
      (b : AdapterEntry) (rest : List AdapterEntry) (r : Result (Unit {0}) PodmanError) (w : World)
      → w.spawned ≡ []
      → Hands j (b.adapter_id == j) w (offload_removed env b rest r w)
  unfolding offload_removed is_final transition
  offload_removed-Hands b rest (err e) w s =
      let w' : World = (transition env b.adapter_id error (some e.message) w).1 in
      settled-Hands (b.adapter_id == j) w w' (next_offload env rest w')
        (λ u.
          ground
            (arith, unsettled-transition_final env b.adapter_id j error (some e.message) w refl))
        (next_offload-Hands rest w' s)
  offload_removed-Hands b rest (ok _) w s = record { over = λ u a. ground arith }

  pub offload_done-Hands :
      (b : AdapterEntry) (rest : List AdapterEntry) (r : Result (Unit {0}) PodmanError) (w : World)
      → w.spawned ≡ []
      → Hands j (b.adapter_id == j) w (offload_done env b rest r w)
  unfolding offload_done is_final transition World.remove_adapter
  offload_done-Hands b rest (err e) w s =
      let w' : World = (transition env b.adapter_id error (some e.message) w).1 in
      settled-Hands (b.adapter_id == j) w w' (next_offload env rest w')
        (λ u.
          ground
            (arith, unsettled-transition_final env b.adapter_id j error (some e.message) w refl))
        (next_offload-Hands rest w' s)
  offload_done-Hands b rest (ok _) w s =
      let w' : World = (World.remove_adapter b.adapter_id w).1 in
      settled-Hands (b.adapter_id == j) w w' (next_offload env rest w')
        (λ u. ground (arith, unsettled-remove_adapter b.adapter_id j w))
        (next_offload-Hands rest w' s)
