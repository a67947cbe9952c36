-- ===== src/UpdateService/Install/Outcome.antt =====
-- How the spawned pull, verify and run task ends.
use parking_fee_service.Prelude.{
  String, ◌≡◌, refl, ◌⊎◌, inl, inr, false, none, some, List, ◌∷◌, ok, err, Result-cases, Bool-cases,
  arith, ◌==◌, eq_iff, eq_refl, ap, ◌∙◌,
}
use parking_fee_service.UpdateService.Adapter.{running, installing, error, AdapterEntry}
use parking_fee_service.UpdateService.Podman.{PodmanCall, PodmanError}
use parking_fee_service.UpdateService.StateManager.{enter}
use parking_fee_service.UpdateService.World.{
  Env, World, Spawned, monitor_task, pull, inspect_digest, run, rmi, spawn, transition,
}
use parking_fee_service.UpdateService.World.Laws.{entry, entry-transition_self}
use parking_fee_service.UpdateService.Install.{pull_verify_run, after_run, after_inspect}

-- Podman answers so that the image may run: it is pulled, its digest is the one that the request
-- named, and its container starts.
pub record IsGood (env : Env) (id image_ref checksum : String) (calls : List PodmanCall)
    : Type 0 where
  pub pulled : env.podman.pull calls image_ref ≡ ok tt
  pub verified :
      env.podman.inspect_digest (PodmanCall.pull image_ref ∷ calls) image_ref ≡ ok checksum
  pub started :
      env.podman.run
        (PodmanCall.inspect_digest image_ref ∷ PodmanCall.pull image_ref ∷ calls)
        id
        image_ref
      ≡ ok tt

-- The adapter runs, and its container is monitored.
pub record IsRunning (id : String) (before : List Spawned) (after : World) : Type 0 where
  pub now : AdapterEntry
  pub present : entry id after ≡ some now
  pub state : now.state ≡ running
  pub monitored : after.spawned ≡ monitor_task id ∷ before

-- The adapter is in state ERROR with a message, and nothing was spawned.
pub record HasFailed (id : String) (before : List Spawned) (after : World) : Type 0 where
  pub now : AdapterEntry
  pub present : entry id after ≡ some now
  pub state : now.state ≡ error
  pub reason : (msg : String) × (now.error_message ≡ some msg)
  pub spawned : after.spawned ≡ before

HasFailed-transition :
    (env : Env) (id msg : String) (w : World) (e : AdapterEntry)
    → entry id w ≡ some e
    → HasFailed id w.spawned (transition env id error (some msg) w).1
unfolding enter transition
HasFailed-transition env id msg w e found = record {
  now = enter (env.clock w.reads) error (some msg) e;
  present = entry-transition_self env id error (some msg) w e found;
  state = refl;
  reason = (msg, refl);
  spawned = refl;
}

module _ (env : Env) (id : String) (w : World) (e : AdapterEntry)
    (found : entry id w ≡ some e) where
  after_run_ok : IsRunning id w.spawned (after_run env id (ok tt) w).1
  unfolding after_run enter spawn transition
  after_run_ok = record {
    now = enter (env.clock w.reads) running none e;
    present = entry-transition_self env id running none w e found;
    state = refl;
    monitored = refl;
  }

module _ (env : Env) (id image_ref checksum : String) (w : World) (e : AdapterEntry)
    (found : entry id w ≡ some e) where
  -- The world in which the container is started.
  abbrev verified_world : World
  verified_world = record (transition env id installing none w).1 {
    calls = PodmanCall.run id image_ref ∷ w.calls;
  }

  verified_found : entry id verified_world ≡ some (enter (env.clock w.reads) installing none e)
  verified_found = entry-transition_self env id installing none w e found

  after_inspect_ok :
      env.podman.run w.calls id image_ref ≡ ok tt
      → IsRunning id w.spawned (after_inspect env id image_ref checksum (ok checksum) w).1
  unfolding after_inspect run transition
  after_inspect_ok started = rw (eq_refl checksum) (
      rw started (
        after_run_ok env id verified_world (enter (env.clock w.reads) installing none e)
          verified_found))

  after_inspect_no_start :
      (x : PodmanError)
      → env.podman.run w.calls id image_ref ≡ err x
      → HasFailed id w.spawned (after_inspect env id image_ref checksum (ok checksum) w).1
  unfolding after_inspect run transition
  after_inspect_no_start x failed = rw (eq_refl checksum) (
      rw failed (
        HasFailed-transition env id x.message verified_world
          (enter (env.clock w.reads) installing none e) verified_found))

  after_inspect_mismatch :
      (digest : String)
      → (digest == checksum) ≡ false
      → HasFailed id w.spawned (after_inspect env id image_ref checksum (ok digest) w).1
  unfolding after_inspect rmi
  after_inspect_mismatch digest differ =
      let failed = HasFailed-transition env id "checksum_mismatch" w e found in
      rw differ (record {
        now = failed.now;
        present = failed.present;
        state = failed.state;
        reason = failed.reason;
        spawned = failed.spawned;
      })

-- How the task may end, by podman's answers.
abbrev pub Ends : Env → String → String → String → World → World → Type 0
Ends env id image_ref checksum before after =
    (IsGood env id image_ref checksum before.calls × IsRunning id before.spawned after)
    ⊎ ((¬ IsGood env id image_ref checksum before.calls) × HasFailed id before.spawned after)

-- The world after the pull, and that after the inspection of the digest.
abbrev pub pulled_world : String → World → World
pulled_world image_ref w = record w { calls = PodmanCall.pull image_ref ∷ w.calls }

abbrev pub inspected_world : String → World → World
inspected_world image_ref w = record w {
  calls = PodmanCall.inspect_digest image_ref ∷ PodmanCall.pull image_ref ∷ w.calls;
}

module _ (env : Env) (id image_ref checksum : String) (w : World) (e : AdapterEntry)
    (found : entry id w ≡ some e) (pulled : env.podman.pull w.calls image_ref ≡ ok tt) where
  Ends-verified :
      env.podman.inspect_digest (PodmanCall.pull image_ref ∷ w.calls) image_ref ≡ ok checksum
      → Ends env id image_ref checksum w (pull_verify_run env id image_ref checksum w).1
  unfolding pull_verify_run pull inspect_digest
  Ends-verified verified =
      rw (pulled, verified)
        (elim (Result-cases (env.podman.run (inspected_world image_ref w).calls id image_ref)) [
          | inl (_, started) ↦ inl (
            record { pulled = pulled; verified = verified; started = started },
            after_inspect_ok env id image_ref checksum (inspected_world image_ref w) e found
                started,
          )
          | inr (x, failed) ↦ inr (
            λ good. ground (arith, good.started),
            after_inspect_no_start env id image_ref checksum (inspected_world image_ref w) e found x
                failed,
          )
        ])

  Ends-mismatch :
      (digest : String)
      → env.podman.inspect_digest (PodmanCall.pull image_ref ∷ w.calls) image_ref ≡ ok digest
      → (digest == checksum) ≡ false
      → Ends env id image_ref checksum w (pull_verify_run env id image_ref checksum w).1
  unfolding pull_verify_run pull inspect_digest
  Ends-mismatch digest inspected differ =
      rw (pulled, inspected)
        (inr (
          λ good. ground (arith, good.verified, eq_iff digest checksum),
          after_inspect_mismatch env id image_ref checksum (inspected_world image_ref w) e found
              digest differ,
        ))

  Ends-uninspected :
      (x : PodmanError)
      → env.podman.inspect_digest (PodmanCall.pull image_ref ∷ w.calls) image_ref ≡ err x
      → Ends env id image_ref checksum w (pull_verify_run env id image_ref checksum w).1
  unfolding pull_verify_run pull inspect_digest
  Ends-uninspected x failed =
      rw (pulled, failed)
        (inr (
          λ good. ground (arith, good.verified),
          HasFailed-transition env id x.message (inspected_world image_ref w) e found,
        ))

  Ends-pulled : Ends env id image_ref checksum w (pull_verify_run env id image_ref checksum w).1
  Ends-pulled =
      elim (Result-cases (env.podman.inspect_digest (pulled_world image_ref w).calls image_ref)) [
        | inr (x, failed) ↦ Ends-uninspected x failed
        | inl (digest, inspected) ↦ elim (Bool-cases (digest == checksum)) [
          | inl same ↦ Ends-verified (inspected ∙ ap ok ((eq_iff digest checksum).0 same))
          | inr differ ↦ Ends-mismatch digest inspected differ
        ]
      ]

Ends-unpulled :
    (env : Env) (id image_ref checksum : String) (w : World) (e : AdapterEntry)
    → entry id w ≡ some e
    → (x : PodmanError) → env.podman.pull w.calls image_ref ≡ err x
    → Ends env id image_ref checksum w (pull_verify_run env id image_ref checksum w).1
unfolding pull_verify_run pull
Ends-unpulled env id image_ref checksum w e found x failed = rw failed (
    inr (
      λ good. ground (arith, good.pulled),
      HasFailed-transition env id x.message (pulled_world image_ref w) e found,
    ))

-- The task of an adapter that has an entry ends in one of two ways. Where podman pulls the image,
-- reports the requested checksum as its digest and starts the container, the adapter is RUNNING and
-- its monitor is spawned. Where any of the three is not so, the adapter is in state ERROR with a message
-- and nothing is spawned.
pub pull_verify_run-Ends :
    (env : Env) (id image_ref checksum : String) (w : World) (e : AdapterEntry)
    → entry id w ≡ some e
    → Ends env id image_ref checksum w (pull_verify_run env id image_ref checksum w).1
pull_verify_run-Ends env id image_ref checksum w e found =
    elim (Result-cases (env.podman.pull w.calls image_ref)) [
      | inl (_, pulled) ↦ Ends-pulled env id image_ref checksum w e found pulled
      | inr (x, failed) ↦ Ends-unpulled env id image_ref checksum w e found x failed
    ]
