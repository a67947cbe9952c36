-- ===== src/UpdateService/Install/Race.antt =====
-- Two installations whose tasks are both under way, in rhivos/update-service/src/install.rs.
use parking_fee_service.Prelude.{
  String, ◌≡◌, ◌∙◌, false, none, some, ok, err, Result, Result-cases, Bool-cases, arith, ◌==◌,
  eq_iff, inl, inr, ◌≢◌,
}
use parking_fee_service.UpdateService.Adapter.{running, AdapterEntry, error, installing}
use parking_fee_service.UpdateService.Podman.{PodmanError}
use parking_fee_service.UpdateService.StateManager.Running.{IsSingle}
use parking_fee_service.UpdateService.World.{
  Env, World, pull, inspect_digest, run, rmi, spawn, transition,
}
use parking_fee_service.UpdateService.World.Laws.{entry, entry-transition_other}
use parking_fee_service.UpdateService.Install.{
  pull_verify_run, after_pull, after_inspect, after_run,
}
use parking_fee_service.UpdateService.Install.Outcome.{IsGood, IsRunning, pull_verify_run-Ends}

-- The task of one adapter leaves the entry of every other as it is.
module _ (env : Env) (id j : String) (other : (id == j) ≡ false) where
  after_run-other :
      (r : Result (Unit {0}) PodmanError) (w : World) → entry j (after_run env id r w).1 ≡ entry j w
  unfolding after_run spawn
  after_run-other (ok _) w = entry-transition_other env id j running none w other
  after_run-other (err e) w = entry-transition_other env id j error (some e.message) w other

  after_inspect-other :
      (image_ref checksum : String) (r : Result String PodmanError) (w : World)
      → entry j (after_inspect env id image_ref checksum r w).1 ≡ entry j w
  unfolding after_inspect run rmi
  after_inspect-other image_ref checksum (err e) w =
      entry-transition_other env id j error (some e.message) w other
  after_inspect-other image_ref checksum (ok digest) w = elim (Bool-cases (digest == checksum)) [
    | inr differ ↦
        rw differ (entry-transition_other env id j error (some "checksum_mismatch") w other)
    | inl same ↦
        let w' = (transition env id installing none w).1 in
        rw same (
          after_run-other (run env id image_ref w').0 (run env id image_ref w').1
          ∙ entry-transition_other env id j installing none w other)
  ]

  pub pull_verify_run-other :
      (image_ref checksum : String) (w : World)
      → entry j (pull_verify_run env id image_ref checksum w).1 ≡ entry j w
  unfolding pull_verify_run after_pull pull inspect_digest
  pull_verify_run-other image_ref checksum w =
      elim (Result-cases (env.podman.pull w.calls image_ref)) [
        | inr (x, failed) ↦
            rw failed (
              entry-transition_other env id j error (some x.message) (pull env image_ref w).1 other)
        | inl (_, pulled) ↦ rw pulled (
            after_inspect-other image_ref checksum
              (inspect_digest env image_ref (pull env image_ref w).1).0
              (inspect_digest env image_ref (pull env image_ref w).1).1)
      ]

-- The task of an adapter whose image podman pulls, verifies and starts.
good_runs :
    (env : Env) (id image_ref checksum : String) (w : World) (e : AdapterEntry)
    → entry id w ≡ some e
    → IsGood env id image_ref checksum w.calls
    → IsRunning id w.spawned (pull_verify_run env id image_ref checksum w).1
good_runs env id image_ref checksum w e found good =
    elim (pull_verify_run-Ends env id image_ref checksum w e found) [
      | inl (_, r) ↦ r
      | inr (bad, _) ↦ absurd (bad good)
    ]

-- If two adapters have entries at the same time, and podman pulls, verifies and starts the images of
-- both, then after the tasks of both, one after the other, two adapters run.
pub installs_race :
    (env : Env) (id j image_ref image_j checksum checksum_j : String) (w : World)
    (a b : AdapterEntry)
    → id ≢ j
    → entry id w ≡ some a
    → entry j w ≡ some b
    → IsGood env id image_ref checksum w.calls
    → IsGood env j image_j checksum_j (pull_verify_run env id image_ref checksum w).1.calls
    → ¬ IsSingle
        (pull_verify_run env j image_j checksum_j
          (pull_verify_run env id image_ref checksum w).1).1.mgr
installs_race env id j image_ref image_j checksum checksum_j w a b differ found_id found_j good_id
      good_j single =
    let w' = (pull_verify_run env id image_ref checksum w).1 in
    let differs : (id == j) ≡ false = ground (arith, eq_iff id j) in
    let differs_j : (j == id) ≡ false = ground (arith, eq_iff j id) in
    let first = good_runs env id image_ref checksum w a found_id good_id in
    let second =
      good_runs env j image_j checksum_j w' b
        (pull_verify_run-other env id j differs image_ref checksum w ∙ found_j) good_j in
    differ (
      single id j first.now second.now
        (pull_verify_run-other env j id differs_j image_j checksum_j w' ∙ first.present)
        second.present first.state second.state)
