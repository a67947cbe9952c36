-- ===== src/UpdateService/Testing/Properties.antt =====
-- rhivos/update-service/src/proptest_cases.rs: the property tests as Boolean tests of their inputs. While a
-- test sleeps, the installation that it has asked for ends, and the monitors stay in `wait`. That all
-- subscribers of the channel receive the same is the library's, and not modelled.
pub mod Hold
use Prim.Native.String.{◌∷◌ as ◌∷ₛ◌}
use parking_fee_service.UpdateService.Adapter.Unique.{reference}
use parking_fee_service.Prelude.{
  ℕ, zero, suc, String, ◌<>◌, Bool, true, false, not, ◌&&◌, ◌||◌, none, some, List, [], ◌∷◌, Result,
  ok, err, ◌==◌, leb, if◌then◌else◌,
}
use parking_fee_service.Prelude.Number.{show_ℕ}
use parking_fee_service.Prelude.Text.{is_empty}
use parking_fee_service.UpdateService.Adapter.{
  AdapterState, unknown, downloading, installing, running, stopped, error, offloading, state_eq,
  AdapterStateEvent, derive_adapter_id, AdapterEntry,
}
use parking_fee_service.UpdateService.Podman.{PodmanExecutor, PodmanCall}
use parking_fee_service.UpdateService.StateManager
use parking_fee_service.UpdateService.StateManager.{Clock, get_adapter, list_adapters}
use parking_fee_service.UpdateService.World.{Env, World, create_adapter}
use parking_fee_service.UpdateService.Offload.{run_offload_cycle}
use parking_fee_service.UpdateService.Install.Sequence.{install_settled, running_count}
use parking_fee_service.UpdateService.Testing.{
  MockPodmanExecutor, new, set_pull_result, set_inspect_result, set_run_result, set_stop_result,
  set_rm_result, set_rmi_result, mock_podman, rmi_calls,
}

-- `VALID_TRANSITIONS`
abbrev pub valid_transitions : List (AdapterState × AdapterState)
valid_transitions =
    (unknown, downloading)
    ∷ (downloading, installing)
    ∷ (downloading, error)
    ∷ (installing, running)
    ∷ (installing, error)
    ∷ (running, stopped)
    ∷ (running, error)
    ∷ (stopped, offloading)
    ∷ (offloading, error)
    ∷ []

-- `VALID_TRANSITIONS.contains(&pair)`
unfoldable pub contains_pair :
    List (AdapterState × AdapterState) → AdapterState → AdapterState → Bool
unfolding state_eq
contains_pair [] old new_state = false
contains_pair ((a, b) ∷ pairs) old new_state =
    (state_eq a old && state_eq b new_state) || contains_pair pairs old new_state

unfoldable pub all_valid : List AdapterStateEvent → Bool
unfolding contains_pair
all_valid [] = true
all_valid (event ∷ events) =
    contains_pair valid_transitions event.old_state event.new_state && all_valid events

-- `proptest_adapter_id_determinism`
unfoldable pub adapter_id_determinism : String → String → String → String → Bool
adapter_id_determinism registry path name tag =
    let image_ref =
      if is_empty path
      then reference registry name tag
      else reference (registry <> ("/" ∷ₛ path)) name tag in
    derive_adapter_id image_ref == derive_adapter_id image_ref
    && not (is_empty (derive_adapter_id image_ref))

-- `proptest_adapter_id_uniqueness`
unfoldable pub adapter_id_uniqueness : String → String → String → String → Bool
adapter_id_uniqueness name₁ tag₁ name₂ tag₂ =
    if name₁ <> (":" ∷ₛ tag₁) == name₂ <> (":" ∷ₛ tag₂)
    then true
    else not (
        derive_adapter_id (reference "registry.example.com" name₁ tag₁)
        == derive_adapter_id (reference "registry.example.com" name₂ tag₂))

module _ (clock : ℕ → Clock) where
  abbrev pub test_env : MockPodmanExecutor → Env
  test_env mock = record { podman = mock_podman mock; clock = clock }

  -- `Arc::new(StateManager::new(tx))` and an executor without calls.
  abbrev pub start_world : World
  unfolding StateManager.new
  start_world = record { mgr = StateManager.new; calls = []; reads = 0; spawned = [] }

  -- The i-th round of `proptest_single_adapter_invariant`. `job` is the identifier that `Uuid` makes.
  unfoldable pub round : (ℕ → String) → ℕ → World → World
  round job i w =
      let checksum = "sha256:check" <> show_ℕ i in
      let image_ref = "example.com/adapter-" <> (show_ℕ i <> ":v1") in
      let mock =
        set_inspect_result (ok checksum)
          (set_stop_result (ok tt) (set_run_result (ok tt) (set_pull_result (ok tt) new))) in
      (install_settled (test_env mock) (job i) image_ref checksum w).1

  -- The loop, from a round on.
  unfoldable pub single_from : (ℕ → String) → ℕ → ℕ → World → Bool
  unfolding round running_count
  single_from job zero i w = true
  single_from job (suc n) i w =
      let w' = round job i w in
      leb (running_count (list_adapters w'.mgr)) 1 && single_from job n (suc i) w'

  -- `proptest_single_adapter_invariant`
  unfoldable pub single_adapter_invariant : (ℕ → String) → ℕ → Bool
  unfolding single_from
  single_adapter_invariant job n = single_from job n 0 start_world

  -- `proptest_state_transition_validity`
  unfoldable pub state_transition_validity : String → Bool
  unfolding install_settled mock_podman all_valid
  state_transition_validity job =
      let mock =
        set_run_result (ok tt)
          (set_inspect_result (ok "sha256:abc") (set_pull_result (ok tt) new)) in
      all_valid
        (install_settled (test_env mock) job "example.com/val-test:v1" "sha256:abc"
          start_world).1.mgr.events

  -- `rmi_calls().contains(&image_ref)`
  unfoldable pub contains_text : List String → String → Bool
  contains_text [] s = false
  contains_text (t ∷ ts) s = t == s || contains_text ts s

  -- `proptest_checksum_verification_soundness`
  unfoldable pub checksum_verification_soundness : String → String → Bool
  unfolding install_settled mock_podman get_adapter rmi_calls contains_text state_eq
  checksum_verification_soundness job suffix =
      let digest = "sha256:actual_" <> suffix in
      let checksum = "sha256:expected_" <> suffix in
      let mock =
        set_rmi_result (ok tt) (set_inspect_result (ok digest) (set_pull_result (ok tt) new)) in
      let after =
        (install_settled (test_env mock) job "example.com/cs-test:v1" checksum start_world).1 in
      not (digest == checksum)
      && (elim (get_adapter "cs-test-v1" after.mgr) [
        | none ↦ false
        | some adapter ↦ state_eq adapter.state error
      ])
      && contains_text (rmi_calls after.calls) "example.com/cs-test:v1"

  -- The entry of `proptest_offload_timing_correctness`, stopped at an instant.
  abbrev pub timing_entry : ℕ → AdapterEntry
  timing_entry instant = record {
    adapter_id = "timing-v1";
    image_ref = "example.com/timing:v1";
    checksum_sha256 = "sha256:test";
    state = stopped;
    job_id = "job-timing";
    stopped_at = some instant;
    error_message = none;
  }

  -- `proptest_offload_timing_correctness`, whose cycle comes at the instant `now`
  unfoldable pub offload_timing_correctness : ℕ → ℕ → ℕ → Bool
  unfolding run_offload_cycle mock_podman get_adapter state_eq create_adapter
  offload_timing_correctness instant now timeout =
      let mock = set_rmi_result (ok tt) (set_rm_result (ok tt) new) in
      let created = (create_adapter (timing_entry instant) start_world).1 in
      let after = (run_offload_cycle (test_env mock) now timeout created).1 in
      elim (get_adapter "timing-v1" after.mgr) [
        | none ↦ false
        | some adapter ↦ state_eq adapter.state stopped
      ]
