-- ===== src/UpdateService/Testing.antt =====
-- The module `testing` of rhivos/update-service/src/podman.rs: the executor that the crate's tests use.
-- What its cells record is read off the calls made, latest first. Its `wait` blocks until the test releases it,
-- unless it is told to answer at once: in a run its task is taken from its await only then.
pub mod Properties
mod Tests
use parking_fee_service.Prelude.{
  String, Bool, true, false, Option, none, some, List, [], ◌∷◌, ◌++◌, Result, ok, err, unwrap_or,
}
use parking_fee_service.Prelude.Number.{ℤ, pos}
use parking_fee_service.Prelude.Dict
use parking_fee_service.Prelude.Dict.{Dict}
use parking_fee_service.UpdateService.Podman.{PodmanCall, PodmanError, PodmanExecutor}

-- The answers that a test has configured.
pub record MockPodmanExecutor : Type 0 where
  pub pull_result : Option (Result (Unit {0}) PodmanError)
  pub inspect_result : Option (Result String PodmanError)
  pub run_result : Option (Result (Unit {0}) PodmanError)
  pub stop_result : Option (Result (Unit {0}) PodmanError)
  pub rm_result : Option (Result (Unit {0}) PodmanError)
  pub rmi_result : Option (Result (Unit {0}) PodmanError)
  pub wait_result : Option (Result ℤ PodmanError)
  pub stop_results_by_id : Dict (Result (Unit {0}) PodmanError)
  pub wait_immediate : Bool

-- `MockPodmanExecutor::new`
unfoldable pub new : MockPodmanExecutor
new = record {
  pull_result = none;
  inspect_result = none;
  run_result = none;
  stop_result = none;
  rm_result = none;
  rmi_result = none;
  wait_result = none;
  stop_results_by_id = [];
  wait_immediate = false;
}

unfoldable pub set_pull_result :
    Result (Unit {0}) PodmanError → MockPodmanExecutor → MockPodmanExecutor
set_pull_result result mock = record mock { pull_result = some result }

unfoldable pub set_inspect_result :
    Result String PodmanError → MockPodmanExecutor → MockPodmanExecutor
set_inspect_result result mock = record mock { inspect_result = some result }

unfoldable pub set_run_result :
    Result (Unit {0}) PodmanError → MockPodmanExecutor → MockPodmanExecutor
set_run_result result mock = record mock { run_result = some result }

unfoldable pub set_stop_result :
    Result (Unit {0}) PodmanError → MockPodmanExecutor → MockPodmanExecutor
set_stop_result result mock = record mock { stop_result = some result }

unfoldable pub set_rm_result :
    Result (Unit {0}) PodmanError → MockPodmanExecutor → MockPodmanExecutor
set_rm_result result mock = record mock { rm_result = some result }

unfoldable pub set_rmi_result :
    Result (Unit {0}) PodmanError → MockPodmanExecutor → MockPodmanExecutor
set_rmi_result result mock = record mock { rmi_result = some result }

unfoldable pub set_wait_result : Result ℤ PodmanError → MockPodmanExecutor → MockPodmanExecutor
set_wait_result result mock = record mock { wait_result = some result }

unfoldable pub set_wait_immediate : Bool → MockPodmanExecutor → MockPodmanExecutor
set_wait_immediate immediate mock = record mock { wait_immediate = immediate }

unfoldable pub set_stop_result_for :
    String → Result (Unit {0}) PodmanError → MockPodmanExecutor → MockPodmanExecutor
set_stop_result_for adapter_id result mock = record mock {
  stop_results_by_id = Dict.insert adapter_id result mock.stop_results_by_id;
}

-- The images of the calls of `pull`, oldest first.
unfoldable pub pull_calls : List PodmanCall → List String
pull_calls [] = []
pull_calls (PodmanCall.pull image_ref ∷ calls) = pull_calls calls ++ image_ref ∷ []
pull_calls (_ ∷ calls) = pull_calls calls

unfoldable pub inspect_digest_calls : List PodmanCall → List String
inspect_digest_calls [] = []
inspect_digest_calls (PodmanCall.inspect_digest image_ref ∷ calls) =
    inspect_digest_calls calls ++ image_ref ∷ []
inspect_digest_calls (_ ∷ calls) = inspect_digest_calls calls

unfoldable pub run_calls : List PodmanCall → List (String × String)
run_calls [] = []
run_calls (PodmanCall.run adapter_id image_ref ∷ calls) =
    run_calls calls ++ (adapter_id, image_ref) ∷ []
run_calls (_ ∷ calls) = run_calls calls

unfoldable pub stop_calls : List PodmanCall → List String
stop_calls [] = []
stop_calls (PodmanCall.stop adapter_id ∷ calls) = stop_calls calls ++ adapter_id ∷ []
stop_calls (_ ∷ calls) = stop_calls calls

unfoldable pub rm_calls : List PodmanCall → List String
rm_calls [] = []
rm_calls (PodmanCall.rm adapter_id ∷ calls) = rm_calls calls ++ adapter_id ∷ []
rm_calls (_ ∷ calls) = rm_calls calls

unfoldable pub rmi_calls : List PodmanCall → List String
rmi_calls [] = []
rmi_calls (PodmanCall.rmi image_ref ∷ calls) = rmi_calls calls ++ image_ref ∷ []
rmi_calls (_ ∷ calls) = rmi_calls calls

unfoldable pub wait_calls : List PodmanCall → List String
wait_calls [] = []
wait_calls (PodmanCall.wait adapter_id ∷ calls) = wait_calls calls ++ adapter_id ∷ []
wait_calls (_ ∷ calls) = wait_calls calls

-- The answer to a stop: that of the adapter, if one is configured, or the common one.
unfoldable pub mock_stop : MockPodmanExecutor → String → Result (Unit {0}) PodmanError
mock_stop mock adapter_id = elim (Dict.lookup adapter_id mock.stop_results_by_id) [
  | some result ↦ result
  | none ↦ unwrap_or mock.stop_result (ok tt)
]

-- `impl PodmanExecutor for MockPodmanExecutor`
unfoldable pub mock_podman : MockPodmanExecutor → PodmanExecutor
unfolding mock_stop
mock_podman mock = record {
  pull = λ calls image_ref. unwrap_or mock.pull_result (ok tt);
  inspect_digest = λ calls image_ref. unwrap_or mock.inspect_result (ok "sha256:default");
  run = λ calls adapter_id image_ref. unwrap_or mock.run_result (ok tt);
  stop = λ calls adapter_id. mock_stop mock adapter_id;
  rm = λ calls adapter_id. unwrap_or mock.rm_result (ok tt);
  rmi = λ calls image_ref. unwrap_or mock.rmi_result (ok tt);
  wait = λ calls adapter_id. unwrap_or mock.wait_result (ok (pos 0));
}
