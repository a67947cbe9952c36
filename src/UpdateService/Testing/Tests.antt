-- ===== src/UpdateService/Testing/Tests.antt =====
-- Concrete runs with the test double of podman: identifiers, installations in sequence, and the property tests.
use Prim.Native.String.{◌∷◌ as ◌∷ₛ◌}
use parking_fee_service.Prelude.{
  ℕ, ◌≤◌, ◌≡◌, refl, String, true, List, [], ◌∷◌, All, ok, arith, ◌<>◌,
}
use parking_fee_service.Prelude.Text.{contains}
use parking_fee_service.UpdateService.Adapter.{derive_adapter_id}
use parking_fee_service.UpdateService.Adapter.Unique.{
  IsPlain, reference, derive_adapter_id_unique, derive_adapter_id_merges,
}
use parking_fee_service.UpdateService.StateManager.{new, get_adapter, Clock}
use parking_fee_service.Prelude.Dict.{lookup}
use parking_fee_service.UpdateService.StateManager.Invariant.{new-IsValid}
use parking_fee_service.UpdateService.World.{Env, World}
use parking_fee_service.UpdateService.Install.Sequence.{Request, counts, counts-le}
use parking_fee_service.UpdateService.Testing
use parking_fee_service.UpdateService.Testing.{mock_podman, set_inspect_result}
use parking_fee_service.UpdateService.Testing.Properties.{
  adapter_id_determinism, single_adapter_invariant, state_transition_validity,
  checksum_verification_soundness, offload_timing_correctness,
}
use parking_fee_service.UpdateService.Testing.Properties.Hold.{update_tests_hold}

app-IsPlain : IsPlain "app"
unfolding contains
app-IsPlain = record { no_slash = refl; no_colon = refl }

eu-IsPlain : IsPlain "eu"
unfolding contains
eu-IsPlain = record { no_slash = refl; no_colon = refl }

v1-IsPlain : IsPlain "v1"
unfolding contains
v1-IsPlain = record { no_slash = refl; no_colon = refl }

abbrev app : String
app = "app"

abbrev v1 : String
v1 = "v1"

derive_adapter_id_unique_example : (app ≡ app) × (v1 ≡ v1)
unfolding derive_adapter_id contains
derive_adapter_id_unique_example =
    derive_adapter_id_unique "reg.io" "app" "v1" "reg.io/park" "app" "v1" app-IsPlain v1-IsPlain
      app-IsPlain v1-IsPlain refl refl refl

derive_adapter_id_merges_example :
    derive_adapter_id (reference "reg.io" "app" ("eu" <> ("-" ∷ₛ "v1")))
    ≡ derive_adapter_id (reference "reg.io" ("app" <> ("-" ∷ₛ "eu")) "v1")
derive_adapter_id_merges_example =
    derive_adapter_id_merges "reg.io" "reg.io" "app" "eu" "v1" app-IsPlain eu-IsPlain v1-IsPlain

abbrev clock : ℕ → Clock
clock k = record { instant = k; unix_secs = k }

abbrev env : Env
env = record {
  podman = mock_podman (set_inspect_result (ok "sha256:1f") Testing.new);
  clock = clock;
}

abbrev empty : World
empty = record { mgr = new; calls = []; reads = 0; spawned = [] }

abbrev requests : List Request
requests = ("job-1", "reg/app:v1", "sha256:1f") ∷ ("job-2", "reg/lot:v2", "sha256:1f") ∷ []

counts-le_example : All (λ n. n ≤ 1) (counts env requests empty)
unfolding new get_adapter lookup
counts-le_example = counts-le env requests empty new-IsValid (λ j k a b h. cc)

update_tests_hold_example :
    (adapter_id_determinism "reg.io" "" "app" "v1" ≡ true)
    × (single_adapter_invariant clock (λ i. "job") 3 ≡ true)
    × (state_transition_validity clock "job" ≡ true)
    × (checksum_verification_soundness clock "job" "00ff" ≡ true)
    × (offload_timing_correctness clock 5 6 2 ≡ true)
update_tests_hold_example =
    update_tests_hold clock "reg.io" "" "app" "v1" "00ff" (λ i. "job") 3 5 6 2 app-IsPlain
      v1-IsPlain (omega arith)
