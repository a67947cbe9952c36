-- ===== src/UpdateService/Adapter.antt =====
-- rhivos/update-service/src/adapter.rs: adapter identifiers, states, entries and events.
pub mod Ids
pub mod Unique
use parking_fee_service.Prelude.{ℕ, String, ◌≡◌, refl, Bool, true, false, Option}
use parking_fee_service.Prelude.Text.{rsplit_next, replace}

-- `derive_adapter_id`
unfoldable pub derive_adapter_id : String → String
unfolding rsplit_next replace
derive_adapter_id image_ref =
    let last_segment = rsplit_next "/" image_ref in replace ":" "-" last_segment

pub data AdapterState : Type 0 where
  unknown downloading installing running stopped error offloading : AdapterState

-- The derived `==` of `AdapterState`.
unfoldable pub state_eq : AdapterState → AdapterState → Bool
state_eq unknown unknown = true
state_eq downloading downloading = true
state_eq installing installing = true
state_eq running running = true
state_eq stopped stopped = true
state_eq error error = true
state_eq offloading offloading = true
state_eq _ _ = false

-- `stopped_at` is a reading of the monotonic clock (`std::time::Instant`).
pub record AdapterEntry : Type 0 where
  pub adapter_id : String
  pub image_ref : String
  pub checksum_sha256 : String
  pub state : AdapterState
  pub job_id : String
  pub stopped_at : Option ℕ
  pub error_message : Option String

pub record AdapterStateEvent : Type 0 where
  pub adapter_id : String
  pub old_state : AdapterState
  pub new_state : AdapterState
  pub timestamp : ℕ

full_registry :
    derive_adapter_id "us-docker.pkg.dev/sdv-demo/adapters/parkhaus-munich:v1.0.0"
    ≡ "parkhaus-munich-v1.0.0"
unfolding derive_adapter_id
full_registry = refl
