-- ===== src/CloudGatewayClient/Telemetry.antt =====
-- rhivos/cloud-gateway-client/src/telemetry.rs, with the types of models.rs that it uses. `F` stands for
-- `f64` and `eq` for its `==`; rendering a message is the parameter `to_json`. `secs` is the reading of
-- the clock, which is not before the epoch.
pub mod Shown
use parking_fee_service.Prelude.{
  ℕ, String, Bool, true, false, not, Option, none, some, List, [], ◌∷◌, if◌then◌else◌,
}

pub data SignalUpdate (F : Type 0) : Type 0 where
  is_locked_update : Bool → SignalUpdate F
  latitude_update longitude_update : F → SignalUpdate F
  parking_active_update : Bool → SignalUpdate F

pub record TelemetryMessage (F : Type 0) : Type 0 where
  pub vin : String
  pub is_locked : Option Bool
  pub latitude : Option F
  pub longitude : Option F
  pub parking_active : Option Bool
  pub timestamp : ℕ

pub record TelemetryState (F : Type 0) : Type 0 where
  pub vin : String
  pub is_locked : Option Bool
  pub latitude : Option F
  pub longitude : Option F
  pub parking_active : Option Bool

-- `TelemetryState::new`
unfoldable pub new : (F : Type 0) → String → TelemetryState F
new F vin = record {
  vin = vin;
  is_locked = none;
  latitude = none;
  longitude = none;
  parking_active = none;
}

abbrev pub bool_eq : Bool → Bool → Bool
bool_eq true b = b
bool_eq false b = not b

-- `old != Some(v)`
abbrev pub differs : {A : Type 0} → (A → A → Bool) → Option A → A → Bool
differs eq none v = true
differs eq (some u) v = not (eq u v)

module _ {F : Type 0} (eq : F → F → Bool) where
  -- The `match` of `update`: whether the value is new, and the state with it.
  unfoldable pub apply : SignalUpdate F → TelemetryState F → Bool × TelemetryState F
  apply (is_locked_update v) s = (differs bool_eq s.is_locked v, record s { is_locked = some v })
  apply (latitude_update v) s = (differs eq s.latitude v, record s { latitude = some v })
  apply (longitude_update v) s = (differs eq s.longitude v, record s { longitude = some v })
  apply (parking_active_update v) s =
      (differs bool_eq s.parking_active v, record s { parking_active = some v })

  unfoldable pub message_of : ℕ → TelemetryState F → TelemetryMessage F
  message_of secs s = record {
    vin = s.vin;
    is_locked = s.is_locked;
    latitude = s.latitude;
    longitude = s.longitude;
    parking_active = s.parking_active;
    timestamp = secs;
  }

  -- `update`
  unfoldable pub update :
      (TelemetryMessage F → String)
      → ℕ
      → SignalUpdate F
      → TelemetryState F
      → Option String × TelemetryState F
  unfolding apply message_of
  update to_json secs signal s =
      let (changed, s') = apply signal s in
      (if changed then some (to_json (message_of secs s')) else none, s')

  -- The loop of the telemetry task: the payloads that it publishes. Each update comes with the reading
  -- of the clock.
  unfoldable pub publish_all :
      (TelemetryMessage F → String)
      → List (ℕ × SignalUpdate F)
      → TelemetryState F
      → List String × TelemetryState F
  unfolding update
  publish_all to_json [] s = ([], s)
  publish_all to_json ((secs, signal) ∷ rest) s =
      let (sent, s') = update to_json secs signal s in
      let (payloads, s'') = publish_all to_json rest s' in
      (elim sent [ none ↦ payloads | some payload ↦ payload ∷ payloads ], s'')
