-- ===== src/CloudGatewayClient/Testing.antt =====
-- rhivos/cloud-gateway-client/tests/test_property.rs: the property tests that need no container, as Boolean
-- tests of their inputs. What `serde_json` reads and writes is a parameter; `F` stands for the numbers
-- that the tests generate, which are no NaN, and `eq` for their `==`.
pub mod Hold
mod Tests
use parking_fee_service.Prelude.{
  ℕ, String, ◌<>◌, ◌==◌, Bool, true, false, not, ◌&&◌, ◌||◌, Option, none, some, List, [], ◌∷◌,
  Result, ok, err, if◌then◌else◌,
}
use parking_fee_service.Prelude.Dict
use parking_fee_service.Prelude.Dict.{Dict}
use parking_fee_service.Prelude.Text.{is_empty}
use parking_fee_service.CloudGatewayClient.CommandValidator.{
  Json, CommandPayload, validate_bearer_token, validate_command_payload,
}
use parking_fee_service.CloudGatewayClient.Telemetry.{
  SignalUpdate, is_locked_update, latitude_update, longitude_update, parking_active_update,
  TelemetryMessage, TelemetryState, bool_eq, new, update,
}

abbrev pub is_ok : {A E : Type 0} → Result A E → Bool
is_ok (ok _) = true
is_ok (err _) = false

abbrev pub is_some : {A : Type 0} → Option A → Bool
is_some none = false
is_some (some _) = true

-- `prop_auth_integrity_with_header`
unfoldable pub auth_integrity_with_header : String → String → Bool
auth_integrity_with_header header_value expected_token =
    let result =
      validate_bearer_token (Dict.insert "Authorization" header_value []) expected_token in
    if header_value == ("Bearer " <> expected_token) then is_ok result else not (is_ok result)

-- `prop_auth_missing_header_always_fails`
unfoldable pub auth_missing_header_always_fails : String → Bool
auth_missing_header_always_fails expected_token =
    not (is_ok (validate_bearer_token [] expected_token))

module _ (json : Json) (typed : List ℕ → Result (CommandPayload json.Extra) String) where
  -- `if present { map.insert(key, value) }`
  abbrev pub insert_if : Bool → String → json.Value → Dict json.Value → Dict json.Value
  insert_if true key value map = Dict.insert key value map
  insert_if false key value map = map

  module _ (string : String → json.Value) (array : List String → json.Value) where
    -- The `map` of `prop_command_structural_validity`.
    unfoldable pub fields : Bool → String → Bool → String → Bool → Dict json.Value
    fields has_command_id command_id has_action action has_doors =
        insert_if has_doors "doors" (array ("driver" ∷ [])) (
          insert_if has_action "action" (string action)
            (insert_if has_command_id "command_id" (string command_id) []))

    -- `prop_command_structural_validity`; `to_vec` writes an object.
    unfoldable pub command_structural_validity :
        (Dict json.Value → List ℕ) → Bool → String → Bool → String → Bool → Bool
    unfolding fields
    command_structural_validity to_vec has_command_id command_id has_action action has_doors =
        let result =
          validate_command_payload json typed
            (to_vec (fields has_command_id command_id has_action action has_doors)) in
        if has_command_id
          && not (is_empty command_id)
          && has_action
          && (action == "lock" || action == "unlock")
          && has_doors
        then is_ok result
        else not (is_ok result)

  -- The parameter's `from_slice` as the test calls it: whether it gives an object.
  abbrev pub is_object : Result json.Value String → Bool
  is_object (ok value) = is_some (json.as_object value)
  is_object (err _) = false

  -- `prop_command_invalid_bytes_fail`
  unfoldable pub command_invalid_bytes_fail : List ℕ → Bool
  command_invalid_bytes_fail garbage =
      if is_object (json.from_slice garbage)
      then true
      else not (is_ok (validate_command_payload json typed garbage))

-- `serde_json` as the test of the telemetry reads with it.
pub record Reader (F : Type 0) : Type 1 where
  pub Value : Type 0
  pub from_str : String → Result Value String
  pub get : Value → String → Option Value
  pub as_str : Value → Option String
  pub as_bool : Value → Option Bool
  pub as_f64 : Value → Option F

-- The variables `known_is_locked`, `known_latitude`, `known_longitude` and `known_parking`.
pub record Known (F : Type 0) : Type 0 where
  pub is_locked : Option Bool
  pub latitude : Option F
  pub longitude : Option F
  pub parking_active : Option Bool

abbrev pub none_known : {F : Type 0} → Known F
none_known = record { is_locked = none; latitude = none; longitude = none; parking_active = none }

-- The `match` on the update.
unfoldable pub learn : {F : Type 0} → SignalUpdate F → Known F → Known F
learn (is_locked_update v) known = record known { is_locked = some v }
learn (latitude_update v) known = record known { latitude = some v }
learn (longitude_update v) known = record known { longitude = some v }
learn (parking_active_update v) known = record known { parking_active = some v }

abbrev pub equals : {A : Type 0} → (A → A → Bool) → Option A → A → Bool
equals eq none v = false
equals eq (some u) v = eq u v

module _ {F : Type 0} (eq : F → F → Bool) (reader : Reader F) where
  -- `parsed.get(key).and_then(read)`
  abbrev pub field : {A : Type 0} → (reader.Value → Option A) → reader.Value → String → Option A
  field read parsed key = elim (reader.get parsed key) [ none ↦ none | some value ↦ read value ]

  -- The check of a field: it has the known value, or it is missing.
  unfoldable pub shows :
      {A : Type 0}
      → (A → A → Bool)
      → (reader.Value → Option A)
      → Option A
      → reader.Value
      → String
      → Bool
  shows same read none parsed key = not (is_some (reader.get parsed key))
  shows same read (some v) parsed key = equals same (field read parsed key) v

  -- The checks of a message.
  unfoldable pub is_complete : Known F → reader.Value → Bool
  unfolding shows
  is_complete known parsed =
      equals (λ u v. u == v) (field reader.as_str parsed "vin") "VIN"
      && shows bool_eq reader.as_bool known.is_locked parsed "is_locked"
      && shows eq reader.as_f64 known.latitude parsed "latitude"
      && shows eq reader.as_f64 known.longitude parsed "longitude"
      && shows bool_eq reader.as_bool known.parking_active parsed "parking_active"
      && is_some (reader.get parsed "timestamp")

  -- What is checked after an update: a text that is no JSON fails the test.
  unfoldable pub is_complete_if : Known F → Option String → Bool
  unfolding is_complete
  is_complete_if known none = true
  is_complete_if known (some json) = elim (reader.from_str json) [
    | err _ ↦ false
    | ok parsed ↦ is_complete known parsed
  ]

  -- The loop of the test. Each update comes with the reading of the clock.
  unfoldable pub complete_from :
      (TelemetryMessage F → String) → List (ℕ × SignalUpdate F) → TelemetryState F → Known F → Bool
  unfolding learn is_complete_if
  complete_from to_json [] state known = true
  complete_from to_json ((secs, signal) ∷ rest) state known =
      let (sent, state') = update eq to_json secs signal state in
      is_complete_if (learn signal known) sent
      && complete_from to_json rest state' (learn signal known)

  -- `prop_telemetry_completeness`
  unfoldable pub telemetry_completeness :
      (TelemetryMessage F → String) → List (ℕ × SignalUpdate F) → Bool
  unfolding complete_from
  telemetry_completeness to_json updates = complete_from to_json updates (new F "VIN") none_known
