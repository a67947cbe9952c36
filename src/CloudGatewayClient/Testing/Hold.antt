-- ===== src/CloudGatewayClient/Testing/Hold.antt =====
-- The property tests of rhivos/cloud-gateway-client/tests/test_property.rs hold of all inputs.
pub mod Commands
pub mod Telemetry
use parking_fee_service.Prelude.{
  ℕ, String, ◌≡◌, refl, ◌==◌, Bool, true, false, not, ◌&&◌, ◌||◌, Option, none, some, List, [], ◌∷◌,
  Result, ok, arith, inl, inr, if◌then◌else◌, Option-cases, Result-cases,
}
use parking_fee_service.Prelude.Dict
use parking_fee_service.Prelude.Dict.{Dict, lookup}
use parking_fee_service.Prelude.Text.{is_empty}
use parking_fee_service.CloudGatewayClient.CommandValidator.{
  Json, CommandPayload, validate_bearer_token, validate_command_payload, check_object,
  check_command_id, check_action, check_doors, field_str,
}
use parking_fee_service.CloudGatewayClient.Telemetry.{
  SignalUpdate, is_locked_update, latitude_update, longitude_update, parking_active_update,
  TelemetryMessage, TelemetryState, bool_eq, new, apply, message_of, update,
}
use parking_fee_service.CloudGatewayClient.Testing.{
  is_ok, is_some, auth_integrity_with_header, auth_missing_header_always_fails, fields,
  command_structural_validity, command_invalid_bytes_fail, Reader, Known, none_known, learn, field,
  shows, is_complete, is_complete_if, complete_from, telemetry_completeness,
}
use parking_fee_service.CloudGatewayClient.Testing.Hold.Commands.{
  IsRoundTrip, Decodes, auth_holds, missing_holds, structure_holds, bytes_hold,
}
use parking_fee_service.CloudGatewayClient.Testing.Hold.Telemetry.{
  IsRead, Reflexive, telemetry_holds,
}

module _ (json : Json) (typed : List ℕ → Result (CommandPayload json.Extra) String)
    (string : String → json.Value) (array : List String → json.Value)
    (to_vec : Dict json.Value → List ℕ) where
  -- Where `serde_json` reads back what it writes, a command and a telemetry message, and equality is reflexive on
  -- the numbers, each property test of the gateway that needs no container holds of all inputs: those of the
  -- bearer token, of the fields of a command, of payloads that are no JSON object, and of the
  -- completeness of telemetry.
  pub gateway_tests_hold :
      {F : Type 0} (eq : F → F → Bool) (reader : Reader F) (to_json : TelemetryMessage F → String)
      (header_value expected_token command_id action : String)
      (has_command_id has_action has_doors : Bool) (garbage : List ℕ)
      (updates : List (ℕ × SignalUpdate F))
      → IsRoundTrip json typed string array to_vec command_id action
      → Decodes json typed string array to_vec command_id action
      → Reflexive eq reader to_json eq
      → IsRead eq reader to_json
      → (auth_integrity_with_header header_value expected_token ≡ true)
        × (auth_missing_header_always_fails expected_token ≡ true)
        × (command_structural_validity json typed string array to_vec has_command_id command_id
              has_action action has_doors
            ≡ true)
        × (command_invalid_bytes_fail json typed garbage ≡ true)
        × (telemetry_completeness eq reader to_json updates ≡ true)
  gateway_tests_hold eq reader to_json header_value expected_token command_id action has_command_id
        has_action has_doors garbage updates trip decodes eq_same is_read =
      (
        auth_holds header_value expected_token,
        missing_holds expected_token,
        structure_holds json typed string array to_vec command_id action trip has_command_id
            has_action has_doors decodes,
        bytes_hold json typed garbage,
        telemetry_holds eq reader to_json eq_same is_read updates,
      )
