-- ===== src/CloudGatewayClient/Testing/Hold/Commands.antt =====
-- The property tests of rhivos/cloud-gateway-client/tests/test_property.rs on tokens and commands.
use parking_fee_service.Prelude.{
  ℕ, String, ◌≡◌, refl, ◌==◌, Bool, true, not, ◌&&◌, ◌||◌, Option, some, List, [], ◌∷◌, Result, ok,
  arith, inl, inr, Option-cases, Result-cases,
}
use parking_fee_service.Prelude.Dict
use parking_fee_service.Prelude.Dict.{Dict, lookup}
use parking_fee_service.Prelude.Text.{is_empty}
use parking_fee_service.CloudGatewayClient.CommandValidator.{
  Json, CommandPayload, validate_bearer_token, validate_command_payload, check_object,
  check_command_id, check_action, check_doors, field_str,
}
use parking_fee_service.CloudGatewayClient.Testing.{
  is_ok, auth_integrity_with_header, auth_missing_header_always_fails, fields,
  command_structural_validity, command_invalid_bytes_fail,
}

pub auth_holds :
    (header_value expected_token : String)
    → auth_integrity_with_header header_value expected_token ≡ true
unfolding auth_integrity_with_header validate_bearer_token lookup Dict.insert
auth_holds header_value expected_token = ground arith

pub missing_holds :
    (expected_token : String) → auth_missing_header_always_fails expected_token ≡ true
unfolding auth_missing_header_always_fails validate_bearer_token lookup
missing_holds expected_token = refl

module _ (json : Json) (typed : List ℕ → Result (CommandPayload json.Extra) String) where
  pub bytes_hold : (garbage : List ℕ) → command_invalid_bytes_fail json typed garbage ≡ true
  unfolding command_invalid_bytes_fail validate_command_payload
  bytes_hold garbage = elim (Result-cases (json.from_slice garbage)) [
    | inr (x, e) ↦ ground arith
    | inl (v, e) ↦ elim (Option-cases (json.as_object v)) [
      | inl n ↦ ground arith
      | inr (obj, f) ↦ ground arith
    ]
  ]

  module _ (string : String → json.Value) (array : List String → json.Value)
      (to_vec : Dict json.Value → List ℕ) (command_id action : String) where
    abbrev map_of : Bool → Bool → Bool → Dict json.Value
    map_of has_command_id has_action has_doors =
        fields json typed string array has_command_id command_id has_action action has_doors

    -- What `to_vec` writes for the objects of the test is read back as an object with the same fields, the two
    -- strings as these strings and the array as an array.
    pub record IsRoundTrip : Type 0 where
      pub object :
          (has_command_id has_action has_doors : Bool)
          → (v : json.Value) × (json.from_slice
                (to_vec (map_of has_command_id has_action has_doors))
              ≡ ok v)
            × (obj : json.Object) × (json.as_object v ≡ some obj)
            × ((key : String)
                → json.get obj key ≡ lookup key (map_of has_command_id has_action has_doors))
      pub id_text : json.as_str (string command_id) ≡ some command_id
      pub action_text : json.as_str (string action) ≡ some action
      pub list : json.is_array (array ("driver" ∷ [])) ≡ true

    -- A `CommandPayload` is decoded where its three fields are given, with their types.
    abbrev pub Decodes : Type 0
    Decodes = is_ok (typed (to_vec (map_of true true true))) ≡ true

    unfoldable accepts : Option json.Value → Option json.Value → Option json.Value → Bool
    accepts id action doors =
        is_ok (check_command_id json (field_str json id))
        && is_ok (check_action json (field_str json action))
        && is_ok (check_doors json doors)

    module _ (trip : IsRoundTrip) (has_command_id has_action has_doors : Bool) where
      abbrev map : Dict json.Value
      map = map_of has_command_id has_action has_doors

      -- `should_pass`
      abbrev should_pass : Bool
      should_pass =
          has_command_id
          && not (is_empty command_id)
          && has_action
          && (action == "lock" || action == "unlock")
          && has_doors

      validated : is_ok (validate_command_payload json typed (to_vec map)) ≡ (
          accepts (lookup "command_id" map) (lookup "action" map) (lookup "doors" map)
          && is_ok (typed (to_vec map)))
      unfolding validate_command_payload check_object accepts
      validated =
          let (v, e, obj, f, g) = trip.object has_command_id has_action has_doors in
          ground (arith, g "command_id", g "action", g "doors")

      accepts_iff :
          accepts (lookup "command_id" map) (lookup "action" map) (lookup "doors" map) ≡ should_pass
      unfolding accepts fields lookup Dict.insert check_command_id check_action check_doors
      accepts_iff = ground arith

      decoded : Decodes → should_pass ≡ true → is_ok (typed (to_vec map)) ≡ true
      decoded decodes passes =
          let flags : (has_command_id ≡ true) × (has_action ≡ true) × (has_doors ≡ true) =
            ground arith in
          rw (flags.0, flags.1, flags.2) decodes

      pub structure_holds :
          Decodes
          → command_structural_validity json typed string array to_vec has_command_id command_id
              has_action action has_doors
            ≡ true
      unfolding command_structural_validity
      structure_holds decodes = ground (arith, validated, accepts_iff, decoded decodes)
