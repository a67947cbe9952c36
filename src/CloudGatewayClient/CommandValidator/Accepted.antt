-- ===== src/CloudGatewayClient/CommandValidator/Accepted.antt =====
-- What the validator of cloud-gateway-client/src/command_validator.rs accepts.
use parking_fee_service.Prelude.{
  ℕ, String, ◌≡◌, ◌⊎◌, ◌↔◌, Option, some, none, List, Result, ok, true, false, arith, eq_iff,
  Result-cases, inl, inr, Option-cases, refl,
}
use parking_fee_service.Prelude.Text.{is_empty}
use parking_fee_service.CloudGatewayClient.CommandValidator.{
  Json, CommandPayload, field_str, check_object, check_command_id, check_action, check_doors,
  validate_command_payload,
}

-- The fields that a command has to have.
module _ (json : Json) where
  pub record IsCommand (obj : json.Object) : Type 0 where
    pub id :
        (s : String) × (field_str json (json.get obj "command_id") ≡ some s) × (is_empty s ≡ false)
    pub action :
        (field_str json (json.get obj "action") ≡ some "lock")
        ⊎ (field_str json (json.get obj "action") ≡ some "unlock")
    pub doors : (v : json.Value) × (json.get obj "doors" ≡ some v) × (json.is_array v ≡ true)

  -- A payload that decodes to `cmd` and is a JSON object with the fields of a command.
  abbrev pub IsCommandPayload :
      (List ℕ → Result (CommandPayload json.Extra) String)
      → List ℕ
      → CommandPayload json.Extra
      → Type 0
  IsCommandPayload typed payload cmd =
      (value : json.Value) × (json.from_slice payload ≡ ok value)
      × (obj : json.Object) × (json.as_object value ≡ some obj)
      × IsCommand obj
      × (typed payload ≡ ok cmd)

  command_id_given :
      (o : Option String)
      → check_command_id json o ≡ ok tt
      → (s : String) × (o ≡ some s) × (is_empty s ≡ false)
  unfolding check_command_id
  command_id_given none h = absurd (ground arith)
  command_id_given (some s) h = (s, refl, ground arith)

  action_given :
      (o : Option String) → check_action json o ≡ ok tt → (o ≡ some "lock") ⊎ (o ≡ some "unlock")
  unfolding check_action
  action_given none h = absurd (ground arith)
  action_given (some s) h = ground (arith, eq_iff s "lock", eq_iff s "unlock")

  doors_given :
      (o : Option json.Value)
      → check_doors json o ≡ ok tt
      → (v : json.Value) × (o ≡ some v) × (json.is_array v ≡ true)
  unfolding check_doors
  doors_given none h = absurd (ground arith)
  doors_given (some v) h = (v, refl, ground arith)

  module _ (obj : json.Object) where
    accepted-IsCommand : check_object json obj ≡ ok tt → IsCommand obj
    unfolding check_object
    accepted-IsCommand h = record {
      id = command_id_given (field_str json (json.get obj "command_id")) (ground arith);
      action = action_given (field_str json (json.get obj "action")) (ground arith);
      doors = doors_given (json.get obj "doors") (ground arith);
    }

    IsCommand-accepted : IsCommand obj → check_object json obj ≡ ok tt
    unfolding check_object check_command_id check_action check_doors
    IsCommand-accepted c = ground arith

  module _ (typed : List ℕ → Result (CommandPayload json.Extra) String) (payload : List ℕ)
      (cmd : CommandPayload json.Extra) where
    -- The validator accepts exactly the payloads that are a JSON object with a nonempty string
    -- `command_id`, an `action` that is "lock" or "unlock" and an array `doors`, and that decode.
    pub validate_command_payload_iff :
        (validate_command_payload json typed payload ≡ ok cmd) ↔ IsCommandPayload typed payload cmd
    unfolding validate_command_payload
    validate_command_payload_iff = (
      λ h. elim (Result-cases (json.from_slice payload)) [
        | inl (v, e) ↦ elim (Option-cases (json.as_object v)) [
          | inl n ↦ absurd (ground arith)
          | inr (obj, f) ↦ (v, e, obj, f, accepted-IsCommand obj (ground arith), ground arith)
        ]
        | inr (x, e) ↦ absurd (ground arith)
      ],
      λ c. ground (arith, IsCommand-accepted c.2 c.4),
    )
