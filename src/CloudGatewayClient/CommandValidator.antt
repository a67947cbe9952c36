-- ===== src/CloudGatewayClient/CommandValidator.antt =====
-- rhivos/cloud-gateway-client/src/command_validator.rs, with the types of errors.rs and models.rs that it
-- uses. JSON is the library serde_json's: the parameter `Json` has the operations that the code calls.
pub mod Accepted
use parking_fee_service.Prelude.{
  ℕ, String, ◌<>◌, ◌==◌, Bool, ◌||◌, Option, none, some, List, Result, ok, err, if◌then◌else◌,
}
use parking_fee_service.Prelude.Dict
use parking_fee_service.Prelude.Dict.{Dict}
use parking_fee_service.Prelude.Text.{is_empty}

pub data AuthError : Type 0 where
  missing_header invalid_token : AuthError

pub data ValidationError : Type 0 where
  invalid_json missing_field invalid_action : String → ValidationError

-- `validate_bearer_token`
unfoldable pub validate_bearer_token : Dict String → String → Result (Unit {0}) AuthError
validate_bearer_token headers expected_token = elim (Dict.lookup "Authorization" headers) [
  | none ↦ err missing_header
  | some auth_value ↦
      if auth_value == ("Bearer " <> expected_token) then ok tt else err invalid_token
]

-- `serde_json` as the validator uses it; a payload is a list of bytes. `Extra` is the type of the
-- fields that `CommandPayload` collects besides its own.
pub record Json : Type 1 where
  pub Value : Type 0
  pub Object : Type 0
  pub Extra : Type 0
  pub from_slice : List ℕ → Result Value String
  pub as_object : Value → Option Object
  pub get : Object → String → Option Value
  pub as_str : Value → Option String
  pub is_array : Value → Bool

pub record CommandPayload (Extra : Type 0) : Type 0 where
  pub command_id : String
  pub action : String
  pub doors : List String
  pub extra : Extra

module _ (json : Json) where
  -- `v.as_str()` of a field.
  abbrev pub field_str : Option json.Value → Option String
  field_str none = none
  field_str (some v) = json.as_str v

  -- The `match` on `command_id`.
  unfoldable pub check_command_id : Option String → Result (Unit {0}) ValidationError
  check_command_id none = err (missing_field "command_id")
  check_command_id (some s) = if is_empty s then err (missing_field "command_id") else ok tt

  -- The `match` on `action`.
  unfoldable pub check_action : Option String → Result (Unit {0}) ValidationError
  check_action none = err (missing_field "action")
  check_action (some s) = if s == "lock" || s == "unlock" then ok tt else err (invalid_action s)

  -- The `match` on `doors`.
  unfoldable pub check_doors : Option json.Value → Result (Unit {0}) ValidationError
  check_doors none = err (missing_field "doors")
  check_doors (some v) = if json.is_array v then ok tt else err (missing_field "doors")

  -- The checks of the three fields, in their order.
  unfoldable pub check_object : json.Object → Result (Unit {0}) ValidationError
  unfolding check_command_id check_action check_doors
  check_object obj = elim (check_command_id (field_str (json.get obj "command_id"))) [
    | err e ↦ err e
    | ok _ ↦ elim (check_action (field_str (json.get obj "action"))) [
      | err e ↦ err e
      | ok _ ↦ check_doors (json.get obj "doors")
    ]
  ]

  abbrev check_value : Option json.Object → Result (Unit {0}) ValidationError
  unfolding check_object
  check_value none = err (invalid_json "expected JSON object")
  check_value (some obj) = check_object obj

  -- `validate_command_payload`; `typed` decodes the payload as a `CommandPayload`.
  unfoldable pub validate_command_payload :
      (List ℕ → Result (CommandPayload json.Extra) String)
      → List ℕ
      → Result (CommandPayload json.Extra) ValidationError
  unfolding check_value
  validate_command_payload typed payload = elim (json.from_slice payload) [
    | err e ↦ err (invalid_json e)
    | ok value ↦ elim (check_value (json.as_object value)) [
      | err e ↦ err e
      | ok _ ↦ elim (typed payload) [ err e ↦ err (invalid_json e) | ok cmd ↦ ok cmd ]
    ]
  ]
