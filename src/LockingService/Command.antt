-- ===== src/LockingService/Command.antt =====
-- rhivos/locking-service/src/command.rs. Decoding JSON into a `LockCommand` is serde's: the parameter
-- `from_str`, whose errors have a category and a text.
pub mod Validity
use parking_fee_service.Prelude.{
  String, Bool, false, Option, none, some, List, [], ◌∷◌, Result, ok, err, ◌==◌, ◌||◌,
  if◌then◌else◌,
}
use parking_fee_service.Prelude.Number.{ℤ}
use parking_fee_service.Prelude.Text.{is_empty}

pub data Action : Type 0 where
  lock unlock : Action

pub record LockCommand : Type 0 where
  pub command_id : String
  pub action : Action
  pub doors : List String
  pub source : Option String
  pub vin : Option String
  pub timestamp : Option ℤ

pub data CommandError : Type 0 where
  invalid_json invalid_command unsupported_door : String → CommandError

-- `CommandError::reason`
unfoldable pub reason : CommandError → String
reason (invalid_json _) = "invalid_json"
reason (invalid_command _) = "invalid_command"
reason (unsupported_door _) = "unsupported_door"

-- `serde_json::Error`, by what the code asks of it.
pub record SerdeError : Type 0 where
  pub is_syntax : Bool
  pub is_eof : Bool
  pub text : String

-- `parse_command`
unfoldable pub parse_command :
    (String → Result LockCommand SerdeError) → String → Result LockCommand CommandError
parse_command from_str json = elim (from_str json) [
  | ok cmd ↦ ok cmd
  | err e ↦ err (if e.is_syntax || e.is_eof then invalid_json e.text else invalid_command e.text)
]

-- The first door that is not the driver's, if any.
unfoldable pub find_unsupported : List String → Option String
find_unsupported [] = none
find_unsupported (door ∷ doors) = if door == "driver" then find_unsupported doors else some door

-- `cmd.doors.contains(&"driver".to_string())`
unfoldable pub contains_driver : List String → Bool
contains_driver [] = false
contains_driver (door ∷ doors) = door == "driver" || contains_driver doors

-- `validate_command`
unfoldable pub validate_command : LockCommand → Result (Unit {0}) CommandError
unfolding find_unsupported contains_driver
validate_command cmd =
    if is_empty cmd.command_id
    then err (invalid_command "command_id is empty")
    else elim (find_unsupported cmd.doors) [
      | some door ↦ err (unsupported_door door)
      | none ↦
          if contains_driver cmd.doors
          then ok tt
          else err (invalid_command "doors must contain \"driver\"")
    ]
