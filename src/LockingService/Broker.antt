-- ===== src/LockingService/Broker.antt =====
-- rhivos/locking-service/src/broker.rs: the trait `BrokerClient` and its gRPC implementation. What the
-- broker answers may depend on all that was asked before; a log keeps that, latest first. `F` stands
-- for `f32` and `f64`, and `narrow` for the cast between them.
use parking_fee_service.Prelude.{
  ℕ, ◌^◌, String, ◌<>◌, Bool, true, false, Option, none, some, List, [], ◌∷◌, Result, ok, err,
  unwrap_or, ◌++◌,
}
use parking_fee_service.Prelude.Signals.{
  TypedValue, bool_value, string_value, float_value, double_value, Item,
}
use parking_fee_service.Prelude.Dict
use parking_fee_service.Prelude.Dict.{Dict}
use parking_fee_service.Prelude.Retry
use parking_fee_service.Prelude.Retry.{Step}

pub data BrokerError : Type 0 where
  connection_failed rpc_error : String → BrokerError

abbrev pub signal_speed : String
signal_speed = "Vehicle.Speed"

abbrev pub signal_door_open : String
signal_door_open = "Vehicle.Cabin.Door.Row1.DriverSide.IsOpen"

abbrev pub signal_is_locked : String
signal_is_locked = "Vehicle.Cabin.Door.Row1.DriverSide.IsLocked"

abbrev pub signal_command : String
signal_command = "Vehicle.Command.Door.Lock"

abbrev pub signal_response : String
signal_response = "Vehicle.Command.Door.Response"

-- What was asked of the broker; a write with whether it succeeded.
pub data Request : Type 0 where
  read_float read_bool : String → Request
  wrote_bool : String → Bool → Bool → Request
  wrote_string : String → String → Bool → Request

-- The trait `BrokerClient`.
pub record BrokerClient (F : Type 0) : Type 0 where
  pub get_float : List Request → String → Result (Option F) BrokerError
  pub get_bool : List Request → String → Result (Option Bool) BrokerError
  pub set_bool : List Request → String → Bool → Result (Unit {0}) BrokerError
  pub set_string : List Request → String → String → Result (Unit {0}) BrokerError

-- The gRPC stub: its answers to `GetValue` (the value of the data point, if there is one) and to
-- `PublishValue`, with the text of an error.
pub record ValClient (F : Type 0) : Type 0 where
  pub get_value : List Request → String → Result (Option (TypedValue F)) String
  pub publish_value : List Request → String → TypedValue F → Result (Unit {0}) String

module _ {F : Type 0} (narrow : F → F) (client : ValClient F) where
  -- The `match` of `get_float`.
  abbrev pub float_of : Option (TypedValue F) → Option F
  float_of (some (float_value f)) = some f
  float_of (some (double_value d)) = some (narrow d)
  float_of _ = none

  -- The `match` of `get_bool`.
  abbrev pub bool_of : Option (TypedValue F) → Option Bool
  bool_of (some (bool_value b)) = some b
  bool_of _ = none

  unfoldable pub grpc_get_float : List Request → String → Result (Option F) BrokerError
  grpc_get_float log signal = elim (client.get_value log signal) [
    | ok v ↦ ok (float_of v)
    | err e ↦ err (rpc_error ("get_float(" <> signal <> "): " <> e))
  ]

  unfoldable pub grpc_get_bool : List Request → String → Result (Option Bool) BrokerError
  grpc_get_bool log signal = elim (client.get_value log signal) [
    | ok v ↦ ok (bool_of v)
    | err e ↦ err (rpc_error ("get_bool(" <> signal <> "): " <> e))
  ]

  abbrev show_bool : Bool → String
  show_bool true = "true"
  show_bool false = "false"

  unfoldable pub grpc_set_bool : List Request → String → Bool → Result (Unit {0}) BrokerError
  grpc_set_bool log signal value = elim (client.publish_value log signal (bool_value value)) [
    | ok _ ↦ ok tt
    | err e ↦ err (rpc_error ("set_bool(" <> signal <> ", " <> show_bool value <> "): " <> e))
  ]

  unfoldable pub grpc_set_string : List Request → String → String → Result (Unit {0}) BrokerError
  grpc_set_string log signal value = elim (client.publish_value log signal (string_value value)) [
    | ok _ ↦ ok tt
    | err e ↦ err (rpc_error ("set_string(" <> signal <> "): " <> e))
  ]

  -- `impl BrokerClient for GrpcBrokerClient`
  unfoldable pub grpc_client : BrokerClient F
  unfolding grpc_get_float grpc_get_bool grpc_set_bool grpc_set_string
  grpc_client = record {
    get_float = grpc_get_float;
    get_bool = grpc_get_bool;
    set_bool = grpc_set_bool;
    set_string = grpc_set_string;
  }

abbrev pub max_attempts : ℕ
max_attempts = 5

-- `GrpcBrokerClient::connect`; the pauses are in seconds, `1 << attempt`.
unfoldable pub connect : {C : Type 0} → (ℕ → Result C String) → Result C BrokerError × List Step
connect try =
    let (r, steps) = Retry.connect max_attempts (λ k. some (2 ^ k)) try in
    (elim r [ ok c ↦ ok c | err last ↦ err (connection_failed (unwrap_or last "")) ], steps)

abbrev pub string_of : {F : Type 0} → Option (Option (TypedValue F)) → List String
string_of (some (some (string_value s))) = s ∷ []
string_of _ = []

-- The task of `subscribe`: what it forwards while the receiver is open, until the stream ends or fails.
unfoldable pub forward_strings : {F : Type 0} → String → List (Item F) → List String
forward_strings signal_path [] = []
forward_strings signal_path (err e ∷ items) = []
forward_strings signal_path (ok entries ∷ items) =
    string_of (Dict.lookup signal_path entries) ++ forward_strings signal_path items
