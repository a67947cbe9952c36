-- ===== src/CloudGatewayClient/BrokerClient.antt =====
-- rhivos/cloud-gateway-client/src/broker_client.rs. The gRPC library is a parameter: what connecting
-- gives, the streams of the subscriptions, and the answer to a publication. `F` stands for `f64`.
use parking_fee_service.Prelude.{
  String, ◌<>◌, ◌==◌, Bool, Option, none, some, List, [], ◌∷◌, ◌++◌, Result, ok, err, if◌then◌else◌,
  Act, ◌>>=◌, pure,
}
use parking_fee_service.Prelude.Signals.{
  TypedValue, bool_value, string_value, double_value, Item, Publication,
}
use parking_fee_service.Prelude.Dict
use parking_fee_service.Prelude.Dict.{Dict}
use parking_fee_service.CloudGatewayClient.Telemetry.{
  SignalUpdate, is_locked_update, latitude_update, longitude_update, parking_active_update,
}

abbrev pub signal_is_locked : String
signal_is_locked = "Vehicle.Cabin.Door.Row1.DriverSide.IsLocked"

abbrev pub signal_latitude : String
signal_latitude = "Vehicle.CurrentLocation.Latitude"

abbrev pub signal_longitude : String
signal_longitude = "Vehicle.CurrentLocation.Longitude"

abbrev pub signal_parking_active : String
signal_parking_active = "Vehicle.Parking.SessionActive"

abbrev pub signal_command : String
signal_command = "Vehicle.Command.Door.Lock"

abbrev pub signal_response : String
signal_response = "Vehicle.Command.Door.Response"

pub data BrokerError : Type 0 where
  connection_failed write_failed subscribe_failed : String → BrokerError

-- `BrokerClient::connect`: one attempt, whose failure is the error.
unfoldable pub connect : {C : Type 0} → Result C String → Result C BrokerError
connect (ok client) = ok client
connect (err e) = err (connection_failed e)

module _ {F : Type 0} (publish : String → TypedValue F → Result (Unit {0}) String) where
  -- `client.publish_value`: `publish` is the broker's answer to a path and a value. What it takes is listed in
  -- the state, oldest first.
  unfoldable pub publish_value :
      String → TypedValue F → Act (List (Publication F)) (Result (Unit {0}) String)
  publish_value path value pubs = (
    publish path value,
    elim (publish path value) [ ok _ ↦ pubs ++ (path, value) ∷ [] | err _ ↦ pubs ],
  )

  -- The `map_err` of `write_command`.
  abbrev pub written : Result (Unit {0}) String → Result (Unit {0}) BrokerError
  written (ok _) = ok tt
  written (err e) = err (write_failed ("write_command: " <> e))

  -- `write_command`
  unfoldable pub write_command : String → Act (List (Publication F)) (Result (Unit {0}) BrokerError)
  unfolding publish_value
  write_command payload = do
    answer ← publish_value signal_command (string_value payload)
    pure (written answer)

abbrev pub string_of : {F : Type 0} → Option (Option (TypedValue F)) → List String
string_of (some (some (string_value s))) = s ∷ []
string_of _ = []

-- The task of `subscribe_responses`: what it forwards while the receiver is open, until the stream
-- ends or fails.
unfoldable pub forward_responses : {F : Type 0} → List (Item F) → List String
forward_responses [] = []
forward_responses (err e ∷ items) = []
forward_responses (ok entries ∷ items) =
    string_of (Dict.lookup signal_response entries) ++ forward_responses items

module _ {F : Type 0} where
  abbrev pub bool_update : (Bool → SignalUpdate F) → TypedValue F → Option (SignalUpdate F)
  bool_update make (bool_value v) = some (make v)
  bool_update make _ = none

  abbrev pub double_update : (F → SignalUpdate F) → TypedValue F → Option (SignalUpdate F)
  double_update make (double_value v) = some (make v)
  double_update make _ = none

  -- The `match` on the path.
  unfoldable pub signal_update : String → TypedValue F → Option (SignalUpdate F)
  signal_update path value =
      if path == signal_is_locked
      then bool_update is_locked_update value
      else if path == signal_latitude
      then double_update latitude_update value
      else if path == signal_longitude
      then double_update longitude_update value
      else if path == signal_parking_active
      then bool_update parking_active_update value
      else none

  abbrev updates_of : String → Option (TypedValue F) → List (SignalUpdate F)
  unfolding signal_update
  updates_of path none = []
  updates_of path (some value) = elim (signal_update path value) [
    | none ↦ []
    | some update ↦ update ∷ []
  ]

  -- The loop over the entries of an item.
  unfoldable pub forward_entries : Dict (Option (TypedValue F)) → List (SignalUpdate F)
  unfolding updates_of
  forward_entries [] = []
  forward_entries ((path, value) ∷ rest) = updates_of path value ++ forward_entries rest

  -- The task of `subscribe_telemetry`, while the receiver is open.
  unfoldable pub forward_telemetry : List (Item F) → List (SignalUpdate F)
  unfolding forward_entries
  forward_telemetry [] = []
  forward_telemetry (err e ∷ items) = []
  forward_telemetry (ok entries ∷ items) = forward_entries entries ++ forward_telemetry items
