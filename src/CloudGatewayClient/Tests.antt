-- ===== src/CloudGatewayClient/Tests.antt =====
-- Concrete runs of the cloud gateway client.
use parking_fee_service.Prelude.{
  ℕ, String, ◌≡◌, ◌↔◌, refl, true, none, some, List, [], ◌∷◌, ok, err, ◌==◌, arith, Result, Bool,
  Option, if◌then◌else◌, leb, ◌&&◌,
}
use parking_fee_service.CloudGatewayClient.CommandValidator.{
  validate_bearer_token, Json, CommandPayload, validate_command_payload,
}
use parking_fee_service.Prelude.Dict
use parking_fee_service.Prelude.Retry
use parking_fee_service.CloudGatewayClient.BrokerClient
use parking_fee_service.CloudGatewayClient.CommandValidator.Accepted.{
  IsCommandPayload, validate_command_payload_iff,
}
use parking_fee_service.CloudGatewayClient.Telemetry.{
  SignalUpdate, TelemetryMessage, is_locked_update, latitude_update, publish_all, new,
}
use parking_fee_service.CloudGatewayClient.Telemetry.Shown.{
  IsShown, last_of, render, publish_all_shows,
}
use parking_fee_service.CloudGatewayClient.Relay.{Message, extract_headers, forward_commands}
use parking_fee_service.CloudGatewayClient.Relay.Forwarding.{Forwards, forward_commands-Forwards}
use parking_fee_service.CloudGatewayClient.Config.{from_env}
use parking_fee_service.CloudGatewayClient.Main.{Outside, start}
use parking_fee_service.CloudGatewayClient.Main.Order.{Goes, start-Goes}
use parking_fee_service.CloudGatewayClient.NatsClient.{connect, publish_registration}

-- A JSON whose one value is an object with the fields of a lock command.
abbrev command_field : String → Option String
command_field key =
    if key == "command_id" then some "c-1" else if key == "action" then some "lock" else some ""

abbrev json : Json
json = record {
  Value = String;
  Object = Unit {0};
  Extra = Unit {0};
  from_slice = λ payload. ok "";
  as_object = λ v. some tt;
  get = λ obj key. command_field key;
  as_str = λ v. some v;
  is_array = λ v. v == "";
}

abbrev typed : List ℕ → Result (CommandPayload (Unit {0})) String
typed payload = ok (record { command_id = "c-1"; action = "lock"; doors = []; extra = tt })

abbrev command : CommandPayload (Unit {0})
command = record { command_id = "c-1"; action = "lock"; doors = []; extra = tt }

abbrev decode : List ℕ → Option String
decode payload = some "lock"

abbrev good_message : Message
good_message = record {
  headers = some (("Authorization", "Bearer demo-token" ∷ []) ∷ []);
  payload = 1 ∷ [];
}

abbrev bare_message : Message
bare_message = record { headers = none; payload = 1 ∷ [] }

validate_command_payload_iff_example :
    (validate_command_payload json typed (1 ∷ []) ≡ ok command)
    ↔ IsCommandPayload json typed (1 ∷ []) command
validate_command_payload_iff_example = validate_command_payload_iff json typed (1 ∷ []) command

abbrev messages : List Message
messages = bare_message ∷ good_message ∷ []

forward_commands-Forwards_example :
    Forwards json typed decode "demo-token" messages
      (forward_commands json typed decode "demo-token" messages)
forward_commands-Forwards_example =
    forward_commands-Forwards json typed decode "demo-token" messages

-- Only the message with the token is passed on.
one_forwarded : forward_commands json typed decode "demo-token" messages ≡ "lock" ∷ []
unfolding forward_commands validate_bearer_token Dict.lookup Dict.insert extract_headers
    validate_command_payload
one_forwarded = refl

abbrev nat_eq : ℕ → ℕ → Bool
nat_eq m n = leb m n && leb n m

nat_eq_trans : (u v w : ℕ) → nat_eq u v ≡ true → nat_eq v w ≡ true → nat_eq u w ≡ true
nat_eq_trans u v w h k = ground arith

abbrev vin_of : TelemetryMessage ℕ → String
vin_of m = m.vin

abbrev updates : List (ℕ × SignalUpdate ℕ)
updates = (1, is_locked_update true) ∷ (2, is_locked_update true) ∷ (3, latitude_update 48) ∷ []

publish_all_shows_example :
    (m : Option (TelemetryMessage ℕ)) × (last_of nat_eq none
        (publish_all nat_eq vin_of updates (new ℕ "VIN")).0
      ≡ render nat_eq vin_of m)
    × IsShown nat_eq m (publish_all nat_eq vin_of updates (new ℕ "VIN")).1
publish_all_shows_example = publish_all_shows nat_eq vin_of "VIN" updates nat_eq_trans

-- A vehicle with a VIN, whose broker refuses the second subscription.
abbrev outside : Outside ℕ
outside = record {
  vars = λ name. if name == "VIN" then some "V-1" else none;
  nats_attempts = λ url k. ok tt;
  nats_publish = λ subject payload. ok tt;
  nats_subscribe = λ subject. ok messages;
  broker_dial = λ addr. ok tt;
  broker_subscribe =
      λ paths. elim paths [ [] ↦ ok [] | path ∷ [] ↦ ok [] | path ∷ other ∷ rest ↦ err "refused" ];
  to_json = λ m. m.status;
  secs = 7;
}

start-Goes_example : Goes outside (from_env outside.vars) (start outside [])
start-Goes_example = start-Goes outside

-- It has come as far as the telemetry.
start_stops : (start outside []).0 ≡ err 1
unfolding start from_env connect Retry.connect BrokerClient.connect publish_registration
start_stops = refl
