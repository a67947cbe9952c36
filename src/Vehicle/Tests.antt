-- ===== src/Vehicle/Tests.antt =====
-- The services together on concrete input: a lock command locks the door and starts a session.
use parking_fee_service.Prelude.{
  ℕ, ◌≡◌, refl, String, true, false, none, some, List, [], ◌∷◌, ok, leb, arith, if◌then◌else◌, ◌==◌,
  eq_refl, merge, Result, Option,
}
use parking_fee_service.Prelude.Dict
use parking_fee_service.Prelude.Signals.{TypedValue, Item, Publication, Delivers, values, published}
use parking_fee_service.LockingService.Command.{LockCommand, lock, parse_command, validate_command}
use parking_fee_service.LockingService.Broker
use parking_fee_service.LockingService.Safety
use parking_fee_service.LockingService.Process
use parking_fee_service.LockingService.Service
use parking_fee_service.LockingService.Service.{Json, Event, payload, running}
use parking_fee_service.LockingService.Service.Writes.{publications}
use parking_fee_service.ParkingOperatorAdaptor.Operator.{StartResponse, StopResponse}
use parking_fee_service.ParkingOperatorAdaptor.Session
use parking_fee_service.ParkingOperatorAdaptor.EventLoop
use parking_fee_service.ParkingOperatorAdaptor.EventLoop.{
  Env, World, Reply, no_reply, signal_is_locked,
}
use parking_fee_service.ParkingOperatorAdaptor.EventLoop.Protocol.{Accepts, shown}
use parking_fee_service.ParkingOperatorAdaptor.Config.{load_config}
use parking_fee_service.ParkingOperatorAdaptor.Broker.{connect, subscribe_bool}
use parking_fee_service.Prelude.Retry
use parking_fee_service.ParkingOperatorAdaptor.Main.{Outside, run}
use parking_fee_service.CloudGatewayClient.BrokerClient.{forward_responses, signal_response}
use parking_fee_service.CloudGatewayClient.CommandValidator
use parking_fee_service.CloudGatewayClient.CommandValidator.{
  CommandPayload, validate_bearer_token, validate_command_payload,
}
use parking_fee_service.CloudGatewayClient.Relay.{
  Message, extract_headers, forward_commands, command_loop,
}
use parking_fee_service.MockSensors
use parking_fee_service.LockingService.Broker.{grpc_client}
use parking_fee_service.LockingService.Safety.{check_safety}
use parking_fee_service.Vehicle.Sensors.{sensed, sensors_decide}
use parking_fee_service.Vehicle.Session.{session_follows_lock}
use parking_fee_service.Vehicle.Commands.{taken, responses, commands_responses_arrive}

-- A broker that sends each publication of the path as an item of its own.
abbrev deliver : List (Publication ℕ) → String → List (Item ℕ)
deliver [] path = []
deliver ((p, v) ∷ pubs) path =
    let rest = deliver pubs path in if p == path then ok ((path, some v) ∷ []) ∷ rest else rest

delivers_at :
    (pubs : List (Publication ℕ)) (path : String)
    → values path (deliver pubs path) ≡ published path pubs
unfolding Dict.lookup
delivers_at [] path = refl
delivers_at ((p, v) ∷ pubs) path = ground (arith, delivers_at pubs path, eq_refl path)

deliver-Delivers : Delivers deliver
deliver-Delivers = record { at = delivers_at }

-- A standing vehicle whose door is closed.
abbrev locking : Safety.Env ℕ
locking = record {
  broker = record {
    get_float = λ log signal. ok (some 0);
    get_bool = λ log signal. ok (some false);
    set_bool = λ log signal value. ok tt;
    set_string = λ log signal value. ok tt;
  };
  speed = record { zero = 0; at_least_one = λ v. leb 1 v };
  to_json = λ response. response.status;
  clock = λ k. k;
}

abbrev lock_command : LockCommand
lock_command = record {
  command_id = "c-1";
  action = lock;
  doors = "driver" ∷ [];
  source = none;
  vin = none;
  timestamp = none;
}

abbrev json : Json
json = record {
  Value = Unit {0};
  from_str = λ text. ok lock_command;
  value_of = λ text. none;
  get = λ v key. none;
  as_str = λ v. none;
}

abbrev unlocked : Safety.World
unlocked = record { lock_state = false; log = []; reads = 0 }

abbrev events : List Event
events = payload "lock" ∷ []

abbrev locked : Safety.World
locked = (Service.run json locking (ok tt) (ok tt) events unlocked).1

abbrev started_session : StartResponse ℕ
started_session = record {
  session_id = "s-1";
  status = "active";
  rate = record { rate_type = "per_hour"; amount = 2; currency = "EUR" };
}

abbrev stopped_session : StopResponse ℕ
stopped_session = record {
  session_id = "s-1";
  status = "completed";
  duration_seconds = 60;
  total_amount = 2;
  currency = "EUR";
}

-- An operator that accepts all requests.
abbrev env : Env ℕ
env = record {
  operator = record {
    start_session = λ log vehicle_id zone_id. ok started_session;
    stop_session = λ log session_id. ok stopped_session;
  };
  broker = record { set_bool = λ log signal value. ok tt };
  clock = λ k. some k;
}

env-Accepts : Accepts env
env-Accepts = record {
  starts = λ log vehicle_id zone_id. (started_session, refl);
  stops = λ log session_id. (stopped_session, refl);
}

abbrev outside : Outside ℕ
outside = record {
  vars = λ name. none;
  attempts = λ addr k. ok tt;
  subscribe = λ log path. ok (deliver (publications locked.log) path);
  services = λ config. env;
}

abbrev fresh : World ℕ
fresh = record { session = record { state = none }; log = []; reads = 0 }

session_follows_lock_example :
    (Session.is_active (run outside [] [] fresh).1.session ≡ locked.lock_state)
    × (shown (run outside [] [] fresh).1.log ≡ some locked.lock_state)
unfolding run Service.run Process.set_bool Service.handle_command_payload parse_command
    validate_command Process.process_command Safety.check_safety Process.now load_config connect
    Retry.connect subscribe_bool EventLoop.run_event_loop Dict.lookup
session_follows_lock_example =
    session_follows_lock json locking (ok tt) events unlocked (running 0) deliver
      (publications locked.log) outside [] fresh (no_reply ∷ no_reply ∷ []) refl refl
      (refl, (refl, tt)) deliver-Delivers refl (λ log. refl) (λ config. env-Accepts) refl refl

-- A gateway whose JSON is an object with the fields of a lock command.
abbrev command_field : String → Option String
command_field key =
    if key == "command_id" then some "c-1" else if key == "action" then some "lock" else some ""

abbrev gateway : CommandValidator.Json
gateway = record {
  Value = String;
  Object = Unit {0};
  Extra = Unit {0};
  from_slice = λ bytes. ok "";
  as_object = λ v. some tt;
  get = λ obj key. command_field key;
  as_str = λ v. some v;
  is_array = λ v. v == "";
}

abbrev typed : List ℕ → Result (CommandPayload (Unit {0})) String
typed bytes = ok (record { command_id = "c-1"; action = "lock"; doors = "driver" ∷ []; extra = tt })

abbrev decode : List ℕ → Option String
decode bytes = some "lock"

abbrev message : Message
message = record {
  headers = some (("Authorization", "Bearer demo-token" ∷ []) ∷ []);
  payload = 1 ∷ [];
}

abbrev bare : Message
bare = record { headers = none; payload = 1 ∷ [] }

abbrev publish : String → TypedValue ℕ → Result (Unit {0}) String
publish path value = ok tt

abbrev messages : List Message
messages = message ∷ bare ∷ message ∷ []

-- Two of three messages are commands; the responses are of the run above.
commands_responses_arrive_example :
    let pubs =
      merge
        (true ∷ false ∷ [])
        (command_loop gateway typed decode "demo-token" publish messages []).1
        (publications locked.log) in
    (Broker.forward_strings Broker.signal_command (deliver pubs Broker.signal_command)
      ≡ taken publish (forward_commands gateway typed decode "demo-token" messages))
    × (forward_responses (deliver pubs signal_response) ≡ responses locked.log)
commands_responses_arrive_example =
    commands_responses_arrive publish gateway typed decode "demo-token" messages json locking
      (ok tt) (ok tt) events unlocked (true ∷ false ∷ []) deliver refl deliver-Delivers

-- They are taken.
two_taken :
    taken publish (forward_commands gateway typed decode "demo-token" messages)
    ≡ "lock" ∷ "lock" ∷ []
unfolding forward_commands validate_bearer_token Dict.lookup Dict.insert extract_headers
    validate_command_payload
two_taken = refl

abbrev tools : MockSensors.ValClient ℕ
tools = record { connect = λ addr. ok tt; publish_value = λ path value. ok tt }

-- A broker that answers with what the tools have published.
abbrev holding : Broker.ValClient ℕ
holding = record {
  get_value = λ log path. ok (Dict.lookup path (sensed tools "http://b" 0 true));
  publish_value = λ log path value. ok tt;
}

-- The vehicle stands, and its door is open.
sensors_decide_example :
    (check_safety
      (record {
        broker = grpc_client (λ f. f) holding;
        speed = locking.speed;
        to_json = locking.to_json;
        clock = locking.clock;
      })
      unlocked).0
    ≡ Safety.door_open
sensors_decide_example =
    sensors_decide tools "http://b" 0 true (λ f. f) holding locking.speed locking.to_json
      locking.clock unlocked refl (λ path value. refl) (λ log path. refl)
