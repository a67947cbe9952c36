-- ===== src/LockingService/Testing/Properties.antt =====
-- rhivos/locking-service/src/proptest_cases.rs: each property test as a Boolean test of its inputs.
-- What `serde_json` makes of a response is the parameter `from_str`, the response that the text is of, if any.
pub mod Hold
mod Replies
mod Idempotent
use parking_fee_service.Prelude.{
  ℕ, zero, suc, String, Bool, true, false, not, ◌&&◌, ◌||◌, Option, none, some, List, [], ◌∷◌,
  Result, ok, err, if◌then◌else◌, ◌==◌, leb, nat_eq, length,
}
use parking_fee_service.Prelude.Number.{ℤ, pos, negsuc}
use parking_fee_service.Prelude.Text.{is_empty}
use parking_fee_service.LockingService.Broker.{Request}
use parking_fee_service.LockingService.Command.{
  Action, lock, unlock, LockCommand, SerdeError, parse_command, validate_command, contains_driver,
}
use parking_fee_service.LockingService.Response.{CommandResponse}
use parking_fee_service.LockingService.Safety.{
  SafetyResult, safe, vehicle_moving, door_open, Speed, Env, World, check_safety,
}
use parking_fee_service.LockingService.Process.{process_command}
use parking_fee_service.LockingService.Testing.{
  MockBrokerClient, new, with_speed, with_door_open, with_locked, mock_client, set_bool_calls,
  set_string_calls,
}

-- `make_cmd`
unfoldable pub make_cmd : Action → String → LockCommand
make_cmd action command_id = record {
  command_id = command_id;
  action = action;
  doors = "driver" ∷ [];
  source = none;
  vin = none;
  timestamp = none;
}

abbrev pub result_eq : SafetyResult → SafetyResult → Bool
result_eq safe safe = true
result_eq vehicle_moving vehicle_moving = true
result_eq door_open door_open = true
result_eq _ _ = false

abbrev pub action_eq : Action → Action → Bool
action_eq lock lock = true
action_eq unlock unlock = true
action_eq _ _ = false

-- `if action_is_lock { Action::Lock } else { Action::Unlock }`
abbrev pub action_of : Bool → Action
action_of true = lock
action_of false = unlock

abbrev pub is_positive : ℤ → Bool
is_positive (pos zero) = false
is_positive (pos (suc n)) = true
is_positive (negsuc n) = false

-- The inner `match` of `proptest_command_validation_completeness`.
unfoldable pub is_complete : LockCommand → Bool
unfolding validate_command contains_driver
is_complete cmd = elim (validate_command cmd) [
  | err _ ↦ true
  | ok _ ↦
      not (is_empty cmd.command_id)
      && (action_eq cmd.action lock || action_eq cmd.action unlock)
      && contains_driver cmd.doors
]

-- `proptest_command_validation_completeness`
unfoldable pub command_validation_completeness :
    (String → Result LockCommand SerdeError) → String → Bool
unfolding parse_command is_complete
command_validation_completeness decode input = elim (parse_command decode input) [
  | err _ ↦ true
  | ok cmd ↦ is_complete cmd
]

-- `let mut lock_state = …` at the start of a test.
abbrev pub test_world : Bool → World
test_world lock_state = record { lock_state = lock_state; log = []; reads = 0 }

-- `MockBrokerClient::new().with_speed(…).with_door_open(…)`
abbrev pub test_mock : {F : Type 0} → F → Bool → MockBrokerClient F
test_mock {F = F} speed is_open = with_door_open (some is_open) (with_speed (some speed) (new F))

module _ {F : Type 0} (speeds : Speed F) (to_json : CommandResponse → String)
    (from_str : String → Option CommandResponse) (clock : ℕ → ℕ) where
  -- The environment of a test with its mock.
  abbrev pub test_env : MockBrokerClient F → Env F
  test_env mock = record {
    broker = mock_client mock;
    speed = speeds;
    to_json = to_json;
    clock = clock;
  }

  -- `parsed["status"].as_str().unwrap() == status`; a panic fails the test.
  unfoldable pub has_status : String → String → Bool
  has_status status response = elim (from_str response) [
    | none ↦ false
    | some r ↦ r.status == status
  ]

  -- `proptest_safety_gate_lock`
  unfoldable pub safety_gate_lock : F → Bool → Bool
  unfolding check_safety mock_client new with_speed with_door_open
  safety_gate_lock speed is_open =
      let result = (check_safety (test_env (test_mock speed is_open)) (test_world false)).0 in
      if speeds.at_least_one speed
      then result_eq result vehicle_moving
      else if is_open
      then result_eq result door_open
      else result_eq result safe

  -- `proptest_unlock_always_succeeds`
  unfoldable pub unlock_always_succeeds : F → Bool → Bool
  unfolding process_command mock_client new with_speed with_door_open with_locked make_cmd
      has_status
  unlock_always_succeeds speed is_open =
      let mock = with_locked (some true) (test_mock speed is_open) in
      has_status "success"
        (process_command (test_env mock) (make_cmd unlock "prop-unlock") (test_world true)).0

  -- `proptest_state_response_consistency`
  unfoldable pub state_response_consistency : Bool → Bool
  unfolding process_command mock_client new with_speed with_door_open make_cmd has_status
  state_response_consistency action_is_lock =
      let (response, after) =
        process_command (test_env (test_mock speeds.zero false))
          (make_cmd (action_of action_is_lock) "prop-consistency") (test_world false) in
      has_status "success" response
      && (if action_is_lock then after.lock_state else not after.lock_state)

  -- The loop of `proptest_idempotent_operations`: every response says success, and the world at the end.
  unfoldable pub repeat : Env F → LockCommand → ℕ → World → Bool × World
  unfolding process_command has_status
  repeat env cmd zero w = (true, w)
  repeat env cmd (suc n) w =
      let (response, w') = process_command env cmd w in
      let (rest, after) = repeat env cmd n w' in (has_status "success" response && rest, after)

  -- `proptest_idempotent_operations`
  unfoldable pub idempotent_operations : Bool → ℕ → Bool
  unfolding repeat mock_client new with_speed with_door_open make_cmd set_bool_calls
  idempotent_operations action_is_lock n =
      let (all_succeed, after) =
        repeat (test_env (test_mock speeds.zero false))
          (make_cmd (action_of action_is_lock) "prop-idempotent") n (test_world false) in
      all_succeed && leb (length (set_bool_calls after.log)) 1

  -- The assertions of `proptest_response_completeness`, on the response and the requests made.
  unfoldable pub is_full_reply : String → List Request → Bool
  unfolding set_string_calls
  is_full_reply response log = elim (from_str response) [
    | none ↦ false
    | some r ↦
        r.command_id == "prop-completeness"
        && (r.status == "success" || r.status == "failed")
        && is_positive r.timestamp
        && nat_eq (length (set_string_calls log)) 1
  ]

  -- `proptest_response_completeness`
  unfoldable pub response_completeness : Bool → F → Bool → Bool
  unfolding process_command mock_client new with_speed with_door_open make_cmd is_full_reply
  response_completeness action_is_lock speed is_open =
      let (response, after) =
        process_command (test_env (test_mock speed is_open))
          (make_cmd (action_of action_is_lock) "prop-completeness") (test_world false) in
      is_full_reply response after.log
