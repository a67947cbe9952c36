-- ===== src/LockingService/Testing.antt =====
-- rhivos/locking-service/src/testing.rs: the broker that the crate's tests use. What its cells hold
-- is read off the log of requests, latest first: the recorded calls, and whether the failure that a test asked
-- for has happened.
pub mod Properties
pub mod Wire
use parking_fee_service.Prelude.{
  ℕ, String, Bool, true, false, not, ◌&&◌, Option, none, some, List, [], ◌∷◌, ◌++◌, Result, ok, err,
  if◌then◌else◌, ◌==◌,
}
use parking_fee_service.LockingService.Broker.{
  BrokerClient, BrokerError, rpc_error, Request, read_float, read_bool, wrote_bool, wrote_string,
  signal_speed, signal_door_open, signal_is_locked,
}

pub record MockBrokerClient (F : Type 0) : Type 0 where
  pub speed : Option F
  pub door_open : Option Bool
  pub locked : Option Bool
  pub fail_set_string : Bool

-- `MockBrokerClient::new`
unfoldable pub new : (F : Type 0) → MockBrokerClient F
new F = record { speed = none; door_open = none; locked = none; fail_set_string = false }

-- The calls of `set_bool` recorded, oldest first.
unfoldable pub set_bool_calls : List Request → List (String × Bool)
set_bool_calls [] = []
set_bool_calls (wrote_bool signal value _ ∷ log) = set_bool_calls log ++ (signal, value) ∷ []
set_bool_calls (wrote_string _ _ _ ∷ log) = set_bool_calls log
set_bool_calls (read_float _ ∷ log) = set_bool_calls log
set_bool_calls (read_bool _ ∷ log) = set_bool_calls log

-- The calls of `set_string` recorded, oldest first: one that fails is not.
unfoldable pub set_string_calls : List Request → List (String × String)
set_string_calls [] = []
set_string_calls (wrote_string signal value true ∷ log) =
    set_string_calls log ++ (signal, value) ∷ []
set_string_calls (wrote_string _ _ false ∷ log) = set_string_calls log
set_string_calls (wrote_bool _ _ _ ∷ log) = set_string_calls log
set_string_calls (read_float _ ∷ log) = set_string_calls log
set_string_calls (read_bool _ ∷ log) = set_string_calls log

-- A failure has happened already.
unfoldable pub has_failed : List Request → Bool
has_failed [] = false
has_failed (wrote_string _ _ false ∷ log) = true
has_failed (wrote_string _ _ true ∷ log) = has_failed log
has_failed (wrote_bool _ _ _ ∷ log) = has_failed log
has_failed (read_float _ ∷ log) = has_failed log
has_failed (read_bool _ ∷ log) = has_failed log

module _ {F : Type 0} where
  unfoldable pub with_speed : Option F → MockBrokerClient F → MockBrokerClient F
  with_speed speed mock = record mock { speed = speed }

  unfoldable pub with_door_open : Option Bool → MockBrokerClient F → MockBrokerClient F
  with_door_open door_open mock = record mock { door_open = door_open }

  unfoldable pub with_locked : Option Bool → MockBrokerClient F → MockBrokerClient F
  with_locked locked mock = record mock { locked = locked }

  -- `fail_next_set_string`
  unfoldable pub fail_next_set_string : MockBrokerClient F → MockBrokerClient F
  fail_next_set_string mock = record mock { fail_set_string = true }

  unfoldable pub mock_get_float : MockBrokerClient F → String → Result (Option F) BrokerError
  mock_get_float mock signal = if signal == signal_speed then ok mock.speed else ok none

  unfoldable pub mock_get_bool : MockBrokerClient F → String → Result (Option Bool) BrokerError
  mock_get_bool mock signal =
      if signal == signal_door_open
      then ok mock.door_open
      else if signal == signal_is_locked
      then ok mock.locked
      else ok none

  unfoldable pub mock_set_string : MockBrokerClient F → List Request → Result (Unit {0}) BrokerError
  unfolding has_failed
  mock_set_string mock log =
      if mock.fail_set_string && not (has_failed log)
      then err (rpc_error "simulated failure")
      else ok tt

  -- `impl BrokerClient for MockBrokerClient`
  unfoldable pub mock_client : MockBrokerClient F → BrokerClient F
  unfolding mock_get_float mock_get_bool mock_set_string
  mock_client mock = record {
    get_float = λ log signal. mock_get_float mock signal;
    get_bool = λ log signal. mock_get_bool mock signal;
    set_bool = λ log signal value. ok tt;
    set_string = λ log signal value. mock_set_string mock log;
  }
