-- ===== src/ParkingOperatorAdaptor/Testing.antt =====
-- rhivos/parking-operator-adaptor/src/testing.rs: the operator and the broker that the crate's tests use.
-- What their cells hold is read off the log of requests, latest first: a response that is configured is taken
-- by the first call, and a failure by the first publication. `start_calls` is not modelled: the log does not keep
-- the arguments of a start.
pub mod Properties
use parking_fee_service.Prelude.{
  ℕ, zero, suc, String, Bool, true, false, not, ◌&&◌, Option, none, some, List, [], ◌∷◌, ◌++◌,
  Result, ok, err, if◌then◌else◌, length,
}
use parking_fee_service.ParkingOperatorAdaptor.Operator.{
  StartResponse, StopResponse, OperatorError, request_failed,
}
use parking_fee_service.ParkingOperatorAdaptor.EventLoop.{
  Request, started, start_failed, stopped, stop_failed, published, OperatorOps, BrokerOps,
}

pub record MockOperatorClient (F : Type 0) : Type 0 where
  pub start_response : Option (Result (StartResponse F) OperatorError)
  pub stop_response : Option (Result (StopResponse F) OperatorError)

pub record MockBrokerClient : Type 0 where
  pub fails_set_bool : Bool

-- The calls of `start_session` recorded.
unfoldable pub start_call_count : List Request → ℕ
start_call_count [] = 0
start_call_count (started _ ∷ log) = suc (start_call_count log)
start_call_count (start_failed ∷ log) = suc (start_call_count log)
start_call_count (stopped _ ∷ log) = start_call_count log
start_call_count (stop_failed _ ∷ log) = start_call_count log
start_call_count (published _ _ ∷ log) = start_call_count log

-- The calls of `stop_session` recorded, oldest first.
unfoldable pub stop_calls : List Request → List String
stop_calls [] = []
stop_calls (stopped id ∷ log) = stop_calls log ++ id ∷ []
stop_calls (stop_failed id ∷ log) = stop_calls log ++ id ∷ []
stop_calls (started _ ∷ log) = stop_calls log
stop_calls (start_failed ∷ log) = stop_calls log
stop_calls (published _ _ ∷ log) = stop_calls log

unfoldable pub stop_call_count : List Request → ℕ
unfolding stop_calls
stop_call_count log = length (stop_calls log)

-- All that was published, oldest first.
unfoldable pub publications : List Request → List (String × Bool)
publications [] = []
publications (published signal value ∷ log) = publications log ++ (signal, value) ∷ []
publications (started _ ∷ log) = publications log
publications (start_failed ∷ log) = publications log
publications (stopped _ ∷ log) = publications log
publications (stop_failed _ ∷ log) = publications log

abbrev last : {A : Type 0} → List A → Option A
last [] = none
last (x ∷ []) = some x
last (x ∷ y ∷ xs) = last (y ∷ xs)

abbrev tail : {A : Type 0} → List A → List A
tail [] = []
tail (x ∷ xs) = xs

-- `MockBrokerClient::new`, with or without `fail_set_bool`
unfoldable pub new_broker : MockBrokerClient
new_broker = record { fails_set_bool = false }

unfoldable pub fail_set_bool : MockBrokerClient → MockBrokerClient
fail_set_bool mock = record mock { fails_set_bool = true }

-- The calls of `set_bool` recorded: one that fails is not.
unfoldable pub set_bool_calls : MockBrokerClient → List Request → List (String × Bool)
unfolding publications
set_bool_calls mock log = if mock.fails_set_bool then tail (publications log) else publications log

unfoldable pub last_set_bool : MockBrokerClient → List Request → Option (String × Bool)
unfolding set_bool_calls
last_set_bool mock log = last (set_bool_calls mock log)

abbrev is_none : {A : Type 0} → List A → Bool
is_none [] = true
is_none (x ∷ xs) = false

-- `impl BrokerOps for MockBrokerClient`
unfoldable pub mock_broker : MockBrokerClient → BrokerOps
unfolding publications
mock_broker mock = record {
  set_bool = λ log signal value.
      if mock.fails_set_bool && is_none (publications log)
      then err "simulated broker failure"
      else ok tt;
}

-- `take().unwrap_or(Err(…))`, where the cell is empty after the first call.
abbrev taken : {A : Type 0} → Option (Result A OperatorError) → ℕ → Result A OperatorError
taken (some answer) zero = answer
taken _ _ = err (request_failed "no mock response configured")

module _ {F : Type 0} where
  -- `MockOperatorClient::new`
  unfoldable pub new_operator : MockOperatorClient F
  new_operator = record { start_response = none; stop_response = none }

  unfoldable pub on_start_return :
      Result (StartResponse F) OperatorError → MockOperatorClient F → MockOperatorClient F
  on_start_return resp mock = record mock { start_response = some resp }

  unfoldable pub on_start_success :
      String → String → F → String → MockOperatorClient F → MockOperatorClient F
  unfolding on_start_return
  on_start_success session_id rate_type amount currency = on_start_return (
      ok (record {
        session_id = session_id;
        status = "active";
        rate = record { rate_type = rate_type; amount = amount; currency = currency };
      }))

  unfoldable pub on_stop_return :
      Result (StopResponse F) OperatorError → MockOperatorClient F → MockOperatorClient F
  on_stop_return resp mock = record mock { stop_response = some resp }

  unfoldable pub on_stop_success :
      String → ℕ → F → String → MockOperatorClient F → MockOperatorClient F
  unfolding on_stop_return
  on_stop_success session_id duration_seconds total_amount currency = on_stop_return (
      ok (record {
        session_id = session_id;
        status = "completed";
        duration_seconds = duration_seconds;
        total_amount = total_amount;
        currency = currency;
      }))

  -- `impl OperatorOps for MockOperatorClient`
  unfoldable pub mock_operator : MockOperatorClient F → OperatorOps F
  unfolding start_call_count stop_call_count
  mock_operator mock = record {
    start_session = λ log vehicle_id zone_id. taken mock.start_response (start_call_count log);
    stop_session = λ log session_id. taken mock.stop_response (stop_call_count log);
  }
