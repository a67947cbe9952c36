-- ===== src/LockingService/Safety.antt =====
-- rhivos/locking-service/src/safety.rs, over the state that the commands are processed in. `f32` is a
-- parameter: its zero and the test for 1.0 or more.
use parking_fee_service.Prelude.{
  ℕ, String, Bool, false, Option, none, List, ◌∷◌, Result, ok, err, Act, ◌>>=◌, pure, unwrap_or,
  if◌then◌else◌,
}
use parking_fee_service.LockingService.Broker.{
  BrokerError, BrokerClient, Request, read_float, read_bool, signal_speed, signal_door_open,
}
use parking_fee_service.LockingService.Response.{CommandResponse}

pub data SafetyResult : Type 0 where
  safe vehicle_moving door_open : SafetyResult

pub record Speed (F : Type 0) : Type 0 where
  pub zero : F
  pub at_least_one : F → Bool

-- What the service meets: the broker, the floats, the JSON library and the k-th reading of the clock.
pub record Env (F : Type 0) : Type 0 where
  pub broker : BrokerClient F
  pub speed : Speed F
  pub to_json : CommandResponse → String
  pub clock : ℕ → ℕ

-- The lock state that the service keeps, the requests to the broker, and the clock readings taken.
pub record World : Type 0 where
  pub lock_state : Bool
  pub log : List Request
  pub reads : ℕ

-- `unwrap_or(None)`
abbrev pub or_none : {A : Type 0} → Result (Option A) BrokerError → Option A
or_none (ok o) = o
or_none (err _) = none

module _ {F : Type 0} (env : Env F) where
  unfoldable pub get_float : String → Act World (Result (Option F) BrokerError)
  get_float signal w =
      (env.broker.get_float w.log signal, record w { log = read_float signal ∷ w.log })

  unfoldable pub get_bool : String → Act World (Result (Option Bool) BrokerError)
  get_bool signal w =
      (env.broker.get_bool w.log signal, record w { log = read_bool signal ∷ w.log })

  -- The door's part of `check_safety`.
  unfoldable pub check_door : Act World SafetyResult
  unfolding get_bool
  check_door = do
    answer ← get_bool signal_door_open
    pure (if unwrap_or (or_none answer) false then door_open else safe)

  -- `check_safety`
  unfoldable pub check_safety : Act World SafetyResult
  unfolding check_door get_float
  check_safety = do
    answer ← get_float signal_speed
    (if env.speed.at_least_one (unwrap_or (or_none answer) env.speed.zero)
        then pure vehicle_moving
        else check_door)
