-- ===== src/LockingService/Process.antt =====
-- rhivos/locking-service/src/process.rs: the commands.
pub mod Behaviour
pub mod Lost
use parking_fee_service.Prelude.{
  is_ok, ℕ, suc, String, Bool, true, false, List, ◌∷◌, Result, ok, err, Act, ◌>>=◌, ◌>>◌, pure,
  if◌then◌else◌,
}
use parking_fee_service.LockingService.Command.{Action, lock, unlock, LockCommand}
use parking_fee_service.LockingService.Broker.{
  BrokerError, Request, wrote_bool, wrote_string, signal_is_locked, signal_response,
}
use parking_fee_service.LockingService.Response.{success_response, failure_response}
use parking_fee_service.LockingService.Safety.{
  SafetyResult, safe, vehicle_moving, door_open, Env, World, check_safety,
}

module _ {F : Type 0} (env : Env F) where
  -- A write; its outcome is logged, and nothing else depends on it.
  unfoldable pub set_bool : String → Bool → Act World (Result (Unit {0}) BrokerError)
  set_bool signal value w =
      let answer = env.broker.set_bool w.log signal value in
      (answer, record w { log = wrote_bool signal value (is_ok answer) ∷ w.log })

  unfoldable pub set_string : String → String → Act World (Result (Unit {0}) BrokerError)
  set_string signal value w =
      let answer = env.broker.set_string w.log signal value in
      (answer, record w { log = wrote_string signal value (is_ok answer) ∷ w.log })

  unfoldable pub now : Act World ℕ
  now w = (env.clock w.reads, record w { reads = suc w.reads })

  -- `*lock_state = value`
  unfoldable pub set_lock_state : Bool → Act World (Unit {0})
  set_lock_state value w = (tt, record w { lock_state = value })

  unfoldable pub succeed : String → Act World String
  succeed command_id = do secs ← now; pure (success_response env.to_json secs command_id)

  unfoldable pub fail : String → String → Act World String
  fail command_id reason = do secs ← now; pure (failure_response env.to_json secs command_id reason)

  -- The change of the lock, if it is not as wanted already.
  unfoldable pub ensure : Bool → Act World (Unit {0})
  unfolding set_bool set_lock_state
  ensure true w =
      if w.lock_state then (tt, w) else (do set_bool signal_is_locked true; set_lock_state true) w
  ensure false w =
      if w.lock_state then (do set_bool signal_is_locked false; set_lock_state false) w else (tt, w)

  -- The `match` of `process_lock`.
  unfoldable pub after_check : LockCommand → SafetyResult → Act World String
  unfolding ensure succeed fail
  after_check cmd vehicle_moving = fail cmd.command_id "vehicle_moving"
  after_check cmd door_open = fail cmd.command_id "door_open"
  after_check cmd safe = do ensure true; succeed cmd.command_id

  -- `process_lock`
  unfoldable pub process_lock : LockCommand → Act World String
  unfolding after_check
  process_lock cmd = do result ← check_safety env; after_check cmd result

  -- `process_unlock`
  unfoldable pub process_unlock : LockCommand → Act World String
  unfolding ensure succeed
  process_unlock cmd = do ensure false; succeed cmd.command_id

  -- The `match` on the action.
  unfoldable pub process_action : Action → LockCommand → Act World String
  unfolding process_lock process_unlock
  process_action lock cmd = process_lock cmd
  process_action unlock cmd = process_unlock cmd

  -- `process_command`
  unfoldable pub process_command : LockCommand → Act World String
  unfolding process_action set_string
  process_command cmd = do
    response ← process_action cmd.action cmd
    set_string signal_response response
    pure response
