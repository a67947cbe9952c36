-- ===== src/LockingService/Process/Behaviour.antt =====
-- What a command does to the lock state, and what it answers.
use parking_fee_service.Prelude.{
  ℕ, String, ◌≡◌, refl, Bool, true, false, List, [], ◌∷◌, unwrap_or, arith, if◌then◌else◌,
}
use parking_fee_service.LockingService.Command.{Action, lock, unlock, LockCommand}
use parking_fee_service.LockingService.Broker.{
  Request, read_float, wrote_string, signal_speed, signal_door_open, signal_response,
}
use parking_fee_service.LockingService.Response.{success_response, failure_response}
use parking_fee_service.LockingService.Safety.{
  SafetyResult, safe, vehicle_moving, door_open, Env, World, or_none, check_safety, get_float,
  get_bool,
}
use parking_fee_service.LockingService.Process.{
  set_bool, set_string, now, set_lock_state, process_command, process_action,
}

module _ {F : Type 0} (env : Env F) where
  -- What the broker's answers after `log` say: a speed that is unknown counts as zero, a door that is
  -- unknown as closed, and the speed comes first.
  abbrev pub verdict : List Request → SafetyResult
  verdict log =
      if env.speed.at_least_one
        (unwrap_or (or_none (env.broker.get_float log signal_speed)) env.speed.zero)
      then vehicle_moving
      else if unwrap_or
          (or_none (env.broker.get_bool (read_float signal_speed ∷ log) signal_door_open)) false
      then door_open
      else safe

  abbrev pub state_after : Action → SafetyResult → Bool → Bool
  state_after lock safe before = true
  state_after lock vehicle_moving before = before
  state_after lock door_open before = before
  state_after unlock _ before = false

  abbrev pub answer_to : Action → SafetyResult → ℕ → String → String
  answer_to lock safe secs id = success_response env.to_json secs id
  answer_to lock vehicle_moving secs id = failure_response env.to_json secs id "vehicle_moving"
  answer_to lock door_open secs id = failure_response env.to_json secs id "door_open"
  answer_to unlock _ secs id = success_response env.to_json secs id

  abbrev pub SentTo : List Request → String → Type 0
  SentTo [] response = ⊥
  SentTo (wrote_string signal value _ ∷ log) response =
      (signal ≡ signal_response) × (value ≡ response)
  SentTo (_ ∷ log) response = ⊥

  process_cases :
      (action : Action) (cmd : LockCommand) (w : World)
      → ((process_action env action cmd w).1.lock_state
          ≡ state_after action (verdict w.log) w.lock_state)
        × ((process_action env action cmd w).0
            ≡ answer_to action (verdict w.log) (env.clock w.reads) cmd.command_id)
  unfolding process_action check_safety set_bool now set_lock_state get_float get_bool
  process_cases lock cmd w = ground arith
  process_cases unlock cmd w = ground arith

  -- A lock command locks if the broker's answers are a speed below 1 and a closed door, where a read
  -- that gives no value counts as zero and as closed, and else changes nothing; an unlock command always
  -- unlocks. The response says success in the first and the last case, and else the reason, the speed
  -- before the door, and it is the last thing published.
  pub process_command_lem :
      (cmd : LockCommand) (w : World)
      → let (response, after) = process_command env cmd w in
        (after.lock_state ≡ state_after cmd.action (verdict w.log) w.lock_state)
        × (response ≡ answer_to cmd.action (verdict w.log) (env.clock w.reads) cmd.command_id)
        × SentTo after.log response
  unfolding process_command set_string
  process_command_lem cmd w =
      let (state, answer) = process_cases cmd.action cmd w in (state, answer, (refl, refl))
