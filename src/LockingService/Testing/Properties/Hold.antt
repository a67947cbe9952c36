-- ===== src/LockingService/Testing/Properties/Hold.antt =====
-- The property tests of rhivos/locking-service hold of all inputs.
use parking_fee_service.Prelude.{
  ℕ, ◌≤◌, ◌<◌, ◌≡◌, refl, String, Bool, true, false, Option, some, arith, Result, Result-cases, inl,
  inr, ◌||◌,
}
use parking_fee_service.LockingService.Command.{
  LockCommand, SerdeError, parse_command, validate_command, Action, lock, unlock,
}
use parking_fee_service.LockingService.Response.{CommandResponse}
use parking_fee_service.LockingService.Safety.{Speed, check_safety, check_door, get_float, get_bool}
use parking_fee_service.LockingService.Process.{
  process_command, process_action, process_lock, process_unlock, after_check, ensure, succeed, now,
  set_bool, set_string, set_lock_state,
}
use parking_fee_service.LockingService.Testing.{
  new, with_speed, with_door_open, with_locked, mock_client, mock_get_float, mock_get_bool,
  mock_set_string,
}
use parking_fee_service.LockingService.Testing.Properties.{
  command_validation_completeness, safety_gate_lock, unlock_always_succeeds,
  state_response_consistency, idempotent_operations, response_completeness, make_cmd, is_complete,
  action_eq,
}
use parking_fee_service.LockingService.Command.Validity.{
  validate_command_iff, contains_driver_first,
}
use parking_fee_service.LockingService.Testing.Properties.Replies.{
  says_success, response_holds, as_i64-positive,
}
use parking_fee_service.LockingService.Testing.Properties.Idempotent.{idempotent_holds}

either_action : (action : Action) → (action_eq action lock || action_eq action unlock) ≡ true
either_action lock = refl
either_action unlock = refl

is_complete_lem : (cmd : LockCommand) → is_complete cmd ≡ true
unfolding is_complete
is_complete_lem cmd = elim (Result-cases (validate_command cmd)) [
  | inr (e, refused) ↦ rw (refused, is_complete) refl
  | inl (_, passed) ↦
      let form = (validate_command_iff cmd).0 passed in
      rw
        (
          passed,
          is_complete,
          form.identified,
          either_action cmd.action,
          contains_driver_first cmd.doors form.drivers_only form.some_door,
        )
        refl
]

completeness_holds :
    (decode : String → Result LockCommand SerdeError) (input : String)
    → command_validation_completeness decode input ≡ true
unfolding command_validation_completeness
completeness_holds decode input = elim (Result-cases (parse_command decode input)) [
  | inr (e, refused) ↦ rw (refused, command_validation_completeness) refl
  | inl (cmd, parsed) ↦ rw (parsed, command_validation_completeness) (is_complete_lem cmd)
]

module _ {F : Type 0} (speeds : Speed F) (to_json : CommandResponse → String)
    (from_str : String → Option CommandResponse) (clock : ℕ → ℕ)
    (reads : (r : CommandResponse) → from_str (to_json r) ≡ some r) where
  gate_holds :
      (speed : F) (is_open : Bool)
      → safety_gate_lock speeds to_json from_str clock speed is_open ≡ true
  unfolding safety_gate_lock check_safety check_door get_float get_bool mock_client mock_get_float
      mock_get_bool new with_speed with_door_open
  gate_holds speed is_open = ground arith

  unlock_holds :
      (speed : F) (is_open : Bool)
      → unlock_always_succeeds speeds to_json from_str clock speed is_open ≡ true
  unfolding unlock_always_succeeds process_command process_action process_unlock ensure succeed now
      set_bool set_string set_lock_state make_cmd mock_client mock_set_string new with_speed
      with_door_open with_locked
  unlock_holds speed is_open =
      says_success speeds to_json from_str clock reads (clock 0) "prop-unlock"

  consistency_holds :
      speeds.at_least_one speeds.zero ≡ false
      → (is_lock : Bool) → state_response_consistency speeds to_json from_str clock is_lock ≡ true
  unfolding state_response_consistency process_command process_action process_unlock process_lock
      after_check check_safety check_door get_float get_bool ensure succeed now set_bool set_string
      set_lock_state make_cmd mock_client mock_get_float mock_get_bool mock_set_string new
      with_speed with_door_open
  consistency_holds slow true =
      rw slow
        (rw (says_success speeds to_json from_str clock reads (clock 0) "prop-consistency") refl)
  consistency_holds slow false =
      rw (says_success speeds to_json from_str clock reads (clock 0) "prop-consistency") refl

  -- Where what `serde_json` reads of a response is what was written, zero is below 1.0, and the clock's first reading is
  -- positive and below 2^63: every property test of the crate holds of all its inputs, and not only of those it
  -- draws.
  pub locking_tests_hold :
      speeds.at_least_one speeds.zero ≡ false
      → 1 ≤ clock 0
      → clock 0 < 9223372036854775808
      → (decode : String → Result LockCommand SerdeError) (input : String) (is_lock is_open : Bool)
        (speed : F) (n : ℕ)
      → (command_validation_completeness decode input ≡ true)
        × (safety_gate_lock speeds to_json from_str clock speed is_open ≡ true)
        × (unlock_always_succeeds speeds to_json from_str clock speed is_open ≡ true)
        × (state_response_consistency speeds to_json from_str clock is_lock ≡ true)
        × (idempotent_operations speeds to_json from_str clock is_lock n ≡ true)
        × (response_completeness speeds to_json from_str clock is_lock speed is_open ≡ true)
  locking_tests_hold slow low high decode input is_lock is_open speed n = (
    completeness_holds decode input,
    gate_holds speed is_open,
    unlock_holds speed is_open,
    consistency_holds slow is_lock,
    idempotent_holds speeds to_json from_str clock reads slow is_lock n,
    response_holds speeds to_json from_str clock reads
        (as_i64-positive speeds to_json from_str clock reads (clock 0) low high) is_lock speed
        is_open,
  )
