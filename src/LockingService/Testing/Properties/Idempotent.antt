-- ===== src/LockingService/Testing/Properties/Idempotent.antt =====
-- Commands of rhivos/locking-service that ask for the state that the lock is in.
use parking_fee_service.Prelude.{
  ℕ, zero, suc, ◌≡◌, refl, String, Bool, true, false, Option, some, leb, length, ◌∙◌,
}
use parking_fee_service.LockingService.Response.{CommandResponse}
use parking_fee_service.LockingService.Safety.{
  Speed, Env, World, check_safety, check_door, get_float, get_bool,
}
use parking_fee_service.LockingService.Process.{
  process_command, process_action, process_lock, process_unlock, after_check, ensure, succeed, now,
  set_bool, set_string, set_lock_state,
}
use parking_fee_service.LockingService.Testing.{
  new, with_speed, with_door_open, mock_client, mock_get_float, mock_get_bool, mock_set_string,
  set_bool_calls,
}
use parking_fee_service.LockingService.Testing.Properties.{
  idempotent_operations, has_status, make_cmd, repeat, action_of, test_env, test_mock, test_world,
}
use parking_fee_service.LockingService.Testing.Properties.Replies.{says_success}

module _ {F : Type 0} (speeds : Speed F) (to_json : CommandResponse → String)
    (from_str : String → Option CommandResponse) (clock : ℕ → ℕ)
    (reads : (r : CommandResponse) → from_str (to_json r) ≡ some r) where
  -- A command that asks for the state that the lock is in: it succeeds and writes no state.
  record IsSettled (is_lock : Bool) (w : World) (response : String) (after : World) : Type 0 where
    succeeds : has_status speeds to_json from_str clock "success" response ≡ true
    stays : after.lock_state ≡ is_lock
    quiet : set_bool_calls after.log ≡ set_bool_calls w.log

  abbrev quiet_env : Env F
  quiet_env = test_env speeds to_json from_str clock (test_mock speeds.zero false)

  process-IsSettled :
      speeds.at_least_one speeds.zero ≡ false
      → (is_lock : Bool) (w : World) → w.lock_state ≡ is_lock
      → let (response, after) =
          process_command quiet_env (make_cmd (action_of is_lock) "prop-idempotent") w in
        IsSettled is_lock w response after
  unfolding process_command process_action process_unlock process_lock after_check check_safety
      check_door get_float get_bool ensure succeed now set_bool set_string set_lock_state make_cmd
      mock_client mock_get_float mock_get_bool mock_set_string new with_speed with_door_open
      set_bool_calls
  process-IsSettled slow true w there =
      rw (slow, there)
        (record {
          succeeds =
              says_success speeds to_json from_str clock reads (clock w.reads) "prop-idempotent";
          stays = refl;
          quiet = refl;
        })
  process-IsSettled slow false w there = rw there (record {
    succeeds = says_success speeds to_json from_str clock reads (clock w.reads) "prop-idempotent";
    stays = refl;
    quiet = refl;
  })

  repeat_settled :
      speeds.at_least_one speeds.zero ≡ false
      → (is_lock : Bool) (n : ℕ) (w : World) → w.lock_state ≡ is_lock
      → let (all_succeed, after) =
          repeat speeds to_json from_str clock quiet_env
            (make_cmd (action_of is_lock) "prop-idempotent")
            n
            w in
        (all_succeed ≡ true) × (set_bool_calls after.log ≡ set_bool_calls w.log)
  unfolding repeat
  repeat_settled slow is_lock zero w there = (refl, refl)
  repeat_settled slow is_lock (suc n) w there =
      let once = process-IsSettled slow is_lock w there in
      let w' = (process_command quiet_env (make_cmd (action_of is_lock) "prop-idempotent") w).1 in
      let (succeed, quiet) = repeat_settled slow is_lock n w' once.stays in
      (rw (once.succeeds, succeed) refl, quiet ∙ once.quiet)

  -- The first command of a test, from an unlocked car.
  first_step :
      speeds.at_least_one speeds.zero ≡ false
      → (is_lock : Bool)
      → let (response, after) =
          process_command quiet_env
            (make_cmd (action_of is_lock) "prop-idempotent")
            (test_world false) in
        (has_status speeds to_json from_str clock "success" response ≡ true)
        × (after.lock_state ≡ is_lock)
        × (leb (length (set_bool_calls after.log)) 1 ≡ true)
  unfolding process_command process_action process_unlock process_lock after_check check_safety
      check_door get_float get_bool ensure succeed now set_bool set_string set_lock_state make_cmd
      mock_client mock_get_float mock_get_bool mock_set_string new with_speed with_door_open
      set_bool_calls
  first_step slow true =
      rw slow
        (says_success speeds to_json from_str clock reads (clock 0) "prop-idempotent", refl, refl)
  first_step slow false =
      (says_success speeds to_json from_str clock reads (clock 0) "prop-idempotent", refl, refl)

  pub idempotent_holds :
      speeds.at_least_one speeds.zero ≡ false
      → (is_lock : Bool) (n : ℕ)
      → idempotent_operations speeds to_json from_str clock is_lock n ≡ true
  unfolding idempotent_operations repeat set_bool_calls
  idempotent_holds slow is_lock zero = refl
  idempotent_holds slow is_lock (suc n) =
      let (first, there, few) = first_step slow is_lock in
      let w' =
        (process_command quiet_env (make_cmd (action_of is_lock) "prop-idempotent")
          (test_world false)).1 in
      let (succeed, quiet) = repeat_settled slow is_lock n w' there in
      rw (first, succeed, quiet) few
