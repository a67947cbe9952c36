-- ===== src/LockingService/Testing/Properties/Replies.antt =====
-- What the replies of rhivos/locking-service say in its property tests.
use parking_fee_service.Prelude.{
  ℕ, ◌≤◌, ◌<◌, ◌≡◌, refl, String, Bool, true, false, Option, none, some, arith, Bool-cases, inl,
  inr, length, ◌==◌, ◌||◌, List,
}
use parking_fee_service.Prelude.Number.{as_i64}
use parking_fee_service.LockingService.Broker.{Request}
use parking_fee_service.LockingService.Response.{
  CommandResponse, success_response, failure_response,
}
use parking_fee_service.LockingService.Safety.{Speed, check_safety, check_door, get_float, get_bool}
use parking_fee_service.LockingService.Process.{
  process_command, process_action, process_lock, process_unlock, after_check, ensure, succeed, fail,
  now, set_bool, set_string, set_lock_state,
}
use parking_fee_service.LockingService.Testing.{
  new, with_speed, with_door_open, mock_client, mock_get_float, mock_get_bool, mock_set_string,
  set_string_calls,
}
use parking_fee_service.LockingService.Testing.Properties.{
  response_completeness, has_status, make_cmd, action_of, is_positive, test_env, test_mock,
  is_full_reply, test_world,
}

module _ {F : Type 0} (speeds : Speed F) (to_json : CommandResponse → String)
    (from_str : String → Option CommandResponse) (clock : ℕ → ℕ)
    (reads : (r : CommandResponse) → from_str (to_json r) ≡ some r) where
  has_status-to_json :
      (status : String) (r : CommandResponse)
      → has_status speeds to_json from_str clock status (to_json r) ≡ (r.status == status)
  unfolding has_status
  has_status-to_json status r = rw (reads r, has_status) refl

  -- A success response says success.
  pub says_success :
      (secs : ℕ) (id : String)
      → has_status speeds to_json from_str clock "success" (success_response to_json secs id) ≡ true
  unfolding success_response
  says_success secs id =
      has_status-to_json "success"
        (record { command_id = id; status = "success"; reason = none; timestamp = as_i64 secs })

  -- A positive reading of the clock that a signed integer holds.
  pub as_i64-positive : (n : ℕ) → 1 ≤ n → n < 9223372036854775808 → is_positive (as_i64 n) ≡ true
  unfolding as_i64
  as_i64-positive n low high = ground arith

  is_full_reply_of :
      (response : String) (log : List Request) (r : CommandResponse)
      → response ≡ to_json r
      → (r.command_id == "prop-completeness") ≡ true
      → (r.status == "success" || r.status == "failed") ≡ true
      → is_positive r.timestamp ≡ true
      → length (set_string_calls log) ≡ 1
      → is_full_reply speeds to_json from_str clock response log ≡ true
  unfolding is_full_reply
  is_full_reply_of response log r rendered id status time calls =
      rw (rendered, reads r, is_full_reply, id, status, time, calls) refl

  pub response_holds :
      is_positive (as_i64 (clock 0)) ≡ true
      → (is_lock : Bool) (speed : F) (is_open : Bool)
      → response_completeness speeds to_json from_str clock is_lock speed is_open ≡ true
  unfolding response_completeness process_command process_action process_unlock process_lock
      after_check check_safety check_door get_float get_bool ensure succeed fail now set_bool
      set_string set_lock_state make_cmd mock_client mock_get_float mock_get_bool mock_set_string
      new with_speed with_door_open set_string_calls success_response failure_response
  response_holds time is_lock speed is_open =
      let (response, after) =
        process_command (test_env speeds to_json from_str clock (test_mock speed is_open))
          (make_cmd (action_of is_lock) "prop-completeness") (test_world false) in
      let reply : String → Option String → CommandResponse = λ status reason. record {
        command_id = "prop-completeness";
        status = status;
        reason = reason;
        timestamp = as_i64 (clock 0);
      } in
      let full = is_full_reply_of response after.log in
      elim (Bool-cases is_lock) [
        | inr unlocks ↦
            full (reply "success" none) (rw unlocks refl) refl refl time (rw unlocks refl)
        | inl locks ↦ elim (Bool-cases (speeds.at_least_one speed)) [
          | inl fast ↦
              full (reply "failed" (some "vehicle_moving")) (rw (locks, fast) refl) refl refl time
                (rw (locks, fast) refl)
          | inr slow ↦ elim (Bool-cases is_open) [
            | inl ajar ↦
                full (reply "failed" (some "door_open")) (rw (locks, slow, ajar) refl) refl refl
                  time (rw (locks, slow, ajar) refl)
            | inr shut ↦
                full (reply "success" none) (rw (locks, slow, shut) refl) refl refl time
                  (rw (locks, slow, shut) refl)
          ]
        ]
      ]
