-- ===== src/LockingService/Service/Payloads.antt =====
-- What locking-service/src/main.rs does with a payload that is no command.
use parking_fee_service.Prelude.{
  is_ok, String, ◌≡◌, refl, ◌⊎◌, inl, inr, Bool, ◌∷◌, ok, Option, none, some, Result-cases,
}
use parking_fee_service.LockingService.Command.{
  LockCommand, CommandError, invalid_json, invalid_command, unsupported_door, reason, parse_command,
  validate_command,
}
use parking_fee_service.LockingService.Command.Validity.{IsWellFormed, validate_command_iff}
use parking_fee_service.LockingService.Broker.{wrote_string, signal_response}
use parking_fee_service.LockingService.Process.{fail, set_string, now}
use parking_fee_service.LockingService.Safety.{Env, World}
use parking_fee_service.LockingService.Service.{
  Json, handle_command_payload, after_parse, after_validation, reject, publish_failure,
  extract_command_id,
}

-- The lock is as it was, and the broker was asked nothing but, at most, to take one response.
pub record IsRefused (before after : World) : Type 0 where
  pub lock : after.lock_state ≡ before.lock_state
  pub asked :
      (after.log ≡ before.log)
      ⊎ ((response : String) × (done : Bool) × (after.log
            ≡ wrote_string signal_response response done ∷ before.log))

module _ {F : Type 0} (json : Json) (env : Env F) where
  publish_failure-IsRefused :
      (id why : String) (w : World) → IsRefused w (publish_failure json env id why w).1
  unfolding publish_failure fail set_string now
  publish_failure-IsRefused id why w = record {
    lock = refl;
    asked = inr (
      (fail env id why w).0,
      is_ok (env.broker.set_string w.log signal_response (fail env id why w).0),
      refl,
    );
  }

  reject-IsRefused :
      (id : Option String) (e : CommandError) (w : World) → IsRefused w (reject json env id e w).1
  unfolding reject
  reject-IsRefused none e w = record { lock = refl; asked = inl refl }
  reject-IsRefused (some id) e w = publish_failure-IsRefused id (reason e) w

  -- A payload that does not decode to a well-formed command leaves the lock as it is, reads no signal
  -- and writes nothing but, at most, one response.
  pub handle_command_payload_refuses :
      (p : String) (w : World)
      → ((cmd : LockCommand) → parse_command json.from_str p ≡ ok cmd → ¬ IsWellFormed cmd)
      → IsRefused w (handle_command_payload json env p w).1
  unfolding handle_command_payload after_parse after_validation
  handle_command_payload_refuses p w bad = elim (Result-cases (parse_command json.from_str p)) [
    | inr (invalid_json msg, e) ↦ rw e (record { lock = refl; asked = inl refl })
    | inr (invalid_command msg, e) ↦
        rw e (reject-IsRefused (extract_command_id json p) (invalid_command msg) w)
    | inr (unsupported_door msg, e) ↦
        rw e (reject-IsRefused (extract_command_id json p) (unsupported_door msg) w)
    | inl (cmd, e) ↦ elim (Result-cases (validate_command cmd)) [
      | inl (_, v) ↦ absurd (bad cmd e ((validate_command_iff cmd).0 v))
      | inr (x, v) ↦ rw (e, v) (publish_failure-IsRefused cmd.command_id (reason x) w)
    ]
  ]
