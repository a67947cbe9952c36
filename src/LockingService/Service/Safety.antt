-- ===== src/LockingService/Service/Safety.antt =====
-- What holds of the lock throughout the life of the service, whatever payloads come.
use parking_fee_service.Prelude.{
  ◌≡◌, Bool, true, false, Option, none, some, List, [], ◌∷◌, arith, Result-cases, inr, inl, refl,
}
use parking_fee_service.LockingService.Command.{
  Action, lock, unlock, LockCommand, CommandError, reason, validate_command, invalid_json,
  parse_command, invalid_command, unsupported_door,
}
use parking_fee_service.LockingService.Broker.{
  Request, read_float, read_bool, wrote_bool, wrote_string, signal_speed, signal_door_open,
  BrokerError, signal_is_locked,
}
use parking_fee_service.LockingService.Safety.{safe, Env, World, check_safety, get_float, get_bool}
use parking_fee_service.LockingService.Process.{
  set_bool, now, set_lock_state, process_action, process_command, fail, set_string,
}
use parking_fee_service.LockingService.Process.Behaviour.{verdict}
use parking_fee_service.LockingService.Service.{
  shutdown, Json, run, after_parse, after_validation, reject, run_loop, publish_failure, turn,
  handle_command_payload, String, Result, Event, Status, running, ok, err, payload, stream_ended,
  extract_command_id,
}

-- Every write of `true` to the lock follows at once on the two safety reads, and what the broker
-- answered to them was safe.
module _ {F : Type 0} (env : Env F) where
  abbrev pub IsGuarded : List Request → Type 0
  IsGuarded [] = Unit
  IsGuarded (read_float _ ∷ log) = IsGuarded log
  IsGuarded (read_bool _ ∷ log) = IsGuarded log
  IsGuarded (wrote_string _ _ _ ∷ log) = IsGuarded log
  IsGuarded (wrote_bool _ false _ ∷ log) = IsGuarded log
  IsGuarded (wrote_bool _ true _ ∷ log) =
      ((before : List Request) × (log
          ≡ read_bool signal_door_open ∷ read_float signal_speed ∷ before)
        × (verdict env before ≡ safe))
      × IsGuarded log

-- The value that was last written to the lock's signal.
abbrev pub last_written : List Request → Option Bool
last_written [] = none
last_written (read_float _ ∷ log) = last_written log
last_written (read_bool _ ∷ log) = last_written log
last_written (wrote_string _ _ _ ∷ log) = last_written log
last_written (wrote_bool _ value _ ∷ log) = some value

-- The writes to the lock are guarded, and the service's lock state is what it wrote last.
pub record IsLockSafe {F : Type 0} (env : Env F) (w : World) : Type 0 where
  pub guarded : IsGuarded env w.log
  pub written : last_written w.log ≡ some w.lock_state

module _ {F : Type 0} (json : Json) (env : Env F) where
  process_action-IsLockSafe :
      (action : Action) (cmd : LockCommand) (w : World)
      → IsLockSafe env w
      → IsLockSafe env (process_action env action cmd w).1
  unfolding process_action check_safety set_bool now set_lock_state get_float get_bool
  process_action-IsLockSafe lock cmd w s = record { guarded = ground arith; written = ground arith }
  process_action-IsLockSafe unlock cmd w s = ground arith

  publish_failure-IsLockSafe :
      (id why : String) (w : World)
      → IsLockSafe env w
      → IsLockSafe env (publish_failure json env id why w).1
  unfolding publish_failure fail set_string now
  publish_failure-IsLockSafe id why w s = record { guarded = s.guarded; written = s.written }

  process_command-IsLockSafe :
      (cmd : LockCommand) (w : World)
      → IsLockSafe env w
      → IsLockSafe env (process_command env cmd w).1
  unfolding process_command set_string
  process_command-IsLockSafe cmd w s =
      let done = process_action-IsLockSafe cmd.action cmd w s in
      record { guarded = done.guarded; written = done.written }

  after_validation-IsLockSafe :
      (cmd : LockCommand) (r : Result (Unit {0}) CommandError) (w : World)
      → IsLockSafe env w
      → IsLockSafe env (after_validation json env cmd r w).1
  unfolding after_validation
  after_validation-IsLockSafe cmd (ok _) w s = process_command-IsLockSafe cmd w s
  after_validation-IsLockSafe cmd (err e) w s =
      publish_failure-IsLockSafe cmd.command_id (reason e) w s

  reject-IsLockSafe :
      (id : Option String) (e : CommandError) (w : World)
      → IsLockSafe env w
      → IsLockSafe env (reject json env id e w).1
  unfolding reject
  reject-IsLockSafe none e w s = s
  reject-IsLockSafe (some id) e w s = publish_failure-IsLockSafe id (reason e) w s

  after_parse-IsLockSafe :
      (text : String) (r : Result LockCommand CommandError) (w : World)
      → IsLockSafe env w
      → IsLockSafe env (after_parse json env text r w).1
  unfolding after_parse
  after_parse-IsLockSafe text (ok cmd) w s =
      after_validation-IsLockSafe cmd (validate_command cmd) w s
  after_parse-IsLockSafe text (err (invalid_json msg)) w s = s
  after_parse-IsLockSafe text (err (invalid_command msg)) w s =
      reject-IsLockSafe (extract_command_id json text) (invalid_command msg) w s
  after_parse-IsLockSafe text (err (unsupported_door msg)) w s =
      reject-IsLockSafe (extract_command_id json text) (unsupported_door msg) w s

  turn-IsLockSafe :
      (status : Status) (event : Event) (w : World)
      → IsLockSafe env w
      → IsLockSafe env (turn json env status event w).1
  unfolding turn handle_command_payload
  turn-IsLockSafe (running count) (payload p) w s =
      after_parse-IsLockSafe p (parse_command json.from_str p) w s
  turn-IsLockSafe (running count) (stream_ended answer) w s = s
  turn-IsLockSafe (running count) shutdown w s = s
  turn-IsLockSafe _ event w s = s

  run_loop-IsLockSafe :
      (events : List Event) (status : Status) (w : World)
      → IsLockSafe env w
      → IsLockSafe env (run_loop json env events status w).1
  unfolding run_loop
  run_loop-IsLockSafe [] status w s = s
  run_loop-IsLockSafe (event ∷ events) status w s =
      let (status', w') = turn json env status event w in
      run_loop-IsLockSafe events status' w' (turn-IsLockSafe status event w s)

-- Whenever the service has come into its loop, from a broker that nothing was asked of before, and
-- whatever payloads, ends of the subscription and answers of the broker came since: each write of
-- `true` to the lock came directly after the reads of the speed and of the door, which gave a speed
-- below 1 and a closed door, where a read that gives no value counts as zero and as closed; and the
-- lock state that the service keeps is the value it wrote last.
pub run-IsLockSafe :
    {F : Type 0} (json : Json) (env : Env F) (subscribed : Result (Unit {0}) BrokerError)
    (events : List Event) (w : World) (status : Status)
    → w.log ≡ []
    → (run json env (ok tt) subscribed events w).0 ≡ ok status
    → IsLockSafe env (run json env (ok tt) subscribed events w).1
unfolding run set_bool
run-IsLockSafe json env (err e) events w status fresh h = ground arith
run-IsLockSafe json env (ok _) events w status fresh h =
    elim (Result-cases (env.broker.set_bool w.log signal_is_locked false)) [
      | inr (x, failed) ↦ absurd (ground arith)
      | inl (_, done) ↦ rw done (
          run_loop-IsLockSafe json env events (running 0)
            (record w { lock_state = false; log = (set_bool env signal_is_locked false w).1.log })
            (record { guarded = rw fresh tt; written = refl }))
    ]
