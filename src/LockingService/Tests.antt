-- ===== src/LockingService/Tests.antt =====
-- Concrete runs of the locking service.
use parking_fee_service.Prelude.{
  ℕ, ◌≡◌, refl, false, true, none, some, List, [], ◌∷◌, ok, err, leb, arith,
}
use parking_fee_service.LockingService.Command.{LockCommand, lock, validate_command, parse_command}
use parking_fee_service.LockingService.Command.Validity.{IsWellFormed, validate_command_iff}
use parking_fee_service.LockingService.Broker.{BrokerClient, rpc_error, connect}
use parking_fee_service.LockingService.Testing.Wire.{write, read, read-write}
use parking_fee_service.LockingService.Testing.Properties.{
  command_validation_completeness, safety_gate_lock, unlock_always_succeeds,
  state_response_consistency, idempotent_operations, response_completeness,
}
use parking_fee_service.LockingService.Testing.Properties.Hold.{locking_tests_hold}
use parking_fee_service.LockingService.Safety.{Env, World, Speed}
use parking_fee_service.LockingService.Process.{set_bool, process_command}
use parking_fee_service.LockingService.Process.Behaviour.{
  verdict, state_after, answer_to, SentTo, process_command_lem,
}
use parking_fee_service.Prelude.Retry
use parking_fee_service.LockingService.Main.{Outside, main}
use parking_fee_service.LockingService.Response.{success_response}
use parking_fee_service.LockingService.Process.Lost.{lock_writes, after_all, lost_write_stays}
use parking_fee_service.LockingService.Service.{
  Json, Event, payload, shutdown, stream_ended, run, shut_down, handle_command_payload, run_loop,
  subscription_lost, running,
}
use parking_fee_service.LockingService.Service.Resubscription.{
  ends, after_ends, run_loop_resubscribes,
}
use parking_fee_service.LockingService.Service.Payloads.{IsRefused, handle_command_payload_refuses}
use parking_fee_service.LockingService.Service.Safety.{IsLockSafe, run-IsLockSafe}

-- A broker of a standing vehicle whose door is closed.
abbrev parked : BrokerClient ℕ
parked = record {
  get_float = λ log signal. ok (some 0);
  get_bool = λ log signal. ok (some false);
  set_bool = λ log signal value. ok tt;
  set_string = λ log signal value. ok tt;
}

abbrev env : Env ℕ
env = record {
  broker = parked;
  speed = record { zero = 0; at_least_one = λ v. leb 1 v };
  to_json = λ response. response.status;
  clock = λ k. k;
}

abbrev lock_command : LockCommand
lock_command = record {
  command_id = "c-1";
  action = lock;
  doors = "driver" ∷ [];
  source = none;
  vin = none;
  timestamp = none;
}

-- Every text is the lock command, and no text is a value of another kind.
abbrev json : Json
json = record {
  Value = Unit {0};
  from_str = λ text. ok lock_command;
  value_of = λ text. none;
  get = λ v key. none;
  as_str = λ v. none;
}

abbrev start : World
start = record { lock_state = true; log = []; reads = 0 }

abbrev events : List Event
events = payload "lock" ∷ stream_ended (ok tt) ∷ payload "lock" ∷ shutdown ∷ []

process_command_lem_example :
    let (response, after) = process_command env lock_command start in
    (after.lock_state ≡ state_after env lock (verdict env []) true)
    × (response ≡ answer_to env lock (verdict env []) 0 "c-1")
    × SentTo env after.log response
process_command_lem_example = process_command_lem env lock_command start

abbrev finished : World
finished = (run json env (ok tt) (ok tt) events start).1

run_result : (run json env (ok tt) (ok tt) events start).0 ≡ ok shut_down
unfolding run set_bool
run_result = refl

run-IsLockSafe_example : IsLockSafe env finished
run-IsLockSafe_example = run-IsLockSafe json env (ok tt) events start shut_down refl run_result

run_loop_resubscribes_example :
    run_loop json env (payload "lock" ∷ ends 4) (running 2) start
    ≡ (after_ends 4, (handle_command_payload json env "lock" start).1)
run_loop_resubscribes_example = run_loop_resubscribes json env "lock" 4 2 start

-- Four ends in a row are one too many.
four_ends : after_ends 4 ≡ subscription_lost
four_ends = refl

-- Every text is a command for the rear door.
abbrev rear_json : Json
rear_json = record {
  Value = Unit {0};
  from_str = λ text. ok (record lock_command { doors = "rear" ∷ [] });
  value_of = λ text. none;
  get = λ v key. none;
  as_str = λ v. none;
}

not_for_rear :
    (cmd : LockCommand) → parse_command rear_json.from_str "lock" ≡ ok cmd → ¬ IsWellFormed cmd
unfolding parse_command validate_command
not_for_rear cmd h f = ground (arith, (validate_command_iff cmd).1 f)

handle_command_payload_refuses_example :
    IsRefused start (handle_command_payload rear_json env "lock" start).1
handle_command_payload_refuses_example =
    handle_command_payload_refuses rear_json env "lock" start not_for_rear

-- A broker that takes no writes.
abbrev deaf : Env ℕ
deaf = record env {
  broker = record parked { set_bool = λ log signal value. err (rpc_error "unavailable") };
}

abbrev unlocked : World
unlocked = record { lock_state = false; log = []; reads = 0 }

lost_write_stays_example :
    ((process_command deaf lock_command unlocked).0 ≡ success_response deaf.to_json 0 "c-1")
    × (lock_writes (after_all deaf (lock_command ∷ lock_command ∷ []) unlocked).log
        ≡ (true, false) ∷ [])
    × ((after_all deaf (lock_command ∷ lock_command ∷ []) unlocked).lock_state ≡ true)
lost_write_stays_example =
    lost_write_stays deaf lock_command (lock_command ∷ []) (rpc_error "unavailable") unlocked refl
      (refl, tt) refl refl refl

abbrev outside : Outside
outside = record {
  vars = λ name. none;
  attempts = λ addr k. err "refused";
  subscribed = ok tt;
  events = events;
}

-- A broker that cannot be reached, and a command that does not exist.
main_unreachable : (main json env outside ("locking-service" ∷ "serve" ∷ []) start).0 ≡ some 1
unfolding main connect Retry.connect run
main_unreachable = refl

main_unknown : main json env outside ("locking-service" ∷ "start" ∷ []) start ≡ (some 1, start)
unfolding main
main_unknown = refl

abbrev speeds : Speed ℕ
speeds = record { zero = 0; at_least_one = λ v. leb 1 v }

locking_tests_hold_example :
    (command_validation_completeness (λ text. ok lock_command) "lock" ≡ true)
    × (safety_gate_lock speeds write read (λ k. 1700000000) 30 true ≡ true)
    × (unlock_always_succeeds speeds write read (λ k. 1700000000) 30 true ≡ true)
    × (state_response_consistency speeds write read (λ k. 1700000000) true ≡ true)
    × (idempotent_operations speeds write read (λ k. 1700000000) true 4 ≡ true)
    × (response_completeness speeds write read (λ k. 1700000000) true 30 true ≡ true)
locking_tests_hold_example =
    locking_tests_hold speeds write read (λ k. 1700000000) read-write refl (omega arith)
      (omega arith) (λ text. ok lock_command) "lock" true true 30 4
