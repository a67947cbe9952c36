-- ===== src/LockingService/Process/Lost.antt =====
-- What becomes of a write of the lock that fails.
use parking_fee_service.Prelude.{◌≡◌, Bool, true, false, List, [], ◌∷◌, err, arith, refl, All, ◌∙◌}
use parking_fee_service.LockingService.Command.{LockCommand, lock}
use parking_fee_service.LockingService.Broker.{
  Request, read_float, read_bool, wrote_bool, wrote_string, BrokerError, signal_is_locked,
  signal_speed, signal_door_open,
}
use parking_fee_service.LockingService.Response.{success_response}
use parking_fee_service.LockingService.Safety.{Env, World, safe, check_safety, get_float, get_bool}
use parking_fee_service.LockingService.Process.{
  set_bool, set_string, now, set_lock_state, process_action, process_command,
}
use parking_fee_service.LockingService.Process.Behaviour.{verdict}

-- The writes of truth values, each with its value and whether it succeeded, latest first.
abbrev pub lock_writes : List Request → List (Bool × Bool)
lock_writes [] = []
lock_writes (read_float _ ∷ log) = lock_writes log
lock_writes (read_bool _ ∷ log) = lock_writes log
lock_writes (wrote_string _ _ _ ∷ log) = lock_writes log
lock_writes (wrote_bool _ value done ∷ log) = (value, done) ∷ lock_writes log

module _ {F : Type 0} (env : Env F) where
  -- A service that holds the door for locked writes nothing on a lock command.
  locked_writes_nothing :
      (cmd : LockCommand) (w : World)
      → w.lock_state ≡ true
      → (lock_writes (process_action env lock cmd w).1.log ≡ lock_writes w.log)
        × ((process_action env lock cmd w).1.lock_state ≡ true)
  unfolding process_action check_safety set_bool now set_lock_state get_float get_bool
  locked_writes_nothing cmd w h = (ground arith, ground arith)

  first_write_fails :
      (cmd : LockCommand) (e : BrokerError) (w : World)
      → w.lock_state ≡ false
      → verdict env w.log ≡ safe
      → env.broker.set_bool
          (read_bool signal_door_open ∷ read_float signal_speed ∷ w.log)
          signal_is_locked
          true
        ≡ err e
      → (lock_writes (process_action env lock cmd w).1.log ≡ (true, false) ∷ lock_writes w.log)
        × ((process_action env lock cmd w).1.lock_state ≡ true)
        × ((process_action env lock cmd w).0
            ≡ success_response env.to_json (env.clock w.reads) cmd.command_id)
  unfolding process_action check_safety set_bool now set_lock_state get_float get_bool
  first_write_fails cmd e w h v f = (ground arith, ground arith, ground arith)

  -- What `n` commands in a row do.
  abbrev pub after_all : List LockCommand → World → World
  after_all [] w = w
  after_all (cmd ∷ cmds) w = after_all cmds (process_command env cmd w).1

  locked_stays :
      (cmds : List LockCommand) (w : World)
      → All (λ cmd. cmd.action ≡ lock) cmds
      → w.lock_state ≡ true
      → (lock_writes (after_all cmds w).log ≡ lock_writes w.log)
        × ((after_all cmds w).lock_state ≡ true)
  unfolding process_command set_string
  locked_stays [] w ls h = (refl, h)
  locked_stays (cmd ∷ cmds) w ls h =
      let w' : World = (process_command env cmd w).1 in
      let done = locked_writes_nothing cmd w h in
      let (writes, state) = locked_stays cmds w' ls.1 (rw ls.0 done.1) in
      (writes ∙ rw ls.0 done.0, state)

  -- An unlocked service and a lock command that is found safe, whose write of the lock fails: the command
  -- is answered with success all the same, the service holds the door for locked, and however many lock
  -- commands follow, the failed write is not repeated.
  pub lost_write_stays :
      (cmd : LockCommand) (cmds : List LockCommand) (e : BrokerError) (w : World)
      → cmd.action ≡ lock
      → All (λ cmd. cmd.action ≡ lock) cmds
      → w.lock_state ≡ false
      → verdict env w.log ≡ safe
      → env.broker.set_bool
          (read_bool signal_door_open ∷ read_float signal_speed ∷ w.log)
          signal_is_locked
          true
        ≡ err e
      → ((process_command env cmd w).0
          ≡ success_response env.to_json (env.clock w.reads) cmd.command_id)
        × (lock_writes (after_all (cmd ∷ cmds) w).log ≡ (true, false) ∷ lock_writes w.log)
        × ((after_all (cmd ∷ cmds) w).lock_state ≡ true)
  unfolding process_command set_string
  lost_write_stays cmd cmds e w l ls h v f =
      let (writes, state, answer) = first_write_fails cmd e w h v f in
      let (same, still) = locked_stays cmds (process_command env cmd w).1 ls (rw l state) in
      (rw l answer, same ∙ rw l writes, still)
