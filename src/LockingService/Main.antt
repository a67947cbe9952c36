-- ===== src/LockingService/Main.antt =====
-- rhivos/locking-service/src/main.rs: the command line and the exit codes. `args` are the program's name and
-- its arguments; what is printed is not modelled.
use parking_fee_service.Prelude.{
  ℕ, String, ◌==◌, ◌||◌, Option, none, some, List, [], ◌∷◌, Result, ok, err, Act, if◌then◌else◌,
}
use parking_fee_service.LockingService.Broker.{BrokerError, connect}
use parking_fee_service.LockingService.Config.{get_databroker_addr}
use parking_fee_service.LockingService.Safety.{Env, World}
use parking_fee_service.LockingService.Service.{
  Json, Event, Status, running, shut_down, subscription_lost, resubscribe_failed, run,
}

-- The exit code of a process whose `run` stands so; `none` while its loop goes on.
abbrev pub exit_code : Result Status BrokerError → Option ℕ
exit_code (err _) = some 1
exit_code (ok (running _)) = none
exit_code (ok shut_down) = some 0
exit_code (ok subscription_lost) = some 1
exit_code (ok (resubscribe_failed _)) = some 1

-- What the process meets besides the broker's answers: the environment variables, each attempt to
-- connect to an address, the answer to the first subscription, and the events.
pub record Outside : Type 0 where
  pub vars : String → Option String
  pub attempts : String → ℕ → Result (Unit {0}) String
  pub subscribed : Result (Unit {0}) BrokerError
  pub events : List Event

module _ {F : Type 0} (json : Json) (env : Env F) (outside : Outside) where
  -- `run`, from the address on.
  unfoldable pub serve : Act World (Option ℕ)
  serve w =
      let connected = (connect (outside.attempts (get_databroker_addr outside.vars))).0 in
      let (result, w') = run json env connected outside.subscribed outside.events w in
      (exit_code result, w')

  -- `main`
  unfoldable pub main : List String → Act World (Option ℕ)
  unfolding serve
  main [] w = (some 0, w)
  main (name ∷ []) w = (some 0, w)
  main (name ∷ arg ∷ rest) w =
      if arg == "--help" || arg == "-h"
      then (some 0, w)
      else if arg == "serve"
      then serve w
      else (some 1, w)
