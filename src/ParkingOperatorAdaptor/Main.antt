-- ===== src/ParkingOperatorAdaptor/Main.antt =====
-- rhivos/parking-operator-adaptor/src/main.rs: what `run` does from the start to the end of the event loop.
-- The address is built from a `u16` port, so that parsing it succeeds. The tasks that put events on the
-- channel are the lock forwarder and the gRPC service; `order` says which of them is next.
use parking_fee_service.Prelude.{
  ℕ, String, Bool, false, Option, List, map, merge, Result, ok, err, Act,
}
use parking_fee_service.Prelude.Signals.{Item}
use parking_fee_service.ParkingOperatorAdaptor.Broker.{BrokerError, connect, subscribe_bool}
use parking_fee_service.ParkingOperatorAdaptor.Config.{Config, ConfigError, load_config}
use parking_fee_service.ParkingOperatorAdaptor.EventLoop.{
  Env, World, Request, SessionEvent, lock_changed, Reply, signal_is_locked, signal_session_active,
  set_bool, run_event_loop,
}

pub data RunError : Type 0 where
  bad_config : ConfigError → RunError
  broker_failed : BrokerError → RunError

-- What the process meets: its environment variables, each attempt to connect to a broker's address, the
-- stream of a subscription after earlier requests, and the operator and the broker of a configuration.
pub record Outside (F : Type 0) : Type 0 where
  pub vars : String → Option String
  pub attempts : String → ℕ → Result (Unit {0}) String
  pub subscribe : List Request → String → Result (List (Item F)) String
  pub services : Config → Env F

-- The lock forwarder.
unfoldable pub forward_locks : List Bool → List SessionEvent
forward_locks locks = map lock_changed locks

module _ {F : Type 0} (outside : Outside F) where
  -- `run` from the answer to the subscription on.
  unfoldable pub serve :
      Config
      → List Bool
      → List SessionEvent
      → Result (List Bool) BrokerError
      → Act (World F) (Result (List (Reply F)) RunError)
  unfolding forward_locks
  serve config order requests (err e) w = (err (broker_failed e), w)
  serve config order requests (ok locks) w =
      let (replies, w') =
        run_event_loop (outside.services config) config.vehicle_id config.zone_id w.log w.reads
          (merge order (forward_locks locks) requests) in
      (ok replies, w')

  -- `run` from the answer to the connection on.
  unfoldable pub begin :
      Config
      → List Bool
      → List SessionEvent
      → Result (Unit {0}) BrokerError
      → Act (World F) (Result (List (Reply F)) RunError)
  unfolding serve
  begin config order requests (err e) w = (err (broker_failed e), w)
  begin config order requests (ok _) w =
      let (_, w') = set_bool (outside.services config) signal_session_active false w in
      serve config order requests (subscribe_bool (outside.subscribe w'.log) signal_is_locked) w'

  -- `run`
  unfoldable pub run :
      List Bool → List SessionEvent → Act (World F) (Result (List (Reply F)) RunError)
  unfolding begin
  run order requests w = elim (load_config outside.vars) [
    | err e ↦ (err (bad_config e), w)
    | ok config ↦
        begin config order requests (connect (outside.attempts config.data_broker_addr)).0 w
  ]
