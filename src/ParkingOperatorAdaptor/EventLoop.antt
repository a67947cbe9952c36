-- ===== src/ParkingOperatorAdaptor/EventLoop.antt =====
-- rhivos/parking-operator-adaptor/src/event_loop.rs: one task owns the session and handles the events
-- one by one. The operator and the broker are the traits `OperatorOps` and `BrokerOps`; what they
-- answer may depend on all that was asked of them before. A log keeps those requests, latest first.
pub mod Protocol
use parking_fee_service.Prelude.{
  ℕ, suc, String, Bool, true, false, Option, none, some, List, [], ◌∷◌, Result, ok, err, Act, ◌>>=◌,
  ◌>>◌, pure, if◌then◌else◌,
}
use parking_fee_service.Prelude.Number.{ℤ, as_i64}
use parking_fee_service.ParkingOperatorAdaptor.Session
use parking_fee_service.ParkingOperatorAdaptor.Session.{Rate, SessionState, Session}
use parking_fee_service.ParkingOperatorAdaptor.Operator.{
  RateResponse, StartResponse, StopResponse, OperatorError, show_error,
}

abbrev pub signal_is_locked : String
signal_is_locked = "Vehicle.Cabin.Door.Row1.DriverSide.IsLocked"

abbrev pub signal_session_active : String
signal_session_active = "Vehicle.Parking.SessionActive"

-- A request to the operator with its outcome, or a value published to the broker.
pub data Request : Type 0 where
  started : String → Request
  start_failed : Request
  stopped : String → Request
  stop_failed : String → Request
  published : String → Bool → Request

pub record OperatorOps (F : Type 0) : Type 0 where
  pub start_session : List Request → String → String → Result (StartResponse F) OperatorError
  pub stop_session : List Request → String → Result (StopResponse F) OperatorError

pub record BrokerOps : Type 0 where
  pub set_bool : List Request → String → Bool → Result (Unit {0}) String

-- `clock k` is the k-th reading: the seconds since the epoch, or `none` before it.
pub record Env (F : Type 0) : Type 0 where
  pub operator : OperatorOps F
  pub broker : BrokerOps
  pub clock : ℕ → Option ℕ

pub record World (F : Type 0) : Type 0 where
  pub session : Session F
  pub log : List Request
  pub reads : ℕ

pub data ManualError : Type 0 where
  already_exists : String → ManualError
  failed_precondition : ManualError
  operator_unavailable : String → ManualError

-- `unix_timestamp`; `unwrap_or_default` gives 0 before the epoch.
unfoldable pub seconds : Option ℕ → ℤ
seconds none = as_i64 0
seconds (some secs) = as_i64 secs

module _ {F : Type 0} (env : Env F) where
  -- The log entry for the operator's answer.
  abbrev log_start : Result (StartResponse F) OperatorError → Request
  log_start (ok resp) = started resp.session_id
  log_start (err _) = start_failed

  abbrev log_stop : String → Result (StopResponse F) OperatorError → Request
  log_stop session_id (ok _) = stopped session_id
  log_stop session_id (err _) = stop_failed session_id

  unfoldable pub start_session :
      String → String → Act (World F) (Result (StartResponse F) OperatorError)
  start_session vehicle_id zone_id w =
      let answer = env.operator.start_session w.log vehicle_id zone_id in
      (answer, record w { log = log_start answer ∷ w.log })

  unfoldable pub stop_session : String → Act (World F) (Result (StopResponse F) OperatorError)
  stop_session session_id w =
      let answer = env.operator.stop_session w.log session_id in
      (answer, record w { log = log_stop session_id answer ∷ w.log })

  -- The outcome is logged and not used.
  unfoldable pub set_bool : String → Bool → Act (World F) (Result (Unit {0}) String)
  set_bool signal value w =
      (env.broker.set_bool w.log signal value, record w { log = published signal value ∷ w.log })

  unfoldable pub unix_timestamp : Act (World F) ℤ
  unfolding seconds
  unix_timestamp w = (seconds (env.clock w.reads), record w { reads = suc w.reads })

  unfoldable pub set_session : Session F → Act (World F) (Unit {0})
  set_session s w = (tt, record w { session = s })

  -- `Rate { rate_type: resp.rate.rate_type, … }`
  unfoldable pub rate_of : RateResponse F → Rate F
  rate_of r = record { rate_type = r.rate_type; amount = r.amount; currency = r.currency }

  -- What an answer of the operator to a start does: the session starts, and is published.
  unfoldable pub begin_session : String → StartResponse F → Act (World F) (Unit {0})
  unfolding rate_of
  begin_session zone_id resp = do
    start_time ← unix_timestamp
    set_session (Session.start resp.session_id zone_id start_time (rate_of resp.rate))
    set_bool signal_session_active true
    pure tt

  -- `session.stop()` and the publication.
  unfoldable pub end_session : Act (World F) (Unit {0})
  end_session w =
      (do set_session (Session.stop w.session).1; set_bool signal_session_active false; pure tt) w

  unfoldable pub after_lock :
      String → Result (StartResponse F) OperatorError → Act (World F) (Unit {0})
  unfolding begin_session
  after_lock zone_id (ok resp) = begin_session zone_id resp
  after_lock zone_id (err _) = pure tt

  unfoldable pub after_unlock : Result (StopResponse F) OperatorError → Act (World F) (Unit {0})
  unfolding end_session
  after_unlock (ok _) = end_session
  after_unlock (err _) = pure tt

  -- `session.status().unwrap().session_id`, read where `is_active` has been tested: the session is there.
  unfoldable pub session_id_of : Session F → String
  session_id_of s = elim s.state [ none ↦ "" | some st ↦ st.session_id ]

  -- `process_lock_event`
  unfoldable pub process_lock_event : String → String → Bool → Act (World F) (Unit {0})
  unfolding after_lock after_unlock session_id_of
  process_lock_event vehicle_id zone_id true w =
      if Session.is_active w.session
      then (tt, w)
      else (do answer ← start_session vehicle_id zone_id; after_lock zone_id answer) w
  process_lock_event vehicle_id zone_id false w =
      if Session.is_active w.session
      then (do answer ← stop_session (session_id_of w.session); after_unlock answer) w
      else (tt, w)

  unfoldable pub after_manual_start :
      String
      → Result (StartResponse F) OperatorError
      → Act (World F) (Result (StartResponse F) ManualError)
  unfolding begin_session
  after_manual_start zone_id (ok resp) = do begin_session zone_id resp; pure (ok resp)
  after_manual_start zone_id (err e) = pure (err (operator_unavailable (show_error e)))

  -- `process_manual_start`
  unfoldable pub process_manual_start :
      String → String → Act (World F) (Result (StartResponse F) ManualError)
  unfolding after_manual_start session_id_of
  process_manual_start vehicle_id zone_id w =
      if Session.is_active w.session
      then (err (already_exists (session_id_of w.session)), w)
      else (do answer ← start_session vehicle_id zone_id; after_manual_start zone_id answer) w

  unfoldable pub after_manual_stop :
      Result (StopResponse F) OperatorError → Act (World F) (Result (StopResponse F) ManualError)
  unfolding end_session
  after_manual_stop (ok resp) = do end_session; pure (ok resp)
  after_manual_stop (err e) = pure (err (operator_unavailable (show_error e)))

  -- `process_manual_stop`
  unfoldable pub process_manual_stop : Act (World F) (Result (StopResponse F) ManualError)
  unfolding after_manual_stop session_id_of
  process_manual_stop w =
      if Session.is_active w.session
      then (do answer ← stop_session (session_id_of w.session); after_manual_stop answer) w
      else (err failed_precondition, w)

-- `SessionEvent`, without the channels for the replies.
pub data SessionEvent : Type 0 where
  lock_changed : Bool → SessionEvent
  manual_start : String → SessionEvent
  manual_stop query_status query_rate : SessionEvent

-- What is sent to an event's reply channel; a lock event has none.
pub data Reply (F : Type 0) : Type 0 where
  no_reply : Reply F
  start_reply : Result (StartResponse F) ManualError → Reply F
  stop_reply : Result (StopResponse F) ManualError → Reply F
  status_reply : Option (SessionState F) → Reply F
  rate_reply : Option (Rate F) → Reply F

module _ {F : Type 0} (env : Env F) (vehicle_id zone_id : String) where
  -- A query is answered from the session, which stays as it is.
  unfoldable pub answer : (Session F → Reply F) → Act (World F) (Reply F)
  answer f w = (f w.session, w)

  -- The body of the loop.
  unfoldable pub handle : SessionEvent → Act (World F) (Reply F)
  unfolding process_lock_event process_manual_start process_manual_stop answer
  handle (lock_changed is_locked) = do
    process_lock_event env vehicle_id zone_id is_locked
    pure no_reply
  handle (manual_start z) = do
    result ← process_manual_start env vehicle_id z
    pure (start_reply result)
  handle manual_stop = do result ← process_manual_stop env; pure (stop_reply result)
  handle query_status = answer (λ s. status_reply (Session.status s))
  handle query_rate = answer (λ s. rate_reply (Session.rate s))

  -- The loop over the events received until the channel closes, with the replies in their order.
  unfoldable pub run_from : List SessionEvent → Act (World F) (List (Reply F))
  unfolding handle
  run_from [] w = ([], w)
  run_from (event ∷ events) w =
      let (reply, w') = handle event w in
      let (replies, w'') = run_from events w' in (reply ∷ replies, w'')

  -- `run_event_loop`, with the log and the number of clock readings that it finds.
  unfoldable pub run_event_loop : List Request → ℕ → List SessionEvent → List (Reply F) × World F
  unfolding run_from
  run_event_loop log reads events =
      run_from events (record { session = Session.new F; log = log; reads = reads })
