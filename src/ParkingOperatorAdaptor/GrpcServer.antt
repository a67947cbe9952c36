-- ===== src/ParkingOperatorAdaptor/GrpcServer.antt =====
-- rhivos/parking-operator-adaptor/src/grpc_server.rs: the four RPCs, which put events on the channel of
-- the event loop and wait for the replies. The loop is running (no channel is closed). `between` are the
-- events that other tasks put on the channel between the two events of `start_session`.
pub mod Start
use parking_fee_service.Prelude.{
  String, ◌<>◌, Bool, true, false, Option, none, some, List, Result, ok, err, Act, ◌>>=◌, ◌>>◌,
  pure,
}
use parking_fee_service.Prelude.Number.{ℤ, pos}
use parking_fee_service.ParkingOperatorAdaptor.Session.{Rate, SessionState}
use parking_fee_service.ParkingOperatorAdaptor.Operator.{StartResponse, StopResponse}
use parking_fee_service.ParkingOperatorAdaptor.EventLoop.{
  Env, World, ManualError, already_exists, failed_precondition, operator_unavailable, SessionEvent,
  manual_start, manual_stop, query_status, query_rate, Reply, start_reply, stop_reply, status_reply,
  rate_reply, handle, run_from,
}

-- `tonic::Status`: the codes that the service uses, each with its message.
pub data Status : Type 0 where
  status_already_exists status_failed_precondition status_unavailable status_internal :
      String → Status

-- The message `SessionStatus` of the service's protocol.
pub record SessionStatus : Type 0 where
  pub session_id : String
  pub active : Bool
  pub start_time : ℤ
  pub zone_id : String

pub record ParkingRate (F : Type 0) : Type 0 where
  pub operator_id : String
  pub rate_type : String
  pub amount : F
  pub currency : String

-- The `Err` arms of `start_session` and `stop_session`.
unfoldable pub status_of : ManualError → Status
status_of (already_exists id) = status_already_exists ("session already active: " <> id)
status_of failed_precondition = status_failed_precondition "no active session"
status_of (operator_unavailable msg) = status_unavailable msg

-- A reply of another kind cannot come on an event's channel; it would be a dropped one.
abbrev pub dropped : Status
dropped = status_internal "event loop dropped reply"

module _ {F : Type 0} where
  abbrev pub start_result : Reply F → Result (Result (StartResponse F) ManualError) Status
  start_result (start_reply r) = ok r
  start_result _ = err dropped

  abbrev pub stop_result : Reply F → Result (Result (StopResponse F) ManualError) Status
  stop_result (stop_reply r) = ok r
  stop_result _ = err dropped

  abbrev pub status_result : Reply F → Result (Option (SessionState F)) Status
  status_result (status_reply r) = ok r
  status_result _ = err dropped

  abbrev pub rate_result : Reply F → Result (Option (Rate F)) Status
  rate_result (rate_reply r) = ok r
  rate_result _ = err dropped

  unfoldable pub of_session : SessionState F → SessionStatus
  of_session s = record {
    session_id = s.session_id;
    active = s.active;
    start_time = s.start_time;
    zone_id = s.zone_id;
  }

  -- The session that `start_session` reports.
  unfoldable pub started_status :
      String
      → StartResponse F
      → Result (Option (SessionState F)) Status
      → Result SessionStatus Status
  unfolding of_session
  started_status zone_id resp (err e) = err e
  started_status zone_id resp (ok (some s)) = ok (of_session s)
  started_status zone_id resp (ok none) = ok (record {
    session_id = resp.session_id;
    active = true;
    start_time = pos 0;
    zone_id = zone_id;
  })

  -- The session that `stop_session` reports.
  unfoldable pub stopped_status :
      Result (Result (StopResponse F) ManualError) Status → Result SessionStatus Status
  unfolding status_of
  stopped_status (err e) = err e
  stopped_status (ok (err e)) = err (status_of e)
  stopped_status (ok (ok resp)) =
      ok (record { session_id = resp.session_id; active = false; start_time = pos 0; zone_id = "" })

  -- The session that `get_status` reports.
  unfoldable pub current_status :
      Result (Option (SessionState F)) Status → Result SessionStatus Status
  unfolding of_session
  current_status (err e) = err e
  current_status (ok (some s)) = ok (of_session s)
  current_status (ok none) =
      ok (record { session_id = ""; active = false; start_time = pos 0; zone_id = "" })

  -- The rate that `get_rate` reports; `zero` is 0.0.
  unfoldable pub current_rate : F → Result (Option (Rate F)) Status → Result (ParkingRate F) Status
  current_rate zero (err e) = err e
  current_rate zero (ok (some r)) = ok (record {
    operator_id = "";
    rate_type = r.rate_type;
    amount = r.amount;
    currency = r.currency;
  })
  current_rate zero (ok none) =
      ok (record { operator_id = ""; rate_type = ""; amount = zero; currency = "" })

module _ {F : Type 0} (env : Env F) (vehicle_id default_zone : String) where
  -- After the reply to `ManualStart`.
  unfoldable pub after_start :
      String
      → List SessionEvent
      → Result (Result (StartResponse F) ManualError) Status
      → Act (World F) (Result SessionStatus Status)
  unfolding status_of started_status
  after_start zone_id between (err e) = pure (err e)
  after_start zone_id between (ok (err e)) = pure (err (status_of e))
  after_start zone_id between (ok (ok resp)) = do
    run_from env vehicle_id default_zone between
    reply ← handle env vehicle_id default_zone query_status
    pure (started_status zone_id resp (status_result reply))

  -- `start_session`
  unfoldable pub start_session :
      String → List SessionEvent → Act (World F) (Result SessionStatus Status)
  unfolding after_start
  start_session zone_id between = do
    reply ← handle env vehicle_id default_zone (manual_start zone_id)
    after_start zone_id between (start_result reply)

  -- `stop_session`
  unfoldable pub stop_session : Act (World F) (Result SessionStatus Status)
  unfolding stopped_status
  stop_session = do
    reply ← handle env vehicle_id default_zone manual_stop
    pure (stopped_status (stop_result reply))

  -- `get_status`
  unfoldable pub get_status : Act (World F) (Result SessionStatus Status)
  unfolding current_status
  get_status = do
    reply ← handle env vehicle_id default_zone query_status
    pure (current_status (status_result reply))

  -- `get_rate`
  unfoldable pub get_rate : F → Act (World F) (Result (ParkingRate F) Status)
  unfolding current_rate
  get_rate zero = do
    reply ← handle env vehicle_id default_zone query_rate
    pure (current_rate zero (rate_result reply))
