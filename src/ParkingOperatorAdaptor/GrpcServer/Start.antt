-- ===== src/ParkingOperatorAdaptor/GrpcServer/Start.antt =====
-- What the client of grpc_server.rs learns from `start_session`.
use parking_fee_service.Prelude.{String, ◌<>◌, ◌≡◌, true, [], Result, ok, err, arith, if◌then◌else◌}
use parking_fee_service.ParkingOperatorAdaptor.Session
use parking_fee_service.ParkingOperatorAdaptor.Operator.{StartResponse, OperatorError, show_error}
use parking_fee_service.ParkingOperatorAdaptor.EventLoop
use parking_fee_service.ParkingOperatorAdaptor.EventLoop.{
  Env, World, session_id_of, seconds, handle, run_from, set_bool, unix_timestamp, set_session,
}
use parking_fee_service.ParkingOperatorAdaptor.GrpcServer.{
  Status, status_already_exists, status_unavailable, SessionStatus, start_session,
}

module _ {F : Type 0} (env : Env F) (vehicle_id default_zone zone_id : String) where
  abbrev pub reported :
      World F → Result (StartResponse F) OperatorError → Result SessionStatus Status
  reported w (ok resp) = ok (record {
    session_id = resp.session_id;
    active = true;
    start_time = seconds (env.clock w.reads);
    zone_id = zone_id;
  })
  reported w (err e) = err (status_unavailable (show_error e))

  -- If no other event comes between the two that it sends, `start_session` answers for every state and
  -- every answer of the operator: with an active session, that one exists already, naming it; else the
  -- session that the operator opened, with the zone asked for and the time of its start, or that the
  -- operator is unavailable.
  pub start_session_lem :
      (w : World F)
      → (start_session env vehicle_id default_zone zone_id [] w).0 ≡ (
          if Session.is_active w.session
          then err
              (status_already_exists ("session already active: " <> session_id_of env w.session))
          else reported w (env.operator.start_session w.log vehicle_id zone_id))
  unfolding start_session handle run_from EventLoop.start_session set_bool unix_timestamp
      set_session Session.is_active Session.start Session.status
  start_session_lem w = ground arith
