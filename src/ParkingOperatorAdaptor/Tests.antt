-- ===== src/ParkingOperatorAdaptor/Tests.antt =====
-- Concrete runs of the parking operator adaptor.
use parking_fee_service.Prelude.{
  ℕ, String, ◌≡◌, false, true, some, List, [], ◌∷◌, ok, err, Result, if◌then◌else◌, leb,
}
use parking_fee_service.Prelude.Number.{pos}
use parking_fee_service.ParkingOperatorAdaptor.Testing.Properties.{
  lock_event, stop_event, session_state_consistency, idempotent_lock_events,
  override_non_persistence, retry_exhaustion_safety, session_active_consistency,
  sequential_event_processing,
}
use parking_fee_service.ParkingOperatorAdaptor.Testing.Properties.Hold.{parking_tests_hold}
use parking_fee_service.ParkingOperatorAdaptor.Session
use parking_fee_service.ParkingOperatorAdaptor.Session.{SessionState, Session}
use parking_fee_service.ParkingOperatorAdaptor.Operator.{
  Response, StartResponse, StopResponse, post_with_retry,
}
use parking_fee_service.ParkingOperatorAdaptor.Operator.Retries.{
  expected, first_settled, judge, post_with_retry_lem,
}
use parking_fee_service.ParkingOperatorAdaptor.EventLoop
use parking_fee_service.ParkingOperatorAdaptor.GrpcServer
use parking_fee_service.ParkingOperatorAdaptor.GrpcServer.{status_already_exists}
use parking_fee_service.ParkingOperatorAdaptor.GrpcServer.Start.{start_session_lem}
use parking_fee_service.ParkingOperatorAdaptor.EventLoop.{
  Env, World, SessionEvent, lock_changed, manual_start, manual_stop, published,
  signal_session_active, handle, run_event_loop, start_reply, already_exists,
}
use parking_fee_service.ParkingOperatorAdaptor.EventLoop.Protocol.{
  IsCoherent, run_event_loop-IsCoherent,
}

abbrev started_session : StartResponse ℕ
started_session = record {
  session_id = "s-1";
  status = "active";
  rate = record { rate_type = "per_hour"; amount = 2; currency = "EUR" };
}

abbrev stopped_session : StopResponse ℕ
stopped_session = record {
  session_id = "s-1";
  status = "completed";
  duration_seconds = 60;
  total_amount = 2;
  currency = "EUR";
}

-- An operator that accepts all requests.
abbrev env : Env ℕ
env = record {
  operator = record {
    start_session = λ log vehicle_id zone_id. ok started_session;
    stop_session = λ log session_id. ok stopped_session;
  };
  broker = record { set_bool = λ log signal value. ok tt };
  clock = λ k. some k;
}

abbrev events : List SessionEvent
events = lock_changed true ∷ manual_start "zone-b" ∷ lock_changed false ∷ manual_stop ∷ []

run_event_loop-IsCoherent_example :
    IsCoherent
      (run_event_loop env "v-1" "zone-a" (published signal_session_active false ∷ []) 0 events).1
run_event_loop-IsCoherent_example = run_event_loop-IsCoherent env "v-1" "zone-a" 0 events

abbrev parked : SessionState ℕ
parked = record {
  session_id = "s-1";
  zone_id = "zone-a";
  start_time = pos 7;
  rate = record { rate_type = "per_hour"; amount = 2; currency = "EUR" };
  active = true;
}

abbrev during : World ℕ
during = record { session = record { state = some parked }; log = []; reads = 0 }

start_session_lem_example :
    (GrpcServer.start_session env "v-1" "zone-a" "zone-b" [] during).0
    ≡ err (status_already_exists "session already active: s-1")
unfolding EventLoop.session_id_of Session.is_active
start_session_lem_example = start_session_lem env "v-1" "zone-a" "zone-b" during

-- Two requests fail, the third is answered.
abbrev flaky : ℕ → Result (Response ℕ) String
flaky k =
    if leb 2 k
    then ok (record { is_success = true; status = "200"; json = ok 5 })
    else ok (record { is_success = false; status = "503"; json = err "none" })

post_with_retry_lem_example :
    post_with_retry flaky ≡ expected (first_settled (λ k. judge (flaky k)) 4 0)
post_with_retry_lem_example = post_with_retry_lem flaky

-- The amount of the tests, in full units.
abbrev price : ℕ
price = 2

parking_tests_hold_example :
    (session_state_consistency price (true ∷ false ∷ true ∷ []) ≡ true)
    × (idempotent_lock_events price (λ k. some k) 2 3 ≡ true)
    × (override_non_persistence price (λ k. some k) true ≡ true)
    × (retry_exhaustion_safety price (λ k. some k) 2 ≡ true)
    × (session_active_consistency price (λ k. some k) (true ∷ false ∷ true ∷ []) ≡ true)
    × (sequential_event_processing price (λ k. some k) (lock_event ∷ stop_event ∷ []) ≡ true)
parking_tests_hold_example =
    parking_tests_hold price (λ k. some k) (true ∷ false ∷ true ∷ []) 2 3 true
      (lock_event ∷ stop_event ∷ [])
