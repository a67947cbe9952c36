-- ===== src/ParkingOperatorAdaptor/EventLoop/Protocol.antt =====
-- The event loop keeps to the operator's protocol, and the broker shows the session.
use parking_fee_service.Prelude.{
  ℕ, ok, if◌then◌else◌, err, String, ◌≡◌, Bool, true, false, Option, none, some, List, [], ◌∷◌,
  arith, refl,
}
use parking_fee_service.ParkingOperatorAdaptor.Session
use parking_fee_service.ParkingOperatorAdaptor.Session.{SessionState, Session}
use parking_fee_service.ParkingOperatorAdaptor.Operator.{StartResponse, StopResponse}
use parking_fee_service.ParkingOperatorAdaptor.EventLoop.{
  session_id_of, start_reply, stop_reply, already_exists, failed_precondition, run_event_loop,
  Request, started, start_failed, stopped, stop_failed, published, Env, World,
  signal_session_active, start_session, stop_session, set_bool, unix_timestamp, set_session,
  SessionEvent, lock_changed, manual_start, manual_stop, query_status, query_rate, handle, run_from,
}

-- The session that is open at the operator, by the requests that it has confirmed.
abbrev pub open_session : List Request → Option String
open_session [] = none
open_session (started id ∷ log) = some id
open_session (start_failed ∷ log) = open_session log
open_session (stopped id ∷ log) = none
open_session (stop_failed id ∷ log) = open_session log
open_session (published _ _ ∷ log) = open_session log

abbrev pub is_open : Option String → Bool
is_open none = false
is_open (some _) = true

-- A start is only requested while no session is open, a stop only for the open session, and what is
-- published is whether a session is open.
abbrev pub IsProtocol : List Request → Type 0
IsProtocol [] = Unit
IsProtocol (started id ∷ log) = (open_session log ≡ none) × IsProtocol log
IsProtocol (start_failed ∷ log) = (open_session log ≡ none) × IsProtocol log
IsProtocol (stopped id ∷ log) = (open_session log ≡ some id) × IsProtocol log
IsProtocol (stop_failed id ∷ log) = (open_session log ≡ some id) × IsProtocol log
IsProtocol (published signal value ∷ log) =
    (signal ≡ signal_session_active) × (value ≡ is_open (open_session log)) × IsProtocol log

-- The value published last.
abbrev pub shown : List Request → Option Bool
shown [] = none
shown (started _ ∷ log) = shown log
shown (start_failed ∷ log) = shown log
shown (stopped _ ∷ log) = shown log
shown (stop_failed _ ∷ log) = shown log
shown (published _ value ∷ log) = some value

module _ {F : Type 0} where
  abbrev pub known_id : Option (SessionState F) → Option String
  known_id none = none
  known_id (some st) = some st.session_id

  abbrev pub known_active : Option (SessionState F) → Bool
  known_active none = true
  known_active (some st) = st.active

  -- What holds between two events.
  pub record IsCoherent (w : World F) : Type 0 where
    pub known : known_id w.session.state ≡ open_session w.log
    pub live : known_active w.session.state ≡ true
    pub protocol : IsProtocol w.log
    pub visible : shown w.log ≡ some (is_open (open_session w.log))

  module _ (env : Env F) (vehicle_id zone_id : String) where
    handle-IsCoherent :
        (event : SessionEvent) (w : World F)
        → IsCoherent w
        → IsCoherent (handle env vehicle_id zone_id event w).1
    unfolding handle start_session stop_session set_bool unix_timestamp set_session
        Session.is_active Session.start Session.stop
    handle-IsCoherent (lock_changed true) w c = ground arith
    handle-IsCoherent (lock_changed false) w c = ground arith
    handle-IsCoherent (manual_start z) w c = ground arith
    handle-IsCoherent manual_stop w c = ground arith
    handle-IsCoherent query_status w c = c
    handle-IsCoherent query_rate w c = c

    run_from-IsCoherent :
        (events : List SessionEvent) (w : World F)
        → IsCoherent w
        → IsCoherent (run_from env vehicle_id zone_id events w).1
    unfolding run_from
    run_from-IsCoherent [] w c = c
    run_from-IsCoherent (event ∷ events) w c =
        run_from-IsCoherent events (handle env vehicle_id zone_id event w).1
          (handle-IsCoherent event w c)

-- The loop that `main` starts, after it has published that no session is active: for all events and
-- all answers of the operator and the broker, a start is requested only while no session is open at the
-- operator, a stop only for the session that is open, the session that the adaptor holds is the open
-- one and is active, and the value published last says whether one is open.
pub run_event_loop-IsCoherent :
    {F : Type 0} (env : Env F) (vehicle_id zone_id : String) (reads : ℕ)
    (events : List SessionEvent)
    → IsCoherent
        (run_event_loop env vehicle_id zone_id
          (published signal_session_active false ∷ [])
          reads
          events).1
unfolding run_event_loop Session.new
run_event_loop-IsCoherent env vehicle_id zone_id reads events =
    run_from-IsCoherent env vehicle_id zone_id events
      (record {
        session = record { state = none };
        log = published signal_session_active false ∷ [];
        reads = reads;
      })
      (record { known = refl; live = refl; protocol = (refl, refl, tt); visible = refl })

-- An operator that accepts every request.
pub record Accepts {F : Type 0} (env : Env F) : Type 0 where
  pub starts :
      (log : List Request) (vehicle_id zone_id : String)
      → (resp : StartResponse F) × (env.operator.start_session log vehicle_id zone_id ≡ ok resp)
  pub stops :
      (log : List Request) (session_id : String)
      → (resp : StopResponse F) × (env.operator.stop_session log session_id ≡ ok resp)

-- With an operator that accepts every request, the door's lock decides whether a session is active:
-- after a lock event one is, after an unlock event none is, whatever happened before.
pub lock_changed_decides :
    {F : Type 0} (env : Env F) (vehicle_id zone_id : String) (is_locked : Bool) (w : World F)
    → Accepts env
    → Session.is_active (handle env vehicle_id zone_id (lock_changed is_locked) w).1.session
      ≡ is_locked
unfolding handle start_session stop_session set_bool unix_timestamp set_session Session.is_active
    Session.start Session.stop
lock_changed_decides env vehicle_id zone_id true w a =
    ground (arith, (a.starts w.log vehicle_id zone_id).1)
lock_changed_decides env vehicle_id zone_id false w a =
    ground (arith, (a.stops w.log (session_id_of env w.session)).1)

-- A start by hand while a session is active is refused with the identifier of that session, a stop by
-- hand without an active one as well, and neither changes anything or reaches the operator.
manual_refused :
    {F : Type 0} (env : Env F) (vehicle_id zone_id z : String) (w : World F) (st : SessionState F)
    → w.session.state ≡ some st
    → handle env vehicle_id zone_id (if st.active then manual_start z else manual_stop) w ≡ (
        if st.active
        then (start_reply (err (already_exists st.session_id)), w)
        else (stop_reply (err failed_precondition), w))
unfolding handle Session.is_active
manual_refused env vehicle_id zone_id z w st h = ground arith
