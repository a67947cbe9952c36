-- ===== src/ParkingOperatorAdaptor/Testing/Properties.antt =====
-- rhivos/parking-operator-adaptor/src/proptest_cases.rs: each property test as a Boolean test of its
-- inputs. `price` is the amount 2.50 of the tests.
pub mod Hold
use parking_fee_service.Prelude.{
  ℕ, zero, suc, String, Bool, true, false, not, ◌&&◌, Option, none, some, List, [], ◌∷◌,
  if◌then◌else◌, ◌==◌,
}
use parking_fee_service.Prelude.Number.{pos}
use parking_fee_service.ParkingOperatorAdaptor.Session
use parking_fee_service.ParkingOperatorAdaptor.Session.{Rate, Session}
use parking_fee_service.ParkingOperatorAdaptor.EventLoop.{
  Env, World, process_lock_event, process_manual_start, process_manual_stop,
}
use parking_fee_service.ParkingOperatorAdaptor.Testing.{
  MockOperatorClient, new_operator, new_broker, on_start_success, on_stop_success, mock_operator,
  mock_broker, last_set_bool,
}

-- The events of `proptest_sequential_event_processing`.
pub data Kind : Type 0 where
  lock_event unlock_event start_event stop_event : Kind

-- `Option` of a recorded call against what is expected.
abbrev is_call : Option (String × Bool) → String → Bool → Bool
is_call none signal value = false
is_call (some (s, true)) signal true = s == signal
is_call (some (s, false)) signal false = s == signal
is_call (some _) signal _ = false

abbrev pub is_some : {A : Type 0} → Option A → Bool
is_some none = false
is_some (some x) = true

module _ {F : Type 0} (price : F) where
  -- `sample_rate`
  unfoldable pub sample_rate : Rate F
  sample_rate = record { rate_type = "per_hour"; amount = price; currency = "EUR" }

  -- The loop of `proptest_session_state_consistency`.
  unfoldable pub apply_ops : List Bool → Option Bool → Session F → Option Bool × Session F
  unfolding sample_rate Session.start Session.stop
  apply_ops [] last s = (last, s)
  apply_ops (true ∷ ops) last s =
      apply_ops ops (some true) (Session.start "s1" "zone-a" (pos 1700000000) sample_rate)
  apply_ops (false ∷ ops) last s = apply_ops ops (some false) (Session.stop s).1

  -- `proptest_session_state_consistency`
  unfoldable pub session_state_consistency : List Bool → Bool
  unfolding apply_ops Session.new Session.is_active
  session_state_consistency ops =
      let (last, s) = apply_ops ops none (Session.new F) in
      elim last [
        | none ↦ not (Session.is_active s)
        | some was_start ↦ if was_start then Session.is_active s else not (Session.is_active s)
      ]

module _ {F : Type 0} (price : F) (clock : ℕ → Option ℕ) where
  -- `let operator = MockOperatorClient::new(); let broker = MockBrokerClient::new();`
  abbrev pub test_env : MockOperatorClient F → Env F
  test_env mock = record {
    operator = mock_operator mock;
    broker = mock_broker new_broker;
    clock = clock;
  }

  -- Fresh doubles have recorded nothing.
  abbrev pub fresh : World F → World F
  fresh w = record w { log = [] }

  abbrev pub start_world : World F
  unfolding Session.new
  start_world = record { session = Session.new F; log = []; reads = 0 }

  -- `operator.on_start_success(id, "per_hour", 2.50, "EUR")` and `operator.on_stop_success(id, 3600, 2.50, "EUR")`
  abbrev pub will_start : String → MockOperatorClient F
  will_start id = on_start_success id "per_hour" price "EUR" new_operator

  abbrev pub will_stop : String → MockOperatorClient F
  will_stop id = on_stop_success id 3600 price "EUR" new_operator

  -- One event with doubles of its own.
  unfoldable pub lock_with : MockOperatorClient F → Bool → World F → World F
  unfolding process_lock_event mock_operator mock_broker
  lock_with mock is_lock w = (process_lock_event (test_env mock) "VIN" "zone" is_lock (fresh w)).1

  unfoldable pub start_with : MockOperatorClient F → World F → World F
  unfolding process_manual_start mock_operator mock_broker
  start_with mock w = (process_manual_start (test_env mock) "VIN" "zone" (fresh w)).1

  unfoldable pub stop_with : MockOperatorClient F → World F → World F
  unfolding process_manual_stop mock_operator mock_broker
  stop_with mock w = (process_manual_stop (test_env mock) (fresh w)).1

  -- Events of the lock whose operator has no answer configured.
  unfoldable pub lock_unanswered : ℕ → Bool → World F → World F
  unfolding lock_with new_operator
  lock_unanswered zero is_lock w = w
  lock_unanswered (suc n) is_lock w = lock_unanswered n is_lock (lock_with new_operator is_lock w)

  -- `proptest_idempotent_lock_events`, with `n + 1` lock events and `m + 1` unlock events
  unfoldable pub idempotent_lock_events : ℕ → ℕ → Bool
  unfolding lock_unanswered on_start_success on_stop_success Session.is_active
  idempotent_lock_events n m =
      let locked = lock_unanswered n true (lock_with (will_start "sess-1") true start_world) in
      let unlocked = lock_unanswered m false (lock_with (will_stop "sess-1") false locked) in
      Session.is_active locked.session && not (Session.is_active unlocked.session)

  -- `proptest_override_non_persistence`
  unfoldable pub override_non_persistence : Bool → Bool
  unfolding lock_with start_with stop_with on_start_success on_stop_success Session.is_active
  override_non_persistence do_manual_start =
      let begun =
        if do_manual_start
        then start_with (will_start "sess-m") start_world
        else lock_with (will_start "sess-m") true start_world in
      let ended = stop_with (will_stop "sess-m") begun in
      let locked = lock_with (will_start "sess-auto") true ended in
      let unlocked = lock_with (will_stop "sess-auto") false locked in
      not (Session.is_active ended.session)
      && Session.is_active locked.session
      && not (Session.is_active unlocked.session)

  -- `proptest_retry_exhaustion_safety`
  unfoldable pub retry_exhaustion_safety : ℕ → Bool
  unfolding lock_unanswered Session.is_active
  retry_exhaustion_safety n = not (Session.is_active (lock_unanswered n true start_world).session)

  -- The loop of `proptest_session_active_consistency`.
  unfoldable pub shows_active : List Bool → World F → Bool
  unfolding lock_with on_start_success on_stop_success Session.is_active last_set_bool
  shows_active [] w = true
  shows_active (true ∷ ops) w =
      let w' = lock_with (will_start "sess-1") true w in
      let rest = shows_active ops w' in
      let idle = shows_active ops w in
      if Session.is_active w.session
      then idle
      else is_call (last_set_bool new_broker w'.log) "Vehicle.Parking.SessionActive" true && rest
  shows_active (false ∷ ops) w =
      let w' = lock_with (will_stop "sess-1") false w in
      let rest = shows_active ops w' in
      let idle = shows_active ops w in
      if Session.is_active w.session
      then is_call (last_set_bool new_broker w'.log) "Vehicle.Parking.SessionActive" false && rest
      else idle

  -- `proptest_session_active_consistency`
  unfoldable pub session_active_consistency : List Bool → Bool
  unfolding shows_active
  session_active_consistency ops = shows_active ops start_world

  -- The mock of an event: it answers a start where no session is active, and a stop where one is.
  abbrev pub mock_for : Bool → World F → MockOperatorClient F
  unfolding Session.is_active
  mock_for starts w =
      if starts
      then (if Session.is_active w.session then new_operator else will_start "sess-1")
      else if Session.is_active w.session
      then will_stop "sess-1"
      else new_operator

  -- The body of the loop of `proptest_sequential_event_processing`.
  unfoldable pub process : Kind → World F → World F
  unfolding lock_with start_with stop_with
  process lock_event w = lock_with (mock_for true w) true w
  process unlock_event w = lock_with (mock_for false w) false w
  process start_event w = start_with (mock_for true w) w
  process stop_event w = stop_with (mock_for false w) w

  unfoldable pub process_all : List Kind → World F → World F
  unfolding process
  process_all [] w = w
  process_all (event ∷ events) w = process_all events (process event w)

  -- `proptest_sequential_event_processing`
  unfoldable pub sequential_event_processing : List Kind → Bool
  unfolding process_all Session.is_active Session.status
  sequential_event_processing events =
      let s = (process_all events start_world).session in
      if Session.is_active s then is_some (Session.status s) else not (is_some (Session.status s))
