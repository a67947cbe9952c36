-- ===== src/ParkingOperatorAdaptor/Testing/Properties/Hold.antt =====
-- The property tests of rhivos/parking-operator-adaptor hold of all inputs.
use parking_fee_service.Prelude.{
  ℕ, zero, suc, ◌≡◌, refl, Bool, true, false, Option, none, some, List, [], ◌∷◌, arith, Bool-cases,
  inl, inr, String, ◌&&◌, not, ap, ◌∙◌,
}
use parking_fee_service.ParkingOperatorAdaptor.Session
use parking_fee_service.ParkingOperatorAdaptor.Session.{Session, SessionState}
use parking_fee_service.ParkingOperatorAdaptor.EventLoop.{
  World, process_lock_event, process_manual_start, process_manual_stop, start_session, stop_session,
  set_bool, unix_timestamp, set_session,
}
use parking_fee_service.ParkingOperatorAdaptor.Testing.{
  new_operator, new_broker, on_start_success, on_start_return, on_stop_success, on_stop_return,
  mock_operator, mock_broker, last_set_bool, set_bool_calls, publications, start_call_count,
  stop_call_count, stop_calls,
}
use parking_fee_service.ParkingOperatorAdaptor.Testing.Properties.{
  Kind, lock_event, unlock_event, start_event, stop_event, is_some, apply_ops,
  session_state_consistency, lock_with, start_with, stop_with, lock_unanswered,
  idempotent_lock_events, override_non_persistence, retry_exhaustion_safety, shows_active,
  session_active_consistency, process, process_all, sequential_event_processing, start_world,
  will_start, will_stop,
}

-- The session is there just if it is active.
abbrev IsSound : {F : Type 0} → Session F → Type 0
IsSound s = Session.is_active s ≡ is_some (Session.status s)

module _ {F : Type 0} (price : F) where
  abbrev matches : Option Bool → Session F → Bool
  matches none s = not (Session.is_active s)
  matches (some true) s = Session.is_active s
  matches (some false) s = not (Session.is_active s)

  apply_ops-matches :
      (ops : List Bool) (last : Option Bool) (s : Session F)
      → matches last s ≡ true
      → let (last', s') = apply_ops price ops last s in matches last' s' ≡ true
  unfolding apply_ops Session.start Session.stop Session.is_active
  apply_ops-matches [] last s h = h
  apply_ops-matches (true ∷ ops) last s h = apply_ops-matches ops _ _ refl
  apply_ops-matches (false ∷ ops) last s h = apply_ops-matches ops _ _ refl

  session_holds : (ops : List Bool) → session_state_consistency price ops ≡ true
  unfolding session_state_consistency Session.new Session.is_active
  session_holds ops = ground (arith, apply_ops-matches ops none (Session.new F) refl)

module _ {F : Type 0} (price : F) (clock : ℕ → Option ℕ) where
  lock_with-keeps :
      (is_lock : Bool) (w : World F)
      → (lock_with price clock new_operator is_lock w).session ≡ w.session
  unfolding lock_with process_lock_event start_session stop_session set_bool unix_timestamp
      set_session mock_operator mock_broker new_operator new_broker on_start_success on_start_return
      on_stop_success on_stop_return last_set_bool set_bool_calls publications start_call_count
      stop_call_count stop_calls Session.is_active Session.start Session.stop
  lock_with-keeps true w = ground arith
  lock_with-keeps false w = ground arith

  -- A lock event that the operator answers, where no session is active.
  locks :
      (id : String) (w : World F)
      → Session.is_active w.session ≡ false
      → let after = lock_with price clock (will_start price clock id) true w in
        (Session.is_active after.session ≡ true)
        × (last_set_bool new_broker after.log ≡ some ("Vehicle.Parking.SessionActive", true))
  unfolding lock_with process_lock_event start_session stop_session set_bool unix_timestamp
      set_session mock_operator mock_broker new_operator new_broker on_start_success on_start_return
      on_stop_success on_stop_return last_set_bool set_bool_calls publications start_call_count
      stop_call_count stop_calls Session.is_active Session.start Session.stop
  locks id w idle = (ground arith, ground arith)

  -- An unlock event that the operator answers, where a session is active.
  unlocks :
      (id : String) (w : World F)
      → Session.is_active w.session ≡ true
      → let after = lock_with price clock (will_stop price clock id) false w in
        (Session.is_active after.session ≡ false)
        × (last_set_bool new_broker after.log ≡ some ("Vehicle.Parking.SessionActive", false))
  unfolding lock_with process_lock_event start_session stop_session set_bool unix_timestamp
      set_session mock_operator mock_broker new_operator new_broker on_start_success on_start_return
      on_stop_success on_stop_return last_set_bool set_bool_calls publications start_call_count
      stop_call_count stop_calls Session.is_active Session.start Session.stop
  unlocks id w busy = (ground arith, ground arith)

  process-IsSound :
      (event : Kind) (w : World F)
      → IsSound w.session
      → IsSound (process price clock event w).session
  unfolding process lock_with start_with stop_with process_lock_event process_manual_start
      process_manual_stop Session.status start_session stop_session set_bool unix_timestamp
      set_session mock_operator mock_broker new_operator new_broker on_start_success on_start_return
      on_stop_success on_stop_return last_set_bool set_bool_calls publications start_call_count
      stop_call_count stop_calls Session.is_active Session.start Session.stop
  process-IsSound lock_event w h = ground arith
  process-IsSound unlock_event w h = ground arith
  process-IsSound start_event w h = ground arith
  process-IsSound stop_event w h = ground arith

  manual_start :
      (id : String) (w : World F)
      → Session.is_active w.session ≡ false
      → Session.is_active (start_with price clock (will_start price clock id) w).session ≡ true
  unfolding start_with process_manual_start start_session stop_session set_bool unix_timestamp
      set_session mock_operator mock_broker new_operator new_broker on_start_success on_start_return
      on_stop_success on_stop_return last_set_bool set_bool_calls publications start_call_count
      stop_call_count stop_calls Session.is_active Session.start Session.stop
  manual_start id w idle = ground arith

  manual_stop :
      (id : String) (w : World F)
      → Session.is_active w.session ≡ true
      → Session.is_active (stop_with price clock (will_stop price clock id) w).session ≡ false
  unfolding stop_with process_manual_stop start_session stop_session set_bool unix_timestamp
      set_session mock_operator mock_broker new_operator new_broker on_start_success on_start_return
      on_stop_success on_stop_return last_set_bool set_bool_calls publications start_call_count
      stop_call_count stop_calls Session.is_active Session.start Session.stop
  manual_stop id w idle = ground arith

  lock_unanswered-keeps :
      (n : ℕ) (is_lock : Bool) (w : World F)
      → (lock_unanswered price clock n is_lock w).session ≡ w.session
  unfolding lock_unanswered
  lock_unanswered-keeps zero is_lock w = refl
  lock_unanswered-keeps (suc n) is_lock w =
      lock_unanswered-keeps n is_lock (lock_with price clock new_operator is_lock w)
      ∙ lock_with-keeps is_lock w

  idempotent_holds : (n m : ℕ) → idempotent_lock_events price clock n m ≡ true
  unfolding idempotent_lock_events start_world
  idempotent_holds n m =
      let w₁ =
        lock_with price clock (will_start price clock "sess-1") true (start_world price clock) in
      let locked = lock_unanswered price clock n true w₁ in
      let active : Session.is_active locked.session ≡ true =
        ap Session.is_active (lock_unanswered-keeps n true w₁)
        ∙ (locks "sess-1" (start_world price clock) refl).0 in
      let w₂ = lock_with price clock (will_stop price clock "sess-1") false locked in
      let idle : Session.is_active (lock_unanswered price clock m false w₂).session ≡ false =
        ap Session.is_active (lock_unanswered-keeps m false w₂)
        ∙ (unlocks "sess-1" locked active).0 in
      rw (active, idle) refl

  override_from :
      (begun : World F)
      → Session.is_active begun.session ≡ true
      → let ended = stop_with price clock (will_stop price clock "sess-m") begun in
        let locked = lock_with price clock (will_start price clock "sess-auto") true ended in
        let unlocked = lock_with price clock (will_stop price clock "sess-auto") false locked in
        (not (Session.is_active ended.session)
          && Session.is_active locked.session
          && not (Session.is_active unlocked.session))
        ≡ true
  override_from begun active =
      let ended = stop_with price clock (will_stop price clock "sess-m") begun in
      let locked = lock_with price clock (will_start price clock "sess-auto") true ended in
      let first = manual_stop "sess-m" begun active in
      let second = (locks "sess-auto" ended first).0 in
      let third = (unlocks "sess-auto" locked second).0 in rw (first, second, third) refl

  override_holds :
      (do_manual_start : Bool) → override_non_persistence price clock do_manual_start ≡ true
  unfolding override_non_persistence start_world
  override_holds true =
      override_from
        (start_with price clock (will_start price clock "sess-m") (start_world price clock))
        (manual_start "sess-m" (start_world price clock) refl)
  override_holds false =
      override_from
        (lock_with price clock (will_start price clock "sess-m") true (start_world price clock))
        (locks "sess-m" (start_world price clock) refl).0

  retry_holds : (n : ℕ) → retry_exhaustion_safety price clock n ≡ true
  unfolding retry_exhaustion_safety start_world
  retry_holds n =
      let kept : Session.is_active
            (lock_unanswered price clock n true (start_world price clock)).session
          ≡ false =
        ap Session.is_active (lock_unanswered-keeps n true (start_world price clock)) in
      rw kept refl

  shows_active_lem : (ops : List Bool) (w : World F) → shows_active price clock ops w ≡ true
  unfolding shows_active
  shows_active_lem [] w = refl
  shows_active_lem (true ∷ ops) w = elim (Bool-cases (Session.is_active w.session)) [
    | inl busy ↦ rw busy (shows_active_lem ops w)
    | inr idle ↦ rw (idle, (locks "sess-1" w idle).1) (shows_active_lem ops _)
  ]
  shows_active_lem (false ∷ ops) w = elim (Bool-cases (Session.is_active w.session)) [
    | inl busy ↦ rw (busy, (unlocks "sess-1" w busy).1) (shows_active_lem ops _)
    | inr idle ↦ rw idle (shows_active_lem ops w)
  ]

  process_all-IsSound :
      (events : List Kind) (w : World F)
      → IsSound w.session
      → IsSound (process_all price clock events w).session
  unfolding process_all
  process_all-IsSound [] w h = h
  process_all-IsSound (event ∷ events) w h =
      process_all-IsSound events _ (process-IsSound event w h)

  sequential_holds : (events : List Kind) → sequential_event_processing price clock events ≡ true
  unfolding sequential_event_processing Session.new Session.status
  sequential_holds events =
      ground (arith, process_all-IsSound events (start_world price clock) refl)

  -- Every property test of the crate holds of all its inputs, and not only of those it draws, whatever the amount
  -- and the readings of the clock.
  pub parking_tests_hold :
      (ops : List Bool) (n m : ℕ) (do_manual_start : Bool) (events : List Kind)
      → (session_state_consistency price ops ≡ true)
        × (idempotent_lock_events price clock n m ≡ true)
        × (override_non_persistence price clock do_manual_start ≡ true)
        × (retry_exhaustion_safety price clock n ≡ true)
        × (session_active_consistency price clock ops ≡ true)
        × (sequential_event_processing price clock events ≡ true)
  unfolding session_active_consistency
  parking_tests_hold ops n m do_manual_start events = (
    session_holds price ops,
    idempotent_holds n m,
    override_holds do_manual_start,
    retry_holds n,
    shows_active_lem ops (start_world price clock),
    sequential_holds events,
  )
