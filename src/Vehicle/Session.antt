-- ===== src/Vehicle/Session.antt =====
-- The door's lock and the parking session.
use parking_fee_service.Prelude.{
  ◌≡◌, refl, String, Bool, true, false, some, List, [], ◌∷◌, map, merge, Result, ok, arith,
  Result-cases, inl, inr, unwrap_or, ◌∙◌, ap, sym, subst,
}
use mathlib.Core.List.{append-nil}
use parking_fee_service.Prelude.Signals
use parking_fee_service.Prelude.Signals.{TypedValue, Item, Publication, Delivers, values, bools}
use parking_fee_service.LockingService.Broker
use parking_fee_service.LockingService.Safety
use parking_fee_service.LockingService.Service
use parking_fee_service.LockingService.Service.Safety.{run-IsLockSafe}
use parking_fee_service.LockingService.Service.Writes.{
  publications, IsDone, latest, published_lock, run-IsOwn,
}
use parking_fee_service.ParkingOperatorAdaptor.Config.{Config, load_config}
use parking_fee_service.ParkingOperatorAdaptor.Broker.{connect, subscribe_bool}
use parking_fee_service.ParkingOperatorAdaptor.Session
use parking_fee_service.ParkingOperatorAdaptor.EventLoop.{
  Request, published, Reply, Env, World, lock_changed, handle, run_from, run_event_loop,
  signal_is_locked, signal_session_active, set_bool,
}
use parking_fee_service.ParkingOperatorAdaptor.EventLoop.Protocol.{
  Accepts, lock_changed_decides, IsCoherent, run_event_loop-IsCoherent, shown,
}
use parking_fee_service.ParkingOperatorAdaptor.Main.{
  RunError, Outside, run, begin, serve, forward_locks,
}
use parking_fee_service.Vehicle.Streams.{forward_bools-values}

merge_alone : {A : Type 0} (order : List Bool) (ls : List A) → merge order ls [] ≡ ls
merge_alone [] ls = append-nil ls
merge_alone (true ∷ order) [] = merge_alone order []
merge_alone (true ∷ order) (l ∷ ls) = ground (arith, merge_alone order ls)
merge_alone (false ∷ order) ls = merge_alone order ls

module _ {F : Type 0} (env : Env F) (vehicle_id zone_id : String) (accepts : Accepts env) where
  -- After lock events only, the last of them decides.
  run_from_locks :
      (locks : List Bool) (w : World F)
      → Session.is_active (run_from env vehicle_id zone_id (map lock_changed locks) w).1.session
        ≡ latest (Session.is_active w.session) locks
  unfolding run_from
  run_from_locks [] w = refl
  run_from_locks (b ∷ locks) w =
      let w' : World F = (handle env vehicle_id zone_id (lock_changed b) w).1 in
      run_from_locks locks w'
      ∙ ap (λ active. latest active locks) (lock_changed_decides env vehicle_id zone_id b w accepts)

-- The session is active exactly if one is open, and that is shown.
module _ {F : Type 0} where
  shown-is_active : (w : World F) → IsCoherent w → shown w.log ≡ some (Session.is_active w.session)
  unfolding Session.is_active
  shown-is_active w c = ground (arith, c.known, c.live, c.visible)

module _ {F : Type 0} (outside : Outside F) (items : List (Item F)) where
  -- If the adaptor has come into its loop, its session is as the lock's last value says.
  abbrev Follows : Result (List (Reply F)) RunError × World F → Type 0
  Follows r =
      (replies : List (Reply F))
      → r.0 ≡ ok replies
      → (Session.is_active r.1.session ≡ latest false (bools (values signal_is_locked items)))
        × (shown r.1.log ≡ some (Session.is_active r.1.session))

  serve-Follows :
      (config : Config) (order : List Bool) (w : World F)
      → Accepts (outside.services config)
      → w.log ≡ published signal_session_active false ∷ []
      → Follows (serve outside config order [] (ok (bools (values signal_is_locked items))) w)
  unfolding serve run_event_loop forward_locks Session.new Session.is_active
  serve-Follows config order w accepts fresh replies h =
      let env : Env F = outside.services config in
      let locks = bools (values signal_is_locked items) in
      rw (fresh, merge_alone order (map lock_changed locks))
        (
          run_from_locks env config.vehicle_id config.zone_id accepts locks (record {
            session = Session.new F;
            log = published signal_session_active false ∷ [];
            reads = w.reads;
          }),
          shown-is_active
              (run_event_loop env config.vehicle_id config.zone_id
                (published signal_session_active false ∷ []) w.reads (map lock_changed locks)).1
              (run_event_loop-IsCoherent env config.vehicle_id config.zone_id w.reads
                (map lock_changed locks)),
        )

  subscribe_bool_forwards :
      (log : List Request)
      → outside.subscribe log signal_is_locked ≡ ok items
      → subscribe_bool (outside.subscribe log) signal_is_locked
        ≡ ok (bools (values signal_is_locked items))
  unfolding subscribe_bool
  subscribe_bool_forwards log subscribed =
      rw (subscribed, subscribe_bool, forward_bools-values signal_is_locked items) refl

  begin-Follows :
      (config : Config) (order : List Bool) (w : World F)
      → Accepts (outside.services config)
      → ((log : List Request) → outside.subscribe log signal_is_locked ≡ ok items)
      → w.log ≡ []
      → Follows (begin outside config order [] (ok tt) w)
  unfolding begin set_bool
  begin-Follows config order w accepts subscribed fresh =
      let w' : World F = (set_bool (outside.services config) signal_session_active false w).1 in
      subst (λ r. Follows (serve outside config order [] r w'))
        (sym (subscribe_bool_forwards w'.log (subscribed w'.log)))
        (serve-Follows config order w' accepts (rw fresh refl))

  run-Follows :
      (order : List Bool) (w : World F)
      → ((config : Config) → Accepts (outside.services config))
      → ((log : List Request) → outside.subscribe log signal_is_locked ≡ ok items)
      → w.log ≡ []
      → Follows (run outside order [] w)
  unfolding run begin
  run-Follows order w accepts subscribed fresh = elim (Result-cases (load_config outside.vars)) [
    | inr (e, bad) ↦ rw (bad, run) (λ replies h. absurd cc)
    | inl (config, good) ↦
        elim (Result-cases (connect (outside.attempts config.data_broker_addr)).0) [
          | inr (e, bad) ↦ rw (good, run, bad) (λ replies h. absurd cc)
          | inl (x, connected) ↦
              rw (good, run, connected)
                (begin-Follows config order w (accepts config) subscribed fresh)
        ]
  ]

-- The locking service in its loop, from a broker that nothing was asked of before, none of whose writes of
-- the lock has failed; a broker that delivers what is published, where the locking service alone
-- publishes the lock; and the adaptor, started from an empty log on what that broker delivers, with an
-- operator that accepts every request, and asked for nothing by hand. If the adaptor has come into its
-- loop, then at its end its session is active exactly if the locking service's lock state says locked,
-- and that is what it has published last.
pub session_follows_lock :
    {F G : Type 0} (json : Service.Json) (locking : Safety.Env G)
    (subscribed : Result (Unit {0}) Broker.BrokerError) (events : List Service.Event)
    (w : Safety.World) (status : Service.Status)
    (deliver : List (Publication F) → String → List (Item F)) (pubs : List (Publication F))
    (outside : Outside F) (order : List Bool) (v : World F) (replies : List (Reply F))
    → w.log ≡ []
    → (Service.run json locking (ok tt) subscribed events w).0 ≡ ok status
    → IsDone (Service.run json locking (ok tt) subscribed events w).1.log
    → Delivers deliver
    → Signals.published signal_is_locked pubs
      ≡ Signals.published signal_is_locked
          (publications (Service.run json locking (ok tt) subscribed events w).1.log)
    → ((log : List Request)
        → outside.subscribe log signal_is_locked ≡ ok (deliver pubs signal_is_locked))
    → ((config : Config) → Accepts (outside.services config))
    → v.log ≡ []
    → (run outside order [] v).0 ≡ ok replies
    → (Session.is_active (run outside order [] v).1.session
        ≡ (Service.run json locking (ok tt) subscribed events w).1.lock_state)
      × (shown (run outside order [] v).1.log
          ≡ some (Service.run json locking (ok tt) subscribed events w).1.lock_state)
session_follows_lock {F = F} json locking subscribed events w status deliver pubs outside order v
      replies fresh looping done delivers alone stream accepts idle started =
    let w' : Safety.World = (Service.run json locking (ok tt) subscribed events w).1 in
    let items = deliver pubs signal_is_locked in
    let (active, visible) = run-Follows outside items order v accepts stream idle replies started in
    let own = run-IsOwn json locking (ok tt) subscribed events w fresh in
    let kept = (run-IsLockSafe json locking subscribed events w status fresh looping).written in
    let last = published_lock F false w'.log own done in
    let heard : values signal_is_locked items
        ≡ Signals.published signal_is_locked (publications w'.log) =
      delivers.at pubs signal_is_locked ∙ alone in
    let same : Session.is_active (run outside order [] v).1.session ≡ w'.lock_state =
      active
      ∙ (ap (λ vs. latest false (bools vs)) heard ∙ (last ∙ ap (λ o. unwrap_or o false) kept)) in
    (same, visible ∙ ap some same)
