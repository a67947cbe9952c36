-- ===== src/UpdateService/Install/Single.antt =====
-- The single adapter constraint at the moment an installation is accepted.
use parking_fee_service.Prelude.Text.{is_empty}
use parking_fee_service.Prelude.{
  ap, ◌⊎◌, inl, inr, ok, err, true, refl, none, Option, Result-cases, eq_iff, String, ◌∷◌, ◌≡◌, ◌≢◌,
  some, Bool-cases, arith, ◌==◌, false,
}
use parking_fee_service.UpdateService.Adapter.{
  derive_adapter_id, downloading, AdapterState, running, stopped, error, AdapterEntry,
}
use parking_fee_service.UpdateService.Podman.{PodmanCall}
use parking_fee_service.UpdateService.StateManager.{enter, get_running_adapter}
use parking_fee_service.UpdateService.StateManager.Invariant.{IsValid}
use parking_fee_service.UpdateService.StateManager.Running.{
  IsSingle, IsIdle, get_running_adapter-none, get_running_adapter-some,
}
use parking_fee_service.UpdateService.World.{
  install_task, gets, spawn, Env, World, stop, transition, create_adapter,
}
use parking_fee_service.UpdateService.Install.{
  invalid_argument, InstallReply, fresh_entry, install_adapter, stop_running,
}
use parking_fee_service.UpdateService.World.Laws.{
  entry-transition_self, entry-create_adapter, entry, entry-transition,
}

abbrev stopping : World → AdapterEntry → World
stopping w a = record w { calls = PodmanCall.stop a.adapter_id ∷ w.calls }

-- A transition to a state other than RUNNING leaves an idle service idle.
IsIdle-transition :
    (env : Env) (id : String) (st : AdapterState) (msg : Option String) (w : World)
    → st ≢ running
    → IsIdle w.mgr
    → IsIdle (transition env id st msg w).1.mgr
unfolding enter
IsIdle-transition env id st msg w ne idle j a found r = elim (Bool-cases (id == j)) [
  | inr other ↦ idle j a (ground (arith, entry-transition env id j st msg w)) r
  | inl same ↦ ground (arith, entry-transition env id j st msg w)
]

-- Moving the one running adapter away leaves none running.
IsIdle-away :
    (env : Env) (id : String) (st : AdapterState) (msg : Option String) (w : World)
    (a : AdapterEntry)
    → st ≢ running
    → IsSingle w.mgr
    → entry id w ≡ some a
    → a.state ≡ running
    → IsIdle (transition env id st msg w).1.mgr
unfolding enter
IsIdle-away env id st msg w a ne single here now j b found r = elim (Bool-cases (id == j)) [
  | inl same ↦ ground (arith, entry-transition env id j st msg w)
  | inr other ↦
      let unmoved : entry j w ≡ some b = ground (arith, entry-transition env id j st msg w) in
      absurd (ground (arith, single id j a b here unmoved now r, eq_iff id j))
]

IsIdle-create_adapter :
    (fresh : AdapterEntry) (w : World)
    → fresh.state ≢ running
    → IsIdle w.mgr
    → IsIdle (create_adapter fresh w).1.mgr
IsIdle-create_adapter fresh w ne idle j a found r = elim (Bool-cases (fresh.adapter_id == j)) [
  | inr other ↦ idle j a (ground (arith, entry-create_adapter fresh j w)) r
  | inl same ↦ ground (arith, entry-create_adapter fresh j w)
]

-- After the constraint has been enforced, no adapter runs, whether podman could stop it or not.
IsIdle-stop_running :
    (env : Env) (w : World) (active : Option AdapterEntry)
    → IsValid w.mgr
    → IsSingle w.mgr
    → get_running_adapter w.mgr ≡ active
    → IsIdle (stop_running env active w).1.mgr
unfolding stop_running stop
IsIdle-stop_running env w none v single h = get_running_adapter-none w.mgr h
IsIdle-stop_running env w (some a) v single h =
    let (now, here) = get_running_adapter-some w.mgr a v h in
    elim (Result-cases (env.podman.stop w.calls a.adapter_id)) [
      | inl (_, done) ↦
          rw done
            (IsIdle-away env a.adapter_id stopped none (stopping w a) a (λ e. cc) single here now)
      | inr (x, failed) ↦ rw failed (
          IsIdle-away env a.adapter_id error (some x.message) (stopping w a) a (λ e. cc) single here
            now)
    ]

-- What an accepted installation has done.
pub record IsAccepted (job_id image_ref checksum : String) (before after : World)
    (reply : InstallReply) : Type 0 where
  pub idle : IsIdle after.mgr
  pub now : AdapterEntry
  pub present : entry (derive_adapter_id image_ref) after ≡ some now
  pub state : now.state ≡ downloading
  pub image : now.image_ref ≡ image_ref
  pub requested : now.checksum_sha256 ≡ checksum
  pub answered :
      reply
      ≡ record { job_id = job_id; adapter_id = derive_adapter_id image_ref; state = downloading }
  pub spawned :
      after.spawned ≡ install_task (derive_adapter_id image_ref) image_ref checksum ∷ before.spawned

-- What the handler does after the adapter that ran was stopped.
module _ (env : Env) (job_id image_ref checksum : String) (w : World) where
  abbrev adapter_id : String
  adapter_id = derive_adapter_id image_ref

  abbrev created : World
  created = (create_adapter (fresh_entry job_id adapter_id image_ref checksum) w).1

  accepted_entry :
      entry adapter_id (transition env adapter_id downloading none created).1
      ≡ some (
          enter
            (env.clock w.reads)
            downloading
            none
            (fresh_entry job_id adapter_id image_ref checksum))
  unfolding create_adapter fresh_entry
  accepted_entry =
      entry-transition_self env adapter_id downloading none created
        (fresh_entry job_id adapter_id image_ref checksum)
        (ground (
          arith,
          entry-create_adapter (fresh_entry job_id adapter_id image_ref checksum) adapter_id w,
          eq_iff adapter_id adapter_id,
        ))

  accepted-IsIdle : IsIdle w.mgr → IsIdle (transition env adapter_id downloading none created).1.mgr
  unfolding fresh_entry
  accepted-IsIdle idle =
      IsIdle-transition env adapter_id downloading none created (λ e. cc)
        (IsIdle-create_adapter (fresh_entry job_id adapter_id image_ref checksum) w (λ e. cc) idle)

spawned-stop_running :
    (env : Env) (active : Option AdapterEntry) (w : World)
    → (stop_running env active w).1.spawned ≡ w.spawned
unfolding stop_running stop transition
spawned-stop_running env none w = refl
spawned-stop_running env (some a) w = elim (Result-cases (env.podman.stop w.calls a.adapter_id)) [
  | inl (_, done) ↦ rw done refl
  | inr (x, failed) ↦ rw failed refl
]

-- A request with an image and a checksum, to a service where at most one adapter runs, is accepted:
-- no adapter runs any more, the image's adapter has an entry in state DOWNLOADING with the image and the
-- checksum, the reply names the job, the adapter and that state, and the one task spawned is the
-- adapter's installation.
pub install_adapter_accepts :
    (env : Env) (job_id image_ref checksum : String) (w : World)
    → is_empty image_ref ≡ false
    → is_empty checksum ≡ false
    → IsValid w.mgr
    → IsSingle w.mgr
    → (reply : InstallReply) × ((install_adapter env job_id image_ref checksum w).0 ≡ ok reply)
      × IsAccepted job_id image_ref checksum w
          (install_adapter env job_id image_ref checksum w).1
          reply
unfolding install_adapter gets spawn fresh_entry transition create_adapter enter
install_adapter_accepts env job_id image_ref checksum w h k v single =
    let stopped_world = (stop_running env (get_running_adapter w.mgr) w).1 in
    rw (h, k)
      (
        record { job_id = job_id; adapter_id = derive_adapter_id image_ref; state = downloading },
        refl,
        record {
          idle =
              accepted-IsIdle env job_id image_ref checksum stopped_world
                (IsIdle-stop_running env w (get_running_adapter w.mgr) v single refl);
          now =
              enter (env.clock stopped_world.reads) downloading none
                (fresh_entry job_id (derive_adapter_id image_ref) image_ref checksum);
          present = accepted_entry env job_id image_ref checksum stopped_world;
          state = refl;
          image = refl;
          requested = refl;
          answered = refl;
          spawned =
              ap (λ l. install_task (derive_adapter_id image_ref) image_ref checksum ∷ l)
                (spawned-stop_running env (get_running_adapter w.mgr) w);
        },
      )

-- A request without an image or without a checksum is refused, and changes nothing at all.
pub install_adapter_refuses :
    (env : Env) (job_id image_ref checksum : String) (w : World)
    → (is_empty image_ref ≡ true) ⊎ (is_empty checksum ≡ true)
    → (msg : String) × (install_adapter env job_id image_ref checksum w
        ≡ (err (invalid_argument msg), w))
unfolding install_adapter
install_adapter_refuses env job_id image_ref checksum w h = elim (Bool-cases (is_empty image_ref)) [
  | inl missing ↦ ("image_ref is required", rw missing refl)
  | inr given ↦ ("checksum_sha256 is required", ground arith)
]
