-- ===== src/UpdateService/Install/Removal.antt =====
-- How `remove_adapter` ends.
use parking_fee_service.Prelude.{
  String, ◌<>◌, ◌≡◌, refl, ◌⊎◌, inl, inr, false, none, some, List, ◌∷◌, Result, ok, err,
  Result-cases, Bool-cases, ◌==◌, if◌then◌else◌,
}
use parking_fee_service.UpdateService.Adapter.{error, running, state_eq, AdapterEntry}
use parking_fee_service.UpdateService.Podman.{PodmanCall, PodmanError}
use parking_fee_service.UpdateService.StateManager.{StateManager, enter, get_adapter}
use parking_fee_service.UpdateService.World.{
  Env, World, stop, rm, rmi, remove_adapter as forget_adapter, gets,
}
use parking_fee_service.UpdateService.World.Laws.{
  entry, entry-transition_self, entry-transition_other, entry-remove_adapter_self,
  entry-remove_adapter_other,
}
use parking_fee_service.UpdateService.Install.{
  RemoveError, not_found, podman_failed, remove_adapter, after_stop, after_rmi, fail_removal,
}

-- Every other adapter has the entry that it had.
abbrev pub Untouched : String → StateManager → StateManager → Type 0
Untouched id before after =
    (j : String) → (id == j) ≡ false → get_adapter j after ≡ get_adapter j before

abbrev pub Outcome : Type 0
Outcome = Result (Unit {0}) RemoveError × World

-- The adapter is gone, and podman was called as listed.
pub record IsRemoved (id : String) (before : StateManager) (calls : List PodmanCall) (r : Outcome)
    : Type 0 where
  pub succeeded : r.0 ≡ ok tt
  pub gone : entry id r.1 ≡ none
  pub others : Untouched id before r.1.mgr
  pub called : r.1.calls ≡ calls

-- The adapter stays, in state ERROR, and its message is that of the error returned.
pub record IsStuck (id : String) (before : StateManager) (r : Outcome) : Type 0 where
  pub message : String
  pub failed : r.0 ≡ err (podman_failed message)
  pub now : AdapterEntry
  pub present : entry id r.1 ≡ some now
  pub state : now.state ≡ error
  pub reason : now.error_message ≡ some message
  pub others : Untouched id before r.1.mgr

module _ (env : Env) (id : String) (w : World) (a : AdapterEntry)
    (found : entry id w ≡ some a) where
  fail_removal-IsStuck : (e : PodmanError) → IsStuck id w.mgr (fail_removal env id e w)
  unfolding fail_removal enter
  fail_removal-IsStuck e = record {
    message = e.message;
    failed = refl;
    now = enter (env.clock w.reads) error (some e.message) a;
    present = entry-transition_self env id error (some e.message) w a found;
    state = refl;
    reason = refl;
    others = λ j other. entry-transition_other env id j error (some e.message) w other;
  }

  after_rmi_ok : IsRemoved id w.mgr w.calls (after_rmi env id (ok tt) w)
  unfolding after_rmi forget_adapter
  after_rmi_ok = record {
    succeeded = refl;
    gone = entry-remove_adapter_self id w;
    others = λ j other. entry-remove_adapter_other id j w other;
    called = refl;
  }

-- How a removal may end, `calls` being those made by then if it succeeds.
abbrev Ends : String → StateManager → List PodmanCall → Outcome → Type 0
Ends id before calls r = IsRemoved id before calls r ⊎ IsStuck id before r

module _ (env : Env) (id image_ref : String) where
  -- `podman rm` and `podman rmi`, after the container was stopped.
  after_stop-Ends :
      (w : World) (a : AdapterEntry)
      → entry id w ≡ some a
      → Ends id w.mgr
          (PodmanCall.rmi image_ref ∷ PodmanCall.rm id ∷ w.calls)
          (after_stop env id image_ref (ok tt) w)
  unfolding after_stop rm rmi
  after_stop-Ends w a found = elim (Result-cases (env.podman.rm w.calls id)) [
    | inr (x, failed) ↦ rw failed (
        inr
          (fail_removal-IsStuck env id (record w { calls = PodmanCall.rm id ∷ w.calls }) a found x))
    | inl (_, removed) ↦
        elim (Result-cases (env.podman.rmi (PodmanCall.rm id ∷ w.calls) image_ref)) [
          | inr (x, failed) ↦
              rw (removed, failed)
                (inr (
                  fail_removal-IsStuck env id
                    (record w { calls = PodmanCall.rmi image_ref ∷ PodmanCall.rm id ∷ w.calls }) a
                    found x))
          | inl (_, cleaned) ↦
              rw (removed, cleaned)
                (inl (
                  after_rmi_ok env id
                    (record w { calls = PodmanCall.rmi image_ref ∷ PodmanCall.rm id ∷ w.calls }) a
                    found))
        ]
  ]

  stopped-Ends :
      (w : World) (a : AdapterEntry)
      → entry id w ≡ some a
      → let (outcome, w') = stop env id w in
        Ends id w.mgr
          (PodmanCall.rmi image_ref ∷ PodmanCall.rm id ∷ PodmanCall.stop id ∷ w.calls)
          (after_stop env id image_ref outcome w')
  unfolding stop
  stopped-Ends w a found = elim (Result-cases (env.podman.stop w.calls id)) [
    | inr (x, failed) ↦ rw failed (
        unfold after_stop in
        inr (
          fail_removal-IsStuck env id (record w { calls = PodmanCall.stop id ∷ w.calls }) a found
            x))
    | inl (_, done) ↦
        rw done (after_stop-Ends (record w { calls = PodmanCall.stop id ∷ w.calls }) a found)
  ]

-- The calls made before `podman rm`: a running container is stopped first.
unfoldable pub stop_first : AdapterEntry → String → List PodmanCall → List PodmanCall
unfolding state_eq
stop_first a id calls = if state_eq a.state running then PodmanCall.stop id ∷ calls else calls

-- Removing an adapter that has an entry ends in one of two ways, and either way no other adapter is
-- touched. It succeeds, the entry is gone, and podman was asked to stop the container if it ran, to
-- remove it, and to remove its image, in this order. Or it fails, and the adapter keeps an entry in
-- state ERROR with the message that the error carries.
pub remove_adapter_ends :
    (env : Env) (id : String) (w : World) (a : AdapterEntry)
    → entry id w ≡ some a
    → IsRemoved id w.mgr
        (PodmanCall.rmi a.image_ref ∷ PodmanCall.rm id ∷ stop_first a id w.calls)
        (remove_adapter env id w)
      ⊎ IsStuck id w.mgr (remove_adapter env id w)
unfolding remove_adapter gets stop_first
remove_adapter_ends env id w a found = elim (Bool-cases (state_eq a.state running)) [
  | inl now ↦ rw (found, now) (stopped-Ends env id a.image_ref w a found)
  | inr other ↦ rw (found, other) (after_stop-Ends env id a.image_ref w a found)
]

-- Removing an adapter without an entry is refused: nothing changes and podman is not called.
remove_adapter_missing :
    (env : Env) (id : String) (w : World)
    → entry id w ≡ none
    → remove_adapter env id w ≡ (err (not_found ("adapter not found: " <> id)), w)
unfolding remove_adapter gets
remove_adapter_missing env id w missing = rw missing refl
