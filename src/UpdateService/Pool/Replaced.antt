-- ===== src/UpdateService/Pool/Replaced.antt =====
-- What becomes of an adapter that an installation stops, and that its monitor still waits for.
use parking_fee_service.Prelude.{
  String, ◌≡◌, ◌∙◌, refl, sym, false, none, some, List, ◌∷◌, [], ok, ◌==◌, Bool-cases, inl, inr,
  if◌then◌else◌, ◌<>◌, subst, ℕ, ◌++◌,
}
use parking_fee_service.Prelude.Number.{ℤ, is_zero, show_ℤ}
use parking_fee_service.UpdateService.Adapter.{
  AdapterState, AdapterEntry, derive_adapter_id, downloading, stopped, error,
}
use parking_fee_service.UpdateService.StateManager.{enter}
use parking_fee_service.UpdateService.Install.{fresh_entry, record_stop}
use parking_fee_service.UpdateService.Monitor.{record_exit}
use parking_fee_service.UpdateService.World.{
  Env, World, stop, wait, transition, create_adapter, spawn,
}
use parking_fee_service.UpdateService.World.Laws.{
  entry, entry-transition_self, entry-transition_other, entry-create_adapter,
}
use parking_fee_service.UpdateService.Pool.{Task, stopping, waiting, pulling, resume, accept}
use parking_fee_service.UpdateService.Pool.Schedule.{
  Pool, Move, go, exec, step, step-go, advance, pick, clear,
}

-- The adapter is in the state, if the service has it.
pub record IsIn (id : String) (state : AdapterState) (w : World) : Type 0 where
  pub adapter : AdapterEntry
  pub found : entry id w ≡ some adapter
  pub there : adapter.state ≡ state

module _ (env : Env) (job image_ref checksum old : String) (w : World) (e : AdapterEntry)
    (found : entry old w ≡ some e) (other : (derive_adapter_id image_ref == old) ≡ false)
    (stops : env.podman.stop w.calls old ≡ ok tt) where
  replaced :
      entry old (resume env (stopping job image_ref checksum old) w).1
      ≡ some (enter (env.clock w.reads) stopped none e)
  unfolding resume accept stop record_stop spawn fresh_entry
  replaced =
      let w₁ : World = (stop env old w).1 in
      let w₂ : World = (transition env old stopped none w₁).1 in
      let fresh : AdapterEntry = fresh_entry job (derive_adapter_id image_ref) image_ref checksum in
      let w₃ : World = (create_adapter fresh w₂).1 in
      rw stops (
        entry-transition_other env (derive_adapter_id image_ref) old downloading none w₃ other
        ∙ entry-create_adapter fresh old w₂
        ∙ rw other (entry-transition_self env old stopped none w₁ e found))

-- The monitor of an adapter moves it to STOPPED or ERROR, as the container's exit code says.
record_exit-IsIn :
    (env : Env) (old : String) (code : ℤ) (w : World) (e : AdapterEntry)
    → entry old w ≡ some e
    → IsIn old (if is_zero code then stopped else error) (record_exit env old (ok code) w).1
unfolding record_exit enter
record_exit-IsIn env old code w e found = elim (Bool-cases (is_zero code)) [
  | inl zero_code ↦ rw zero_code (record {
    adapter = enter (env.clock w.reads) stopped none e;
    found = entry-transition_self env old stopped none w e found;
    there = refl;
  })
  | inr other_code ↦ rw other_code (record {
    adapter =
        enter (env.clock w.reads) error (some ("container exited with code " <> show_ℤ code)) e;
    found =
        entry-transition_self env old error (some ("container exited with code " <> show_ℤ code)) w
          e found;
    there = refl;
  })
]

exec-append :
    (env : Env) (xs ys : List Move) (p : Pool) → exec env (xs ++ ys) p ≡ exec env ys (exec env xs p)
unfolding exec
exec-append env [] ys p = refl
exec-append env (x ∷ xs) ys p = exec-append env xs ys (step env x p)

-- A monitor that gets the exit code, in any pool.
exit_followed :
    (env : Env) (old : String) (k : ℕ) (tasks : List Task) (e : AdapterEntry) (code : ℤ) (p : Pool)
    → pick k p.live ≡ some (waiting old, tasks)
    → entry old p.world ≡ some e
    → env.podman.wait p.world.calls old ≡ ok code
    → IsIn old (if is_zero code then stopped else error) (exec env (go k ∷ []) p).world
unfolding exec advance resume wait
exit_followed env old k tasks e code p waits found exits =
    rw (step-go env k p (waiting old) tasks waits, exits)
      (record_exit-IsIn env old code (wait env old (clear p.world)).1 e found)

module _ (env : Env) (job image_ref checksum old : String) (others : List Task) (w : World)
    (e : AdapterEntry) where
  -- The installation is about to stop the adapter, and the monitor waits for its container.
  abbrev pub replacing : Pool
  replacing = record {
    world = w;
    live = stopping job image_ref checksum old ∷ waiting old ∷ others;
  }

  stopped_world : World
  stopped_world = (resume env (stopping job image_ref checksum old) (clear w)).1

  -- After the stop the new image is pulled, and the monitor still waits.
  after_stop : Pool
  unfolding stopped_world
  after_stop = record {
    world = stopped_world;
    live = pulling (derive_adapter_id image_ref) image_ref checksum ∷ waiting old ∷ others;
  }

  step-replacing : env.podman.stop w.calls old ≡ ok tt → step env (go 0) replacing ≡ after_stop
  unfolding step pick advance resume accept stop record_stop spawn transition create_adapter
      after_stop stopped_world
  step-replacing stops = rw stops refl

  -- An installation of another adapter stops the one that runs, and podman stops it: right after, it is STOPPED, and
  -- its monitor still waits. Then requests, ticks and the steps of the tasks come in any order. Whenever that
  -- monitor gets the exit code of the container and the service has the adapter, in whatever state by then,
  -- the adapter goes to STOPPED if the code is 0, and else to ERROR, like one that failed.
  pub replaced_follows_exit :
      (moves : List Move) (k : ℕ) (tasks : List Task) (later : AdapterEntry) (code : ℤ)
      → entry old w ≡ some e
      → (derive_adapter_id image_ref == old) ≡ false
      → env.podman.stop w.calls old ≡ ok tt
      → pick k (exec env (go 0 ∷ moves) replacing).live ≡ some (waiting old, tasks)
      → entry old (exec env (go 0 ∷ moves) replacing).world ≡ some later
      → env.podman.wait (exec env (go 0 ∷ moves) replacing).world.calls old ≡ ok code
      → IsIn old stopped (exec env (go 0 ∷ []) replacing).world
        × (pick 1 (exec env (go 0 ∷ []) replacing).live
            ≡ some (waiting old, pulling (derive_adapter_id image_ref) image_ref checksum ∷ others))
        × IsIn old
            (if is_zero code then stopped else error)
            (exec env (go 0 ∷ (moves ++ go k ∷ [])) replacing).world
  unfolding exec enter after_stop stopped_world pick
  replaced_follows_exit moves k tasks later code found other stops waits known exits =
      let still = replaced env job image_ref checksum old (clear w) e found other stops in
      let there : IsIn old stopped after_stop.world = record {
        adapter = enter (env.clock w.reads) stopped none e;
        found = still;
        there = refl;
      } in
      let first = sym (step-replacing stops) in
      (
        subst (λ p. IsIn old stopped p.world) first there,
        subst
            (λ p.
              pick 1 p.live
              ≡ some
                  (waiting old, pulling (derive_adapter_id image_ref) image_ref checksum ∷ others))
            first refl,
        subst (λ p. IsIn old (if is_zero code then stopped else error) p.world)
            (sym (exec-append env (go 0 ∷ moves) (go k ∷ []) replacing))
            (exit_followed env old k tasks later code (exec env (go 0 ∷ moves) replacing) waits
              known exits),
      )
