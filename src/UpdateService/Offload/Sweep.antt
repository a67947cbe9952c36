-- ===== src/UpdateService/Offload/Sweep.antt =====
-- What one cycle of the offload timer does to every adapter.
use mathlib.Core.List.{Memᴰ}
use parking_fee_service.UpdateService.StateManager.Candidates.{
  Absent-of_none, Absent, Separate, Keyed, Keyed-of_lookup, Absent-of_young, Separate-candidates,
  Present-candidates, Memᴰ-candidates,
}
use parking_fee_service.UpdateService.StateManager.{
  is_expired, StateManager, enter, get_adapter, get_offload_candidates,
}
use parking_fee_service.UpdateService.StateManager.Invariant.{IsValid}
use parking_fee_service.UpdateService.Offload.Age.{IsOld, is_expired-IsOld, is_expired-not_IsOld}
use parking_fee_service.UpdateService.World.{gets, Env, World, rm, rmi, transition, remove_adapter}
use parking_fee_service.UpdateService.Offload.{run_offload_cycle, after_rm, offload, offload_all}
use parking_fee_service.Prelude.{
  Option-cases, Bool-cases, All, ◌==◌, eq_iff, ℕ, true, false, [], refl, arith, String, ◌≡◌, sym,
  ◌∙◌, subst, inl, inr, Option, none, some, List, ◌∷◌, Result-cases,
}
use parking_fee_service.UpdateService.Adapter.{error, offloading, AdapterEntry}
use parking_fee_service.UpdateService.Podman.{PodmanCall}
use parking_fee_service.UpdateService.World.Laws.{
  entry, entry-transition_self, entry-transition_other, entry-remove_adapter_self,
  entry-remove_adapter_other,
}

-- Gone, or left in state ERROR.
pub data Swept : Option AdapterEntry → Type 0 where
  gone : Swept none
  kept : (a : AdapterEntry) → a.state ≡ error → Swept (some a)

-- What an action on `id` does to the service: the entry is swept, the others are as before.
record Sweeps (id : String) (before : StateManager) (after : World) : Type 0 where
  swept : Swept (entry id after)
  others : (j : String) → (id == j) ≡ false → entry j after ≡ get_adapter j before

fails-Sweeps :
    (env : Env) (id msg : String) (w : World) (a : AdapterEntry)
    → entry id w ≡ some a
    → Sweeps id w.mgr (transition env id error (some msg) w).1
unfolding enter
fails-Sweeps env id msg w a found = record {
  swept =
      subst Swept (sym (entry-transition_self env id error (some msg) w a found))
        (kept (enter (env.clock w.reads) error (some msg) a) refl);
  others = λ j other. entry-transition_other env id j error (some msg) w other;
}

removes-Sweeps : (id : String) (w : World) → Sweeps id w.mgr (remove_adapter id w).1
removes-Sweeps id w = record {
  swept = subst Swept (sym (entry-remove_adapter_self id w)) gone;
  others = λ j other. entry-remove_adapter_other id j w other;
}

-- The calls on the container and the image.
module _ (env : Env) (adapter : AdapterEntry) (w : World) (a : AdapterEntry)
    (found : entry adapter.adapter_id w ≡ some a) where
  cleanup-Sweeps :
      let (outcome, w') = rm env adapter.adapter_id w in
      Sweeps adapter.adapter_id w.mgr (after_rm env adapter outcome w').1
  unfolding rm after_rm rmi
  cleanup-Sweeps = elim (Result-cases (env.podman.rm w.calls adapter.adapter_id)) [
    | inr (x, failed) ↦ rw failed (
        fails-Sweeps env adapter.adapter_id x.message
          (record w { calls = PodmanCall.rm adapter.adapter_id ∷ w.calls }) a found)
    | inl (_, removed) ↦
        let cleaned_world : World = record w {
          calls = PodmanCall.rmi adapter.image_ref ∷ PodmanCall.rm adapter.adapter_id ∷ w.calls;
        } in
        elim (Result-cases
          (env.podman.rmi (PodmanCall.rm adapter.adapter_id ∷ w.calls) adapter.image_ref)) [
            | inr (x, failed) ↦
                rw (removed, failed)
                  (fails-Sweeps env adapter.adapter_id x.message cleaned_world a found)
            | inl (_, cleaned) ↦
                rw (removed, cleaned) (removes-Sweeps adapter.adapter_id cleaned_world)
          ]
  ]

offload-Sweeps :
    (env : Env) (adapter : AdapterEntry) (w : World) (a : AdapterEntry)
    → entry adapter.adapter_id w ≡ some a
    → Sweeps adapter.adapter_id w.mgr (offload env adapter w).1
unfolding offload
offload-Sweeps env adapter w a found =
    let moved = (transition env adapter.adapter_id offloading none w).1 in
    let done =
      cleanup-Sweeps env adapter moved (enter (env.clock w.reads) offloading none a)
        (entry-transition_self env adapter.adapter_id offloading none w a found) in
    record {
      swept = done.swept;
      others = λ j other.
          done.others j other
          ∙ entry-transition_other env adapter.adapter_id j offloading none w other;
    }

-- Every candidate has an entry.
abbrev Present : World → List AdapterEntry → Type 0
Present w adapters = All (λ a. (b : AdapterEntry) × (entry a.adapter_id w ≡ some b)) adapters

Present-step :
    (env : Env) (a : AdapterEntry) (w w' : World) (rest : List AdapterEntry)
    → ((j : String) → (a.adapter_id == j) ≡ false → entry j w' ≡ entry j w)
    → Absent a.adapter_id rest
    → Present w rest
    → Present w' rest
Present-step env a w w' [] same absent present = tt
Present-step env a w w' (c ∷ rest) same absent present = (
  (
    present.0.0,
    same c.adapter_id (
          ground
            (arith, absent.0, eq_iff a.adapter_id c.adapter_id, eq_iff c.adapter_id a.adapter_id))
        ∙ present.0.1,
  ),
  Present-step env a w w' rest same absent.1 present.1,
)

-- The loop leaves alone what is no candidate.
offload_all_others :
    (env : Env) (adapters : List AdapterEntry) (w : World) (j : String)
    → Separate adapters
    → Present w adapters
    → Absent j adapters
    → entry j (offload_all env adapters w).1 ≡ entry j w
unfolding offload_all
offload_all_others env [] w j separate present absent = refl
offload_all_others env (a ∷ rest) w j separate present absent =
    let w' = (offload env a w).1 in
    let done = offload-Sweeps env a w present.0.0 present.0.1 in
    offload_all_others env rest w' j separate.1
      (Present-step env a w w' rest done.others separate.0 present.1) absent.1
    ∙ done.others j absent.0

offload_all_sweeps :
    (env : Env) (adapters : List AdapterEntry) (w : World) (a : AdapterEntry)
    → Separate adapters
    → Present w adapters
    → Memᴰ a adapters
    → Swept (entry a.adapter_id (offload_all env adapters w).1)
unfolding offload_all
offload_all_sweeps env [] w a separate present member = elim member [ ]
offload_all_sweeps env (c ∷ rest) w a separate present (Memᴰ.head this) =
    let w' = (offload env c w).1 in
    let done = offload-Sweeps env c w present.0.0 present.0.1 in
    subst (λ (b : AdapterEntry). Swept (entry b.adapter_id (offload_all env rest w').1)) (sym this)
      (subst Swept
        (sym (
          offload_all_others env rest w' c.adapter_id separate.1
            (Present-step env c w w' rest done.others separate.0 present.1) separate.0))
        done.swept)
offload_all_sweeps env (c ∷ rest) w a separate present (Memᴰ.tail member) =
    let w' = (offload env c w).1 in
    let done = offload-Sweeps env c w present.0.0 present.0.1 in
    offload_all_sweeps env rest w' a separate.1
      (Present-step env c w w' rest done.others separate.0 present.1) member

-- What a cycle makes of the entry of an identifier.
pub data Sweep (now timeout : ℕ) : Option AdapterEntry → Option AdapterEntry → Type 0 where
  unknown_id : Sweep now timeout none none
  young : (a : AdapterEntry) → (¬ IsOld now timeout a) → Sweep now timeout (some a) (some a)
  old :
      (a : AdapterEntry) {after : Option AdapterEntry}
      → IsOld now timeout a
      → Swept after
      → Sweep now timeout (some a) after

module _ (env : Env) (now timeout : ℕ) (w : World) (j : String) (v : IsValid w.mgr) where
  -- What the loop runs over.
  abbrev candidates : List AdapterEntry
  candidates = get_offload_candidates now timeout w.mgr

  keyed : Keyed w.mgr.adapters
  unfolding get_adapter
  keyed = Keyed-of_lookup w.mgr.adapters v.distinct (λ k a found. (v.sound k a found).keyed)

  separate : Separate candidates
  unfolding get_offload_candidates
  separate = Separate-candidates now timeout w.mgr.adapters v.distinct keyed

  present : Present w candidates
  unfolding get_offload_candidates get_adapter
  present =
      Present-candidates now timeout w.mgr.adapters w.mgr.adapters v.distinct keyed
        (λ k a found. found)

  Sweep-none :
      entry j w ≡ none → Sweep now timeout (entry j w) (entry j (offload_all env candidates w).1)
  unfolding get_offload_candidates get_adapter
  Sweep-none missing =
      let same =
        offload_all_others env candidates w j separate present
          (Absent-of_none now timeout j w.mgr.adapters missing keyed) in
      rw (same, missing) unknown_id

  Sweep-young :
      (a : AdapterEntry)
      → entry j w ≡ some a
      → is_expired now timeout a ≡ false
      → Sweep now timeout (entry j w) (entry j (offload_all env candidates w).1)
  unfolding get_offload_candidates get_adapter
  Sweep-young a found fresh =
      let same =
        offload_all_others env candidates w j separate present
          (Absent-of_young now timeout j a w.mgr.adapters found fresh v.distinct keyed) in
      rw (same, found) (young a (is_expired-not_IsOld now timeout a fresh))

  Sweep-old :
      (a : AdapterEntry)
      → entry j w ≡ some a
      → is_expired now timeout a ≡ true
      → Sweep now timeout (entry j w) (entry j (offload_all env candidates w).1)
  unfolding get_offload_candidates get_adapter
  Sweep-old a found expired =
      let swept =
        offload_all_sweeps env candidates w a separate present
          (Memᴰ-candidates now timeout j a w.mgr.adapters found expired) in
      rw found (
        old a (is_expired-IsOld now timeout a expired) (
          subst (λ k. Swept (entry k (offload_all env candidates w).1)) (v.sound j a found).keyed
            swept))

-- One cycle over a valid state: an adapter that was STOPPED for the timeout or longer is gone or in
-- state ERROR afterwards, every other adapter has the entry that it had, and no adapter appears.
pub run_offload_cycle_sweeps :
    (env : Env) (now timeout : ℕ) (w : World) (j : String)
    → IsValid w.mgr
    → Sweep now timeout (entry j w) (entry j (run_offload_cycle env now timeout w).1)
unfolding run_offload_cycle gets
run_offload_cycle_sweeps env now timeout w j v = elim (Option-cases (entry j w)) [
  | inl missing ↦ Sweep-none env now timeout w j v missing
  | inr (a, found) ↦ elim (Bool-cases (is_expired now timeout a)) [
    | inl expired ↦ Sweep-old env now timeout w j v a found expired
    | inr fresh ↦ Sweep-young env now timeout w j v a found fresh
  ]
]
