-- ===== src/UpdateService/StateManager/Laws.antt =====
-- What each operation of the state manager does to the entry of every identifier.
use parking_fee_service.Prelude.{
  String, ◌≡◌, Option, none, some, List, [], ◌∷◌, if◌then◌else◌, arith, ◌==◌, eq_iff, Option-cases,
  inl, inr, sym, refl, ◌++◌,
}
use mathlib.Core.List.{append-nil}
use parking_fee_service.Prelude.Dict.{lookup, lookup-insert, lookup-remove}
use mathlib.Core.Option
use parking_fee_service.UpdateService.Adapter.{AdapterState, AdapterEntry, AdapterStateEvent}
use parking_fee_service.UpdateService.StateManager.{
  Clock, StateManager, create_adapter, enter, event_of, transition, get_adapter, remove_adapter,
}

-- After `transition`, the entry of the identifier, if there is one, has been moved to the new
-- state, and all other entries are as they were.
pub get_adapter-transition :
    (clock : Clock) (id j : String) (st : AdapterState) (msg : Option String) (m : StateManager)
    → get_adapter j (transition clock id st msg m).1
      ≡ (if id == j then Option.map (enter clock st msg) (get_adapter id m) else get_adapter j m)
unfolding get_adapter transition
get_adapter-transition clock id j st msg m = elim (Option-cases (lookup id m.adapters)) [
  | inl missing ↦ ground (arith, eq_iff id j)
  | inr (entry, found) ↦ ground (arith, lookup-insert id j (enter clock st msg entry) m.adapters)
]

pub get_adapter-create_adapter :
    (entry : AdapterEntry) (j : String) (m : StateManager)
    → get_adapter j (create_adapter entry m)
      ≡ (if entry.adapter_id == j then some entry else get_adapter j m)
unfolding get_adapter create_adapter
get_adapter-create_adapter entry j m = lookup-insert entry.adapter_id j entry m.adapters

pub get_adapter-remove_adapter :
    (id j : String) (m : StateManager)
    → get_adapter j (remove_adapter id m).1 ≡ (if id == j then none else get_adapter j m)
unfolding get_adapter remove_adapter
get_adapter-remove_adapter id j m = elim (Option-cases (lookup id m.adapters)) [
  | inl missing ↦ ground (arith, eq_iff id j)
  | inr (entry, found) ↦ ground (arith, lookup-remove id j m.adapters)
]

-- The events that a transition sends.
unfoldable pub sent : Clock → String → AdapterState → Option AdapterEntry → List AdapterStateEvent
sent clock id st none = []
sent clock id st (some entry) = event_of clock id entry.state st ∷ []

pub events-transition :
    (clock : Clock) (id : String) (st : AdapterState) (msg : Option String) (m : StateManager)
    → (transition clock id st msg m).1.events ≡ m.events ++ sent clock id st (get_adapter id m)
unfolding get_adapter transition sent
events-transition clock id st msg m = elim (Option-cases (lookup id m.adapters)) [
  | inl missing ↦ rw (missing, transition) (sym (append-nil m.events))
  | inr (entry, found) ↦ rw (found, transition) refl
]

pub events-remove_adapter :
    (id : String) (m : StateManager) → (remove_adapter id m).1.events ≡ m.events
unfolding remove_adapter
events-remove_adapter id m = elim (Option-cases (lookup id m.adapters)) [
  | inl missing ↦ rw (missing, remove_adapter) refl
  | inr (entry, found) ↦ rw (found, remove_adapter) refl
]
