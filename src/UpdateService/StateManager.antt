-- ===== src/UpdateService/StateManager.antt =====
-- rhivos/update-service/src/state.rs: `StateManager`. Each method holds the mutex throughout, so it
-- is one step on the state; `events` are those handed to the broadcast channel, oldest first, and a
-- failing `send` (no subscriber) is ignored as the code does.
pub mod Laws
pub mod Ops
pub mod Invariant
pub mod Watch
pub mod Running
pub mod Candidates
pub mod Registry
use parking_fee_service.Prelude.{
  ℕ, ◌-◌, String, ◌<>◌, Bool, false, Option, none, some, List, [], ◌∷◌, ◌++◌, ◌&&◌, leb,
  if◌then◌else◌, Result, ok, err,
}
use parking_fee_service.Prelude.Dict
use parking_fee_service.Prelude.Dict.{Dict}
use parking_fee_service.UpdateService.Adapter.{
  AdapterState, stopped, error, running, state_eq, AdapterEntry, AdapterStateEvent,
}

-- The readings of the clocks during a call: `Instant::now()` and the seconds since the epoch.
pub record Clock : Type 0 where
  pub instant : ℕ
  pub unix_secs : ℕ

pub data StateError : Type 0 where
  not_found : String → StateError
  invalid_transition : String → StateError

pub record StateManager : Type 0 where
  pub adapters : Dict AdapterEntry
  pub events : List AdapterStateEvent

-- `StateManager::new`
unfoldable pub new : StateManager
new = record { adapters = []; events = [] }

-- `create_adapter`
unfoldable pub create_adapter : AdapterEntry → StateManager → StateManager
create_adapter entry m = record m { adapters = Dict.insert entry.adapter_id entry m.adapters }

-- The assignments that `transition` makes through `get_mut`.
unfoldable pub enter : Clock → AdapterState → Option String → AdapterEntry → AdapterEntry
unfolding state_eq
enter clock new_state error_msg entry = record entry {
  state = new_state;
  stopped_at = if state_eq new_state stopped then some clock.instant else entry.stopped_at;
  error_message = if state_eq new_state error then error_msg else entry.error_message;
}

-- The event that `transition` sends.
unfoldable pub event_of : Clock → String → AdapterState → AdapterState → AdapterStateEvent
event_of clock adapter_id old_state new_state = record {
  adapter_id = adapter_id;
  old_state = old_state;
  new_state = new_state;
  timestamp = clock.unix_secs;
}

-- `transition`
unfoldable pub transition :
    Clock
    → String
    → AdapterState
    → Option String
    → StateManager
    → Result (Unit {0}) StateError × StateManager
unfolding enter event_of
transition clock adapter_id new_state error_msg m = elim (Dict.lookup adapter_id m.adapters) [
  | none ↦ (err (not_found ("adapter not found: " <> adapter_id)), m)
  | some entry ↦ (
    ok tt,
    record m {
      adapters = Dict.insert adapter_id (enter clock new_state error_msg entry) m.adapters;
      events = m.events ++ event_of clock adapter_id entry.state new_state ∷ [];
    },
  )
]

-- `get_adapter`
unfoldable pub get_adapter : String → StateManager → Option AdapterEntry
get_adapter adapter_id m = Dict.lookup adapter_id m.adapters

-- `list_adapters`
unfoldable pub list_adapters : StateManager → List AdapterEntry
list_adapters m = Dict.values m.adapters

-- `remove_adapter`
unfoldable pub remove_adapter : String → StateManager → Result (Unit {0}) StateError × StateManager
remove_adapter adapter_id m = elim (Dict.lookup adapter_id m.adapters) [
  | none ↦ (err (not_found ("adapter not found: " <> adapter_id)), m)
  | some _ ↦ (ok tt, record m { adapters = Dict.remove adapter_id m.adapters })
]

-- `find(|a| a.state == AdapterState::Running)`
unfoldable pub find_running : List AdapterEntry → Option AdapterEntry
unfolding state_eq
find_running [] = none
find_running (a ∷ rest) = if state_eq a.state running then some a else find_running rest

-- `get_running_adapter`
unfoldable pub get_running_adapter : StateManager → Option AdapterEntry
unfolding find_running
get_running_adapter m = find_running (Dict.values m.adapters)

-- The test of `get_offload_candidates`; `elapsed` saturates at zero.
unfoldable pub is_expired : ℕ → ℕ → AdapterEntry → Bool
unfolding state_eq
is_expired now timeout a =
    state_eq a.state stopped && elim a.stopped_at [ none ↦ false | some t ↦ leb timeout (now - t) ]

unfoldable pub filter_expired : ℕ → ℕ → List AdapterEntry → List AdapterEntry
unfolding is_expired
filter_expired now timeout [] = []
filter_expired now timeout (a ∷ rest) =
    let kept = filter_expired now timeout rest in
    if is_expired now timeout a then a ∷ kept else kept

-- `get_offload_candidates`
unfoldable pub get_offload_candidates : ℕ → ℕ → StateManager → List AdapterEntry
unfolding filter_expired
get_offload_candidates now timeout m = filter_expired now timeout (Dict.values m.adapters)
