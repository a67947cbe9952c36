-- ===== src/UpdateService/Grpc/Watched.antt =====
-- What a client that watches from the start knows of an adapter, however the tasks interleave.
use parking_fee_service.Prelude.{ℕ, String, ◌≡◌, some, List, [], ◌∷◌, map, ◌==◌, if◌then◌else◌}
use parking_fee_service.UpdateService.Adapter.{AdapterEntry, AdapterStateEvent, unknown}
use parking_fee_service.UpdateService.StateManager.{StateManager, get_adapter}
use parking_fee_service.UpdateService.StateManager.Watch.{follow}
use parking_fee_service.UpdateService.World
use parking_fee_service.UpdateService.World.Keeps.{Keeps}
use parking_fee_service.UpdateService.World.{World}
use parking_fee_service.UpdateService.Grpc.{ProtoEvent, event, watch_adapter_states}
use parking_fee_service.UpdateService.Pool.Schedule.{Pool}

-- The state number that a client has of an adapter after the events of the stream.
unfoldable pub follow_proto : String → ℕ → List ProtoEvent → ℕ
follow_proto id st [] = st
follow_proto id st (e ∷ stream) =
    follow_proto id (if e.adapter_id == id then e.new_state else st) stream

-- What reaches a client whose receiver never lags behind.
abbrev pub stream_of : List AdapterStateEvent → List ProtoEvent
unfolding watch_adapter_states
stream_of events = watch_adapter_states (map event events)

-- Each adapter is in the state that the events since the start lead to.
pub record IsFollowed (m : StateManager) : Type 0 where
  pub at :
      (id : String) (e : AdapterEntry)
      → get_adapter id m ≡ some e
      → e.state ≡ follow id unknown m.events
