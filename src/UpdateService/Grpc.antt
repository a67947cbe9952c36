-- ===== src/UpdateService/Grpc.antt =====
-- rhivos/update-service/src/grpc.rs: the calls of the service. The generated enumeration of states is
-- that of proto/, by its numbers; a stream of events is the list of those sent since its start.
pub mod Status
pub mod Listing
pub mod Watched
use parking_fee_service.Prelude.{
  ℕ, String, Option, none, some, List, [], ◌∷◌, Result, ok, err, Act, ◌>>=◌, ◌>>◌, pure, map,
}
use parking_fee_service.Prelude.Number.{ℤ, as_i64}
use parking_fee_service.UpdateService.Adapter.{
  AdapterState, unknown, downloading, installing, running, stopped, error, offloading, AdapterEntry,
  AdapterStateEvent,
}
use parking_fee_service.UpdateService.StateManager.{get_adapter, list_adapters}
use parking_fee_service.UpdateService.World.{Env, World, gets}
use parking_fee_service.UpdateService.Install
use parking_fee_service.UpdateService.Install.{
  InstallError, invalid_argument, RemoveError, not_found, podman_failed, InstallReply,
}

-- `tonic::Status`: the codes that the service uses, each with its message.
pub data RpcStatus : Type 0 where
  status_invalid_argument status_not_found status_internal : String → RpcStatus

-- `state_to_proto`
unfoldable pub state_to_proto : AdapterState → ℕ
state_to_proto unknown = 0
state_to_proto downloading = 1
state_to_proto installing = 2
state_to_proto running = 3
state_to_proto stopped = 4
state_to_proto error = 5
state_to_proto offloading = 6

pub record InstallAdapterResponse : Type 0 where
  pub job_id : String
  pub adapter_id : String
  pub state : ℕ

pub record AdapterInfo : Type 0 where
  pub adapter_id : String
  pub image_ref : String
  pub state : ℕ

pub record RemoveAdapterResponse : Type 0 where
  pub adapter_id : String
  pub state : ℕ

-- The event as the watchers get it.
pub record ProtoEvent : Type 0 where
  pub adapter_id : String
  pub old_state : ℕ
  pub new_state : ℕ
  pub timestamp : ℤ

unfoldable pub event_to_proto : AdapterStateEvent → ProtoEvent
unfolding state_to_proto
event_to_proto event = record {
  adapter_id = event.adapter_id;
  old_state = state_to_proto event.old_state;
  new_state = state_to_proto event.new_state;
  timestamp = as_i64 event.timestamp;
}

-- What the receiver of the broadcast channel gives: an event, or that it lagged behind.
pub data Received : Type 0 where
  event : AdapterStateEvent → Received
  lagged : Received

-- The stream of `watch_adapter_states`.
unfoldable pub watch_adapter_states : List Received → List ProtoEvent
unfolding event_to_proto
watch_adapter_states [] = []
watch_adapter_states (event e ∷ rest) = event_to_proto e ∷ watch_adapter_states rest
watch_adapter_states (lagged ∷ rest) = watch_adapter_states rest

unfoldable pub info_of : AdapterEntry → AdapterInfo
unfolding state_to_proto
info_of entry = record {
  adapter_id = entry.adapter_id;
  image_ref = entry.image_ref;
  state = state_to_proto entry.state;
}

-- The `match` of `install_adapter`.
unfoldable pub install_response :
    Result InstallReply InstallError → Result InstallAdapterResponse RpcStatus
unfolding state_to_proto
install_response (ok reply) = ok (record {
  job_id = reply.job_id;
  adapter_id = reply.adapter_id;
  state = state_to_proto reply.state;
})
install_response (err (invalid_argument msg)) = err (status_invalid_argument msg)

-- The `match` of `remove_adapter`.
unfoldable pub remove_response :
    String → Result (Unit {0}) RemoveError → Result RemoveAdapterResponse RpcStatus
unfolding state_to_proto
remove_response adapter_id (ok _) =
    ok (record { adapter_id = adapter_id; state = state_to_proto unknown })
remove_response adapter_id (err (not_found msg)) = err (status_not_found msg)
remove_response adapter_id (err (podman_failed msg)) = err (status_internal msg)

-- `list_adapters`
unfoldable pub list_all : Act World (Result (List AdapterInfo) RpcStatus)
unfolding info_of
list_all = do adapters ← gets list_adapters; pure (ok (map info_of adapters))

unfoldable pub status_of : Option AdapterEntry → Result AdapterInfo RpcStatus
unfolding info_of
status_of none = err (status_not_found "adapter not found")
status_of (some entry) = ok (info_of entry)

-- `get_adapter_status`
unfoldable pub get_adapter_status : String → Act World (Result AdapterInfo RpcStatus)
unfolding status_of
get_adapter_status adapter_id = do entry ← gets (get_adapter adapter_id); pure (status_of entry)

module _ (env : Env) where
  -- `install_adapter`; `job_id` is the fresh identifier of the job.
  unfoldable pub rpc_install :
      String → String → String → Act World (Result InstallAdapterResponse RpcStatus)
  unfolding install_response
  rpc_install job_id image_ref checksum_sha256 = do
    reply ← Install.install_adapter env job_id image_ref checksum_sha256
    pure (install_response reply)

  unfoldable pub remove_known :
      String → Option AdapterEntry → Act World (Result RemoveAdapterResponse RpcStatus)
  unfolding remove_response
  remove_known adapter_id none = pure (err (status_not_found "adapter not found"))
  remove_known adapter_id (some adapter) = do
    outcome ← Install.remove_adapter env adapter_id
    pure (remove_response adapter.adapter_id outcome)

  -- `remove_adapter`
  unfoldable pub rpc_remove : String → Act World (Result RemoveAdapterResponse RpcStatus)
  unfolding remove_known
  rpc_remove adapter_id = do
    adapter ← gets (get_adapter adapter_id)
    remove_known adapter_id adapter
