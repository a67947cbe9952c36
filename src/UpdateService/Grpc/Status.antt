-- ===== src/UpdateService/Grpc/Status.antt =====
-- What a client of rhivos/update-service/src/grpc.rs can ask after it has installed or removed.
use parking_fee_service.Prelude.{String, ◌≡◌, false, ok, err, arith, inl, inr, Option-cases, ap}
use parking_fee_service.Prelude.Text.{is_empty}
use parking_fee_service.UpdateService.Adapter.{derive_adapter_id, downloading}
use parking_fee_service.UpdateService.StateManager.Invariant.{IsValid}
use parking_fee_service.UpdateService.StateManager.Running.{IsSingle}
use parking_fee_service.UpdateService.World.{Env, World, gets}
use parking_fee_service.UpdateService.World.Laws.{entry}
use parking_fee_service.UpdateService.Install.Single.{install_adapter_accepts}
use parking_fee_service.UpdateService.Install.Removal.{remove_adapter_ends}
use parking_fee_service.UpdateService.Grpc.{
  rpc_install, rpc_remove, get_adapter_status, status_not_found, InstallAdapterResponse,
  install_response, status_of, RemoveAdapterResponse, remove_response, AdapterInfo, info_of,
  state_to_proto,
}

-- After an installation that is accepted, with a valid state in which at most one adapter runs, the
-- status of the adapter named in the response is that of an adapter with the image that was asked for,
-- in the state that the response names.
installed_is_known :
    (env : Env) (job_id image_ref checksum : String) (w : World)
    → is_empty image_ref ≡ false
    → is_empty checksum ≡ false
    → IsValid w.mgr
    → IsSingle w.mgr
    → (response : InstallAdapterResponse) × (info : AdapterInfo) × ((rpc_install env job_id
          image_ref checksum w).0
        ≡ ok response)
      × ((get_adapter_status response.adapter_id (rpc_install env job_id image_ref checksum w).1).0
          ≡ ok info)
      × (info.image_ref ≡ image_ref)
      × (info.state ≡ response.state)
unfolding rpc_install get_adapter_status gets install_response status_of
installed_is_known env job_id image_ref checksum w h k v single =
    let (reply, answered, done) =
      install_adapter_accepts env job_id image_ref checksum w h k v single in
    (
      record {
        job_id = job_id;
        adapter_id = derive_adapter_id image_ref;
        state = state_to_proto downloading;
      },
      info_of done.now,
      ground (arith, answered, done.answered),
      ground (arith, done.present),
      done.image,
      ap state_to_proto done.state,
    )

-- After a removal that succeeds, the status of the adapter is that there is none.
removed_is_gone :
    (env : Env) (id : String) (w : World) (response : RemoveAdapterResponse)
    → (rpc_remove env id w).0 ≡ ok response
    → (get_adapter_status id (rpc_remove env id w).1).0 ≡ err (status_not_found "adapter not found")
unfolding rpc_remove get_adapter_status gets remove_response status_of
removed_is_gone env id w response h = elim (Option-cases (entry id w)) [
  | inl missing ↦ absurd (ground arith)
  | inr (a, found) ↦ elim (remove_adapter_ends env id w a found) [
    | inl removed ↦ rw found (ap status_of removed.gone)
    | inr stuck ↦ absurd (ground (arith, stuck.failed))
  ]
]
