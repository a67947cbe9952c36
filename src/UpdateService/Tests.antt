-- ===== src/UpdateService/Tests.antt =====
-- Concrete runs of the update service.
use parking_fee_service.Prelude.{
  String, ◌≡◌, refl, false, none, some, List, [], ◌∷◌, ok, ◌⊎◌, true, eq_iff, Result,
}
use parking_fee_service.Prelude.Dict.{lookup}
use parking_fee_service.Prelude.Number.{pos}
use parking_fee_service.UpdateService.Adapter.{AdapterEntry, stopped, unknown}
use parking_fee_service.UpdateService.Podman.{PodmanExecutor, PodmanCall, Output}
use parking_fee_service.UpdateService.StateManager.{new, get_adapter}
use parking_fee_service.UpdateService.StateManager.Ops.{Op, create, move, delete, apply_all}
use parking_fee_service.UpdateService.StateManager.Invariant.{
  IsValid, new-IsValid, apply_all-IsValid,
}
use parking_fee_service.UpdateService.StateManager.Watch.{IsWatched, apply_all-IsWatched}
use parking_fee_service.UpdateService.StateManager.Running.{IsSingle}
use parking_fee_service.UpdateService.World
use parking_fee_service.UpdateService.World.{Env, World, install_task, monitor_task}
use parking_fee_service.UpdateService.StateManager.Registry.{past, told, apply_all_refines}
use parking_fee_service.UpdateService.Grpc.{AdapterInfo, list_all}
use parking_fee_service.UpdateService.Grpc.Listing.{IsListing, list_all_lists}
use parking_fee_service.UpdateService.Install.{
  InstallReply, fresh_entry, install_adapter, remove_adapter, pull_verify_run,
}
use parking_fee_service.UpdateService.Install.Outcome.{Ends, pull_verify_run-Ends}
use parking_fee_service.UpdateService.Install.Starts.{starts, pull_verify_run_starts}
use parking_fee_service.UpdateService.Install.Single.{IsAccepted, install_adapter_accepts}
use parking_fee_service.UpdateService.Install.Real.{Succeeds, real_env, pull_verify_run_real}
use parking_fee_service.Prelude.Text.{trim}
use parking_fee_service.UpdateService.Install.Race.{installs_race}
use parking_fee_service.UpdateService.Install.Removal.{
  IsRemoved, IsStuck, stop_first, remove_adapter_ends,
}
use parking_fee_service.UpdateService.Offload.{run_offload_cycle}
use parking_fee_service.UpdateService.Offload.Sweep.{Sweep, run_offload_cycle_sweeps}

-- A podman that does all it is asked, with clocks that advance by a second at each reading.
abbrev willing : PodmanExecutor
willing = record {
  pull = λ calls image. ok tt;
  inspect_digest = λ calls image. ok "sha256:1f";
  run = λ calls id image. ok tt;
  stop = λ calls id. ok tt;
  rm = λ calls id. ok tt;
  rmi = λ calls image. ok tt;
  wait = λ calls id. ok (pos 0);
}

abbrev env : Env
env = record { podman = willing; clock = λ k. record { instant = k; unix_secs = k } }

abbrev empty : World
empty = record { mgr = new; calls = []; reads = 0; spawned = [] }

abbrev asked : AdapterEntry
asked = fresh_entry "job-1" "app-v1" "reg/app:v1" "sha256:1f"

-- The manager with this one adapter, and the service around it.
abbrev started_ops : List Op
started_ops = create asked ∷ move (record { instant = 4; unix_secs = 9 }) "app-v1" stopped none ∷ []

abbrev one : World
one = record {
  mgr = record { adapters = ("app-v1", asked) ∷ []; events = [] };
  calls = [];
  reads = 0;
  spawned = [];
}

one_found : get_adapter "app-v1" one.mgr ≡ some asked
unfolding get_adapter lookup fresh_entry
one_found = refl

pull_verify_run-Ends_example :
    Ends env "app-v1" "reg/app:v1" "sha256:1f" one
      (pull_verify_run env "app-v1" "reg/app:v1" "sha256:1f" one).1
pull_verify_run-Ends_example =
    pull_verify_run-Ends env "app-v1" "reg/app:v1" "sha256:1f" one asked one_found

pull_verify_run_starts_example :
    let after = (pull_verify_run env "app-v1" "reg/app:v1" "sha256:1f" one).1 in
    ((starts after.calls ≡ 1)
      × (willing.pull [] "reg/app:v1" ≡ ok tt)
      × (willing.inspect_digest (PodmanCall.pull "reg/app:v1" ∷ []) "reg/app:v1" ≡ ok "sha256:1f"))
    ⊎ (starts after.calls ≡ 0)
pull_verify_run_starts_example = pull_verify_run_starts env "app-v1" "reg/app:v1" "sha256:1f" one

-- The container was started once.
one_start : starts (pull_verify_run env "app-v1" "reg/app:v1" "sha256:1f" one).1.calls ≡ 1
unfolding pull_verify_run World.pull World.inspect_digest World.run World.spawn World.transition
one_start = refl

install_adapter_accepts_example :
    (reply : InstallReply) × ((install_adapter env "job-1" "reg/app:v1" "sha256:1f" empty).0
      ≡ ok reply)
    × IsAccepted "job-1" "reg/app:v1" "sha256:1f" empty
        (install_adapter env "job-1" "reg/app:v1" "sha256:1f" empty).1
        reply
unfolding new get_adapter lookup
install_adapter_accepts_example =
    install_adapter_accepts env "job-1" "reg/app:v1" "sha256:1f" empty refl refl new-IsValid
      (λ j k a b h. cc)

remove_adapter_ends_example :
    IsRemoved "app-v1" one.mgr
      (PodmanCall.rmi "reg/app:v1" ∷ PodmanCall.rm "app-v1" ∷ stop_first asked "app-v1" [])
      (remove_adapter env "app-v1" one)
    ⊎ IsStuck "app-v1" one.mgr (remove_adapter env "app-v1" one)
unfolding fresh_entry
remove_adapter_ends_example = remove_adapter_ends env "app-v1" one asked one_found

started-IsValid : IsValid (apply_all started_ops new)
unfolding fresh_entry
started-IsValid = apply_all-IsValid started_ops new (refl, (tt, tt)) new-IsValid

-- The service with the adapter stopped at instant 4.
abbrev stopped_world : World
stopped_world = record { mgr = apply_all started_ops new; calls = []; reads = 0; spawned = [] }

run_offload_cycle_sweeps_example :
    Sweep 100 60
      (get_adapter "app-v1" stopped_world.mgr)
      (get_adapter "app-v1" (run_offload_cycle env 100 60 stopped_world).1.mgr)
run_offload_cycle_sweeps_example =
    run_offload_cycle_sweeps env 100 60 stopped_world "app-v1"
      (apply_all-IsValid started_ops new (unfold fresh_entry in (refl, (tt, tt))) new-IsValid)

apply_all-IsWatched_example : IsWatched "app-v1" unknown one.mgr (
    apply_all
      (move (record { instant = 4; unix_secs = 9 }) "app-v1" stopped none ∷ delete "other" ∷ [])
      one.mgr)
unfolding fresh_entry
apply_all-IsWatched_example =
    apply_all-IsWatched
      (move (record { instant = 4; unix_secs = 9 }) "app-v1" stopped none ∷ delete "other" ∷ [])
      "app-v1" one.mgr asked (tt, (refl, tt)) one_found

-- Two installations that are accepted before the task of either has run.
abbrev second_asked : AdapterEntry
second_asked = fresh_entry "job-2" "lot-v2" "reg/lot:v2" "sha256:1f"

abbrev both : World
both = record {
  mgr = record { adapters = ("app-v1", asked) ∷ ("lot-v2", second_asked) ∷ []; events = [] };
  calls = [];
  reads = 0;
  spawned = [];
}

both_app : get_adapter "app-v1" both.mgr ≡ some asked
unfolding get_adapter lookup fresh_entry
both_app = refl

both_lot : get_adapter "lot-v2" both.mgr ≡ some second_asked
unfolding get_adapter lookup fresh_entry
both_lot = refl

installs_race_example :
    ¬ IsSingle
      (pull_verify_run env "lot-v2" "reg/lot:v2" "sha256:1f"
        (pull_verify_run env "app-v1" "reg/app:v1" "sha256:1f" both).1).1.mgr
installs_race_example =
    installs_race env "app-v1" "lot-v2" "reg/app:v1" "reg/lot:v2" "sha256:1f" "sha256:1f" both asked
      second_asked (λ e. let same : false ≡ true = (eq_iff "app-v1" "lot-v2").1 e in cc) both_app
      both_lot (record { pulled = refl; verified = refl; started = refl })
      (record { pulled = refl; verified = refl; started = refl })

apply_all_refines_example :
    get_adapter "app-v1" (apply_all started_ops new) ≡ told "app-v1" (past started_ops [])
apply_all_refines_example = apply_all_refines started_ops "app-v1"

list_all_lists_example :
    (infos : List AdapterInfo) × (list_all stopped_world ≡ (ok infos, stopped_world))
    × IsListing infos stopped_world
list_all_lists_example = list_all_lists stopped_world started-IsValid

-- A podman that succeeds and prints the digest with a line's end.
abbrev printing : List PodmanCall → List String → Result Output String
printing before arguments = ok (record { success = true; stdout = "sha256:1f\n"; stderr = "" })

pull_verify_run_real_example :
    let after =
      (pull_verify_run
        (real_env printing (λ s. s) (λ k. record { instant = k; unix_secs = k }))
        "app-v1"
        "reg/app:v1"
        "sha256:1f"
        one).1 in
    ((starts after.calls ≡ 1)
      × ((pulled : String) × Succeeds printing [] ("pull" ∷ "reg/app:v1" ∷ []) pulled)
      × ((printed : String) × (trim printed ≡ "sha256:1f")
          × Succeeds printing
              (PodmanCall.pull "reg/app:v1" ∷ [])
              ("image" ∷ "inspect" ∷ "--format" ∷ "{{.Digest}}" ∷ "reg/app:v1" ∷ [])
              printed))
    ⊎ (starts after.calls ≡ 0)
pull_verify_run_real_example =
    pull_verify_run_real printing (λ s. s) (λ k. record { instant = k; unix_secs = k }) "app-v1"
      "reg/app:v1" "sha256:1f" one
