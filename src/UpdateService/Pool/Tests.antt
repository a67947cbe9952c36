-- ===== src/UpdateService/Pool/Tests.antt =====
-- Concrete runs of the pool: two installations that interleave, and a removal.
use parking_fee_service.Prelude.{
  String, ◌≡◌, refl, true, some, List, [], ◌∷◌, ok, ℕ, arith, length, ◌++◌,
}
use parking_fee_service.Prelude.Dict
use parking_fee_service.Prelude.Dict.{lookup}
use parking_fee_service.Prelude.Number.{pos}
use parking_fee_service.UpdateService.Adapter.{
  derive_adapter_id, AdapterEntry, running, stopped, error, downloading, state_eq,
}
use parking_fee_service.UpdateService.Podman.{PodmanCall}
use parking_fee_service.UpdateService.StateManager
use parking_fee_service.UpdateService.StateManager.{
  new, get_adapter, enter, get_running_adapter, find_running,
}
use parking_fee_service.UpdateService.Install.{fresh_entry, record_stop}
use parking_fee_service.UpdateService.Monitor.{record_exit}
use parking_fee_service.UpdateService.World
use parking_fee_service.UpdateService.StateManager.Invariant.{IsValid, new-IsValid}
use parking_fee_service.UpdateService.World.{Env, World}
use parking_fee_service.UpdateService.Pool.{
  begin_install, begin_remove, resume, inspected, started, Task, pulling, waiting, accept,
}
use parking_fee_service.UpdateService.Pool.Schedule.{
  Pool, Move, ask_install, ask_remove, abandon, step, go, exec, pick, advance,
}
use parking_fee_service.UpdateService.Pool.Validity.{exec-IsValid}
use parking_fee_service.UpdateService.Pool.Replaced.{IsIn, replacing, replaced_follows_exit}
use parking_fee_service.UpdateService.World.Laws.{entry}
use parking_fee_service.UpdateService.Grpc.{AdapterInfo}
use parking_fee_service.UpdateService.Pool.Cost.{run_with, run_with_ends, IsChoice}
use parking_fee_service.UpdateService.Pool.Verified.{exec-IsSafe}
use parking_fee_service.UpdateService.Pool.Verified.Defs.{IsSafe}
use parking_fee_service.UpdateService.Pool.Attended.{IsAttended, exec-IsAttended, run_with_settles}
use parking_fee_service.UpdateService.Pool.Attended.Unsettled.{is_final, unsettled}

abbrev env : Env
env = record {
  podman = record {
    pull = λ calls image. ok tt;
    inspect_digest = λ calls image. ok "sha256:1f";
    run = λ calls id image. ok tt;
    stop = λ calls id. ok tt;
    rm = λ calls id. ok tt;
    rmi = λ calls image. ok tt;
    wait = λ calls id. ok (pos 0);
  };
  clock = λ k. record { instant = k; unix_secs = k };
}

abbrev empty : World
empty = record { mgr = new; calls = []; reads = 0; spawned = [] }

abbrev idle : Pool
idle = record { world = empty; live = [] }

-- Both installations pull, inspect and start side by side, and both adapters run.
abbrev side_by_side : List Move
side_by_side =
    ask_install "job-1" "r/a:1" "sha256:1f"
    ∷ ask_install "job-2" "r/b:1" "sha256:1f"
    ∷ go 0
    ∷ go 1
    ∷ go 0
    ∷ go 1
    ∷ go 0
    ∷ go 1
    ∷ []

side_by_side_calls :
    (exec env side_by_side idle).world.calls
    ≡ PodmanCall.run "a-1" "r/a:1"
      ∷ PodmanCall.run "b-1" "r/b:1"
      ∷ PodmanCall.inspect_digest "r/b:1"
      ∷ PodmanCall.inspect_digest "r/a:1"
      ∷ PodmanCall.pull "r/a:1"
      ∷ PodmanCall.pull "r/b:1"
      ∷ []
unfolding exec begin_install World.gets get_running_adapter Dict.values new World.spawn
    World.transition StateManager.transition lookup World.create_adapter StateManager.create_adapter
    Dict.insert fresh_entry derive_adapter_id resume World.pull World.inspect_digest World.run
    inspected started
side_by_side_calls = refl

exec-IsValid_example : IsValid (exec env side_by_side idle).world.mgr
exec-IsValid_example = exec-IsValid env side_by_side idle new-IsValid

-- The task that was spawned first goes on.
abbrev eldest : List Task → ℕ
eldest [] = 0
eldest (t ∷ ts) = length ts

eldest-IsChoice : IsChoice eldest
eldest-IsChoice [] n = absurd (n refl)
eldest-IsChoice (t ∷ ts) n = omega arith

abbrev one_pulls : Pool
one_pulls = record { world = empty; live = pulling "a-1" "r/a:1" "sha256:1f" ∷ [] }

run_with_ends_example : (run_with env eldest 4 one_pulls).live ≡ []
run_with_ends_example = run_with_ends env eldest 4 one_pulls eldest-IsChoice (omega arith)

-- Both are asked for with this checksum.
abbrev Asked : String → String → Type 0
Asked image_ref checksum = checksum ≡ "sha256:1f"

idle-IsSafe : IsSafe env Asked idle
idle-IsSafe = record { covered = tt; justified = tt }

exec-IsSafe_example : IsSafe env Asked (exec env side_by_side idle)
exec-IsSafe_example =
    exec-IsSafe env Asked side_by_side idle (refl, (refl, (tt, (tt, (tt, (tt, (tt, (tt, tt))))))))
      idle-IsSafe

idle-IsAttended : IsAttended idle
unfolding unsettled new get_adapter lookup
idle-IsAttended = record { at = λ j u. absurd (ground arith) }

exec-IsAttended_example : IsAttended (exec env side_by_side idle)
exec-IsAttended_example = exec-IsAttended env side_by_side idle idle-IsAttended

-- One adapter that runs, with the monitor of its container.
abbrev one_runs : AdapterEntry
one_runs = record (fresh_entry "job-1" "a-1" "r/a:1" "sha256:1f") { state = running }

abbrev one_waits : Pool
one_waits = record {
  world = record empty { mgr = record new { adapters = ("a-1", one_runs) ∷ [] } };
  live = waiting "a-1" ∷ [];
}

one_waits-IsAttended : IsAttended one_waits
unfolding unsettled get_adapter lookup
one_waits-IsAttended = record { at = λ j u. ground arith }

run_with_settles_example : is_final stopped ≡ true
unfolding run_with step resume World.wait record_exit World.transition StateManager.transition
    get_adapter lookup Dict.insert enter new fresh_entry
run_with_settles_example =
    run_with_settles env eldest 1 one_waits "a-1"
      (record one_runs { state = stopped; stopped_at = some 0 }) one_waits-IsAttended
      eldest-IsChoice (omega arith) refl

-- A container that is stopped by a signal exits with 143.
abbrev signalled : Env
signalled = record env { podman = record env.podman { wait = λ calls id. ok (pos 143) } }

one_waits_found : entry "a-1" one_waits.world ≡ some one_runs
unfolding new get_adapter lookup
one_waits_found = refl

-- The image that was stopped is installed anew before its old monitor goes on: that one puts the new
-- installation in ERROR.
abbrev reinstalled : List Move
reinstalled = ask_install "job-3" "r/a:1" "sha256:1f" ∷ []

abbrev one_replaced : Pool
one_replaced = replacing signalled "job-2" "r/b:1" "sha256:1f" "a-1" [] one_waits.world one_runs

abbrev new_task : List Task
new_task = pulling "a-1" "r/a:1" "sha256:1f" ∷ pulling "b-1" "r/b:1" "sha256:1f" ∷ []

abbrev anew : AdapterEntry
anew = record (fresh_entry "job-3" "a-1" "r/a:1" "sha256:1f") { state = downloading }

old_waits :
    pick 2 (exec signalled (go 0 ∷ reinstalled) one_replaced).live ≡ some (waiting "a-1", new_task)
unfolding exec step advance pick resume begin_install accept World.gets get_running_adapter
    find_running Dict.values World.stop record_stop World.spawn World.transition
    StateManager.transition lookup World.create_adapter StateManager.create_adapter Dict.insert
    fresh_entry derive_adapter_id get_adapter enter state_eq
old_waits = refl

anew_found : entry "a-1" (exec signalled (go 0 ∷ reinstalled) one_replaced).world ≡ some anew
unfolding exec step advance pick resume begin_install accept World.gets get_running_adapter
    find_running Dict.values World.stop record_stop World.spawn World.transition
    StateManager.transition lookup World.create_adapter StateManager.create_adapter Dict.insert
    fresh_entry derive_adapter_id get_adapter enter state_eq
anew_found = refl

replaced_follows_exit_example :
    IsIn "a-1" stopped (exec signalled (go 0 ∷ []) one_replaced).world
    × (pick 1 (exec signalled (go 0 ∷ []) one_replaced).live
        ≡ some (waiting "a-1", pulling "b-1" "r/b:1" "sha256:1f" ∷ []))
    × IsIn "a-1" error (exec signalled (go 0 ∷ (reinstalled ++ go 2 ∷ [])) one_replaced).world
unfolding derive_adapter_id exec pick
replaced_follows_exit_example =
    replaced_follows_exit signalled "job-2" "r/b:1" "sha256:1f" "a-1" [] one_waits.world one_runs
      reinstalled 2 new_task anew (pos 143) one_waits_found refl refl old_waits anew_found refl

abbrev one_shown : AdapterInfo
one_shown = record { adapter_id = "a-1"; image_ref = "r/a:1"; state = 3 }

-- The client of a removal goes away: the adapter and its monitor stay.
abandoned_removal :
    (exec env (ask_remove "a-1" ∷ abandon 0 ∷ []) one_waits).live ≡ waiting "a-1" ∷ []
unfolding exec begin_remove World.gets get_adapter lookup new fresh_entry state_eq
abandoned_removal = refl
