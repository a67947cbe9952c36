-- ===== src/UpdateService/Main.antt =====
-- rhivos/update-service/src/main.rs up to the gRPC server, and the offload timer that it starts
-- (offload.rs). Instants are in seconds.
use parking_fee_service.Prelude.{ℕ, ◌+◌, String, Option, List, [], ◌∷◌, Result, ok, err, unwrap_or}
use parking_fee_service.UpdateService.Config.{Config, IoError, Fields, load_config}
use parking_fee_service.UpdateService.StateManager.{new}
use parking_fee_service.UpdateService.World.{World}
use parking_fee_service.UpdateService.Tasks.Defs.{Stimulus, offload_tick}

-- `Duration::from_secs(60)`
abbrev pub check_interval : ℕ
check_interval = 60

-- What the server starts with.
pub record Ready : Type 0 where
  pub config : Config
  pub world : World
  pub inactivity_timeout : ℕ

-- The shared components when nothing has happened.
abbrev pub initial : World
initial = record { mgr = new; calls = []; reads = 0; spawned = [] }

-- `main` up to the start of the server, or its exit code.
unfoldable pub start :
    (String → Option String)
    → (String → Result String IoError)
    → (String → Result Fields String)
    → Result Ready ℕ
start vars read decode =
    elim (load_config read decode (unwrap_or (vars "CONFIG_PATH") "config.json")) [
      | err _ ↦ err 1
      | ok config ↦ ok (record {
        config = config;
        world = initial;
        inactivity_timeout = config.inactivity_timeout_secs;
      })
    ]

-- The loop of `spawn_offload_timer` from an instant on, for the durations of its cycles: it sleeps and
-- then runs a cycle.
unfoldable pub timer_from : ℕ → ℕ → ℕ → List ℕ → List Stimulus
timer_from timeout interval instant [] = []
timer_from timeout interval instant (duration ∷ durations) =
    offload_tick (instant + interval) timeout
    ∷ timer_from timeout interval (instant + interval + duration) durations

-- `spawn_offload_timer`
unfoldable pub spawn_offload_timer : ℕ → ℕ → ℕ → List ℕ → List Stimulus
unfolding timer_from
spawn_offload_timer inactivity_timeout interval instant durations =
    timer_from inactivity_timeout interval instant durations
