-- ===== src/UpdateService/Pool/Schedule.antt =====
-- Runs of the pool: requests and ticks come, and tasks go on, in any order.
use parking_fee_service.Prelude.{
  ℕ, zero, suc, String, Option, none, some, List, [], ◌∷◌, ◌++◌, map, Act, Bool, true, false,
  if◌then◌else◌, ◌≡◌, refl,
}
use parking_fee_service.UpdateService.World.{Env, World}
use parking_fee_service.UpdateService.Pool.{
  Task, stopping, removing_stop, removing_rm, removing_rmi, Next, task_of, begin_install,
  begin_remove, begin_offload, resume,
}

-- The shared components and the tasks that are suspended. In the world, `spawned` is what the last
-- step spawned.
pub record Pool : Type 0 where
  pub world : World
  pub live : List Task

-- A request, a tick of the offload timer at an instant, the k-th task that goes on, or the client of the
-- k-th task that goes away.
pub data Move : Type 0 where
  ask_install : String → String → String → Move
  ask_remove : String → Move
  tick : ℕ → ℕ → Move
  go : ℕ → Move
  abandon : ℕ → Move

abbrev pub next_list : Next → List Task
next_list none = []
next_list (some t) = t ∷ []

abbrev pub clear : World → World
clear w = record w { spawned = [] }

-- A stretch of code beside the tasks `others`: it goes on or not, and what it spawned is live.
unfoldable pub advance : Act World Next → List Task → World → Pool
advance act others w =
    let (next, w') = act (clear w) in
    record { world = w'; live = next_list next ++ (map task_of w'.spawned ++ others) }

-- The k-th task, and the others.
unfoldable pub pick : ℕ → List Task → Option (Task × List Task)
pick k [] = none
pick zero (t ∷ ts) = some (t, ts)
pick (suc k) (t ∷ ts) = elim (pick k ts) [ none ↦ none | some (u, us) ↦ some (u, t ∷ us) ]

-- The task is the handler of a request, which is dropped at its await when the client goes away: nothing of it
-- runs any more.
abbrev pub is_handler : Task → Bool
is_handler (stopping _ _ _ _) = true
is_handler (removing_stop _ _) = true
is_handler (removing_rm _ _) = true
is_handler (removing_rmi _ _) = true
is_handler _ = false

-- The tasks without the k-th, if that is a handler.
unfoldable pub drop_handler : ℕ → List Task → List Task
drop_handler k [] = []
drop_handler zero (t ∷ ts) = if is_handler t then ts else t ∷ ts
drop_handler (suc k) (t ∷ ts) = t ∷ drop_handler k ts

module _ (env : Env) where
  unfoldable pub step : Move → Pool → Pool
  unfolding advance pick drop_handler
  step (ask_install job_id image_ref checksum) p =
      advance (begin_install env job_id image_ref checksum) p.live p.world
  step (ask_remove adapter_id) p = advance (begin_remove env adapter_id) p.live p.world
  step (tick now timeout) p = advance (begin_offload env now timeout) p.live p.world
  step (go k) p = elim (pick k p.live) [
    | none ↦ p
    | some (t, others) ↦ advance (resume env t) others p.world
  ]
  step (abandon k) p = record p { live = drop_handler k p.live }

  unfoldable pub exec : List Move → Pool → Pool
  unfolding step
  exec [] p = p
  exec (move ∷ moves) p = exec moves (step move p)

  -- A task of its own that goes on, and an index of no task.
  pub step-go :
      (k : ℕ) (p : Pool) (t : Task) (others : List Task)
      → pick k p.live ≡ some (t, others)
      → step (go k) p ≡ advance (resume env t) others p.world
  unfolding step
  step-go k p t others found = rw (found, step) refl

  pub step_idle : (k : ℕ) (p : Pool) → pick k p.live ≡ none → step (go k) p ≡ p
  unfolding step
  step_idle k p missing = rw (missing, step) refl
