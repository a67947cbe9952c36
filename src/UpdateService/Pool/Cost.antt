-- ===== src/UpdateService/Pool/Cost.antt =====
-- No task goes on for ever.
use parking_fee_service.Prelude.{
  ℕ, zero, suc, ◌+◌, ◌*◌, ◌≤◌, ◌<◌, ◌≡◌, ◌≢◌, refl, String, some, List, [], ◌∷◌, ◌++◌, map, arith,
  length, inl, inr, Option-cases, ◌⊎◌,
}
use parking_fee_service.UpdateService.World
use parking_fee_service.UpdateService.World.{Env, World, Spawned, install_task, monitor_task}
use parking_fee_service.UpdateService.Install.{record_stop}
use parking_fee_service.UpdateService.Monitor.{record_exit}
use parking_fee_service.UpdateService.Pool.{
  Task, stopping, pulling, inspecting, starting, discarding, waiting, removing_stop, removing_rm,
  removing_rmi, offloading_rm, offloading_rmi, task_of, resume,
}
use parking_fee_service.UpdateService.Pool.Schedule.{
  Pool, go, next_list, clear, advance, pick, step, step-go, step_idle,
}

-- How many steps a task may take, with those of the tasks that it spawns.
abbrev pub cost : Task → ℕ
cost (stopping _ _ _ _) = 5
cost (pulling _ _ _) = 4
cost (inspecting _ _ _) = 3
cost (starting _ _ _) = 2
cost (discarding _) = 1
cost (waiting _) = 1
cost (removing_stop _ _) = 3
cost (removing_rm _ _) = 2
cost (removing_rmi _ _) = 1
cost (offloading_rm _ rest) = 2 + 2 * length rest
cost (offloading_rmi _ rest) = 1 + 2 * length rest

abbrev pub total : List Task → ℕ
total [] = 0
total (t ∷ ts) = cost t + total ts

total-append : (ts us : List Task) → total (ts ++ us) ≡ total ts + total us
total-append [] us = omega arith
total-append (t ∷ ts) us = omega (arith, total-append ts us)

pick-total :
    (k : ℕ) (ts : List Task) (t : Task) (us : List Task)
    → pick k ts ≡ some (t, us)
    → total ts ≡ cost t + total us
unfolding pick
pick-total k [] t us h = absurd (ground arith)
pick-total zero (s ∷ ts) t us h = ground arith
pick-total (suc k) (s ∷ ts) t us h = elim (Option-cases (pick k ts)) [
  | inl missing ↦ absurd (ground arith)
  | inr ((u, vs), found) ↦ ground (arith, pick-total k ts u vs found)
]

List-cases : (ts : List Task) → (ts ≡ []) ⊎ (ts ≢ [])
List-cases [] = inl refl
List-cases (t ∷ ts) = inr (λ e. cc)

-- An index in range names a task.
pick_found :
    (k : ℕ) (ts : List Task)
    → k < length ts
    → (t : Task) × (us : List Task) × (pick k ts ≡ some (t, us))
unfolding pick
pick_found k [] h = absurd (omega arith)
pick_found zero (s ∷ ts) h = (s, ts, refl)
pick_found (suc k) (s ∷ ts) h =
    let (t, us, found) = pick_found k ts (omega arith) in (t, s ∷ us, rw found refl)

cost_pos : (t : Task) → 1 ≤ cost t
cost_pos t = ground arith

-- While a task is live, there is something to do.
total_live : (ts : List Task) → total ts ≤ 0 → ts ≡ []
total_live [] h = refl
total_live (t ∷ ts) h = absurd (ground (arith, cost_pos t))

module _ (env : Env) where
  stopping-cost :
      (job image_ref checksum active : String) (w : World)
      → w.spawned ≡ []
      → total (next_list (resume env (stopping job image_ref checksum active) w).0)
          + total (map task_of (resume env (stopping job image_ref checksum active) w).1.spawned)
        < 5
  unfolding resume World.spawn World.transition World.create_adapter World.stop record_stop
  stopping-cost job image_ref checksum active w e = ground arith

  -- A step leads to less than there was to do.
  resume-cost :
      (t : Task) (w : World)
      → w.spawned ≡ []
      → total (next_list (resume env t w).0) + total (map task_of (resume env t w).1.spawned)
        < cost t
  unfolding resume World.pull World.inspect_digest World.run World.stop World.rm World.rmi
      World.wait World.transition World.spawn World.remove_adapter record_exit
  resume-cost (stopping job image_ref checksum active) w e =
      stopping-cost job image_ref checksum active w e
  resume-cost (pulling id image_ref checksum) w e = ground arith
  resume-cost (inspecting id image_ref checksum) w e = ground arith
  resume-cost (starting id image_ref checksum) w e = ground arith
  resume-cost (discarding image_ref) w e = ground arith
  resume-cost (waiting id) w e = ground arith
  resume-cost (removing_stop id image_ref) w e = ground arith
  resume-cost (removing_rm id image_ref) w e = ground arith
  resume-cost (removing_rmi id image_ref) w e = ground arith
  resume-cost (offloading_rm a []) w e = ground arith
  resume-cost (offloading_rm a (b ∷ rest)) w e = ground arith
  resume-cost (offloading_rmi a []) w e = ground arith
  resume-cost (offloading_rmi a (b ∷ rest)) w e = ground arith

  -- A step of the pool with a task of its own leaves less to do.
  go-cost :
      (k : ℕ) (p : Pool) (t : Task) (others : List Task)
      → pick k p.live ≡ some (t, others)
      → total (step env (go k) p).live < total p.live
  unfolding step advance
  go-cost k p t others found =
      let r = resume env t (clear p.world) in
      rw (step-go env k p t others found, advance)
        (ground (
          arith,
          resume-cost t (clear p.world) refl,
          pick-total k p.live t others found,
          total-append (next_list r.0) (map task_of r.1.spawned ++ others),
          total-append (map task_of r.1.spawned) others,
        ))

-- Which of the live tasks goes on; a fair choice always names one.
abbrev pub IsChoice : (List Task → ℕ) → Type 0
IsChoice choose = (ts : List Task) → ts ≢ [] → choose ts < length ts

unfoldable pub run_with : Env → (List Task → ℕ) → ℕ → Pool → Pool
run_with env choose zero p = p
run_with env choose (suc n) p = run_with env choose n (step env (go (choose p.live)) p)

-- Whichever live task is chosen to go on each time, if no request and no tick comes any more, all tasks
-- have ended after as many steps as `total` says: five for an installation that waits for another
-- adapter to stop, up to four for one that is under way, its monitor's included, three for a removal,
-- and two for each adapter of an offloading cycle.
pub run_with_ends :
    (env : Env) (choose : List Task → ℕ) (n : ℕ) (p : Pool)
    → IsChoice choose
    → total p.live ≤ n
    → (run_with env choose n p).live ≡ []
unfolding run_with step
run_with_ends env choose zero p fair h = total_live p.live h
run_with_ends env choose (suc n) p fair h = elim (List-cases p.live) [
  | inl idle ↦
      let still : step env (go (choose p.live)) p ≡ p =
        step_idle env (choose p.live) p (rw (idle, pick) refl) in
      rw (still, run_with) (run_with_ends env choose n p fair (rw idle (omega arith)))
  | inr busy ↦
      let (t, others, found) = pick_found (choose p.live) p.live (fair p.live busy) in
      run_with_ends env choose n (step env (go (choose p.live)) p) fair
        (omega (arith, go-cost env (choose p.live) p t others found))
]
