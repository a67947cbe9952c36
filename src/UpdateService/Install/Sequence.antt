-- ===== src/UpdateService/Install/Sequence.antt =====
-- Installations that wait for each other: the task of each has ended before the next is asked for.
use parking_fee_service.Prelude.{
  ℕ, suc, ◌≤◌, String, ◌≡◌, ◌≢◌, ◌∙◌, refl, sym, subst, none, some, List, [], ◌∷◌, ok, err, Act,
  ◌>>=◌, Result, arith, ◌==◌, eq_iff, Bool-cases, Result-cases, inl, inr, if◌then◌else◌, pure, All,
}
use parking_fee_service.Prelude.Text.{is_empty}
use parking_fee_service.Prelude.Dict.{Dict, lookup, values, Distinct}
use parking_fee_service.UpdateService.Adapter.{AdapterEntry, running, state_eq}
use parking_fee_service.UpdateService.StateManager.{StateManager, list_adapters, get_adapter}
use parking_fee_service.UpdateService.StateManager.Invariant.{IsValid}
use parking_fee_service.UpdateService.StateManager.Running.{
  IsSingle, IsIdle, key_elsewhere, is_running,
}
use parking_fee_service.UpdateService.World.{Env, World, install_task}
use parking_fee_service.UpdateService.Install.{
  InstallReply, InstallError, install_adapter, pull_verify_run,
}
use parking_fee_service.UpdateService.Install.Single.{
  install_adapter_accepts, install_adapter_refuses,
}
use parking_fee_service.UpdateService.Install.Race.{pull_verify_run-other}
use parking_fee_service.UpdateService.Tasks.Defs.{install, task, react, run_task, react_all}
use parking_fee_service.UpdateService.Tasks.Validity.{react_all-IsValid}

-- `list_adapters().iter().filter(|a| a.state == AdapterState::Running).count()`
unfoldable pub running_count : List AdapterEntry → ℕ
unfolding state_eq
running_count [] = 0
running_count (a ∷ rest) =
    if state_eq a.state running then suc (running_count rest) else running_count rest

module _ (env : Env) where
  -- The task that an accepted installation has spawned.
  unfoldable pub run_accepted :
      String → String → Result InstallReply InstallError → Act World (Unit {0})
  run_accepted image_ref checksum (err e) = pure tt
  run_accepted image_ref checksum (ok reply) =
      pull_verify_run env reply.adapter_id image_ref checksum

  -- A request and, where it is accepted, its task.
  unfoldable pub install_settled : String → String → String → Act World (Unit {0})
  unfolding run_accepted
  install_settled job_id image_ref checksum = do
    reply ← install_adapter env job_id image_ref checksum
    run_accepted image_ref checksum reply

-- Where no adapter runs, the task of one leaves at most that one running.
pull_verify_run-IsSingle :
    (env : Env) (id image_ref checksum : String) (w : World)
    → IsIdle w.mgr
    → IsSingle (pull_verify_run env id image_ref checksum w).1.mgr
pull_verify_run-IsSingle env id image_ref checksum w idle j k a b found_j found_k runs_j runs_k =
    let only : (i : String) (e : AdapterEntry)
        → get_adapter i (pull_verify_run env id image_ref checksum w).1.mgr ≡ some e
        → e.state ≡ running
        → id ≡ i =
      λ i e found runs. elim (Bool-cases (id == i)) [
        | inl same ↦ (eq_iff id i).0 same
        | inr other ↦ absurd (
            idle i e (sym (pull_verify_run-other env id i other image_ref checksum w) ∙ found) runs)
      ] in
    sym (only j a found_j runs_j) ∙ only k b found_k runs_k

module _ (env : Env) (job_id image_ref checksum : String) (w : World) where
  pub install_settled-IsValid :
      IsValid w.mgr → IsValid (install_settled env job_id image_ref checksum w).1.mgr
  unfolding install_settled react_all react run_task
  install_settled-IsValid v =
      let w' : World = (install_adapter env job_id image_ref checksum w).1 in
      let asked : IsValid w'.mgr =
        react_all-IsValid env (install job_id image_ref checksum ∷ []) w v in
      elim (Result-cases (install_adapter env job_id image_ref checksum w).0) [
        | inr (e, refused) ↦ rw (refused, install_settled) asked
        | inl (reply, answered) ↦
            rw (answered, install_settled)
              (react_all-IsValid env (task (install_task reply.adapter_id image_ref checksum) ∷ [])
                w' asked)
      ]

  pub install_settled-IsSingle :
      IsValid w.mgr
      → IsSingle w.mgr
      → IsSingle (install_settled env job_id image_ref checksum w).1.mgr
  unfolding install_settled
  install_settled-IsSingle v single = elim (Bool-cases (is_empty image_ref)) [
    | inl missing ↦
        let (msg, refused) =
          install_adapter_refuses env job_id image_ref checksum w (inl missing) in
        rw (refused, install_settled) single
    | inr given ↦ elim (Bool-cases (is_empty checksum)) [
      | inl missing ↦
          let (msg, refused) =
            install_adapter_refuses env job_id image_ref checksum w (inr missing) in
          rw (refused, install_settled) single
      | inr stated ↦
          let (reply, answered, accepted) =
            install_adapter_accepts env job_id image_ref checksum w given stated v single in
          rw (answered, install_settled)
            (pull_verify_run-IsSingle env reply.adapter_id image_ref checksum
              (install_adapter env job_id image_ref checksum w).1 accepted.idle)
    ]
  ]

-- The count of the running adapters.
idle_count :
    (d : Dict AdapterEntry)
    → Distinct d
    → ((j : String) (a : AdapterEntry) → lookup j d ≡ some a → a.state ≢ running)
    → running_count (values d) ≡ 0
unfolding running_count values lookup
idle_count [] distinct idle = refl
idle_count ((k, b) ∷ d) distinct idle =
    let rest =
      idle_count d distinct.1 (λ j a found. idle j a (key_elsewhere k j d a b distinct.0 found)) in
    elim (Bool-cases (state_eq b.state running)) [
      | inl runs ↦ absurd (idle k b (ground (arith, eq_iff k k)) (is_running b.state runs))
      | inr other ↦ rw other rest
    ]

single_count :
    (d : Dict AdapterEntry)
    → Distinct d
    → ((j k : String) (a b : AdapterEntry)
        → lookup j d ≡ some a
        → lookup k d ≡ some b
        → a.state ≡ running
        → b.state ≡ running
        → j ≡ k)
    → running_count (values d) ≤ 1
unfolding running_count values lookup
single_count [] distinct single = omega arith
single_count ((k, b) ∷ d) distinct single = elim (Bool-cases (state_eq b.state running)) [
  | inl runs ↦
      let here : lookup k ((k, b) ∷ d) ≡ some b = ground (arith, eq_iff k k) in
      let rest = idle_count d distinct.1 (λ j a found r.
        let same : k ≡ j =
          single k j b a here (key_elsewhere k j d a b distinct.0 found) (is_running b.state runs)
            r in
        ground (arith, subst (λ i. lookup i d ≡ none) same distinct.0)) in
      rw runs (omega (arith, rest))
  | inr other ↦ rw other (
      single_count d distinct.1 (λ j i a c found_j found_i.
        single j i a c (key_elsewhere k j d a b distinct.0 found_j)
          (key_elsewhere k i d c b distinct.0 found_i)))
]

-- Where at most one adapter runs, the list counts at most one.
pub running_count-le :
    (m : StateManager) → IsValid m → IsSingle m → running_count (list_adapters m) ≤ 1
unfolding list_adapters get_adapter
running_count-le m v single = single_count m.adapters v.distinct single

-- A request: job, image and checksum.
abbrev pub Request : Type 0
Request = String × String × String

module _ (env : Env) where
  -- How many adapters run after each of the requests.
  unfoldable pub counts : List Request → World → List ℕ
  unfolding install_settled running_count
  counts [] w = []
  counts ((job_id, image_ref, checksum) ∷ requests) w =
      let w' = (install_settled env job_id image_ref checksum w).1 in
      running_count (list_adapters w'.mgr) ∷ counts requests w'

  -- To a service where at most one adapter runs, any requests for installations come, each when the task of the one before
  -- has ended, and podman answers anything: after each of them at most one adapter runs.
  pub counts-le :
      (requests : List Request) (w : World)
      → IsValid w.mgr
      → IsSingle w.mgr
      → All (λ n. n ≤ 1) (counts requests w)
  unfolding counts
  counts-le [] w v single = tt
  counts-le ((job_id, image_ref, checksum) ∷ requests) w v single =
      let w' = (install_settled env job_id image_ref checksum w).1 in
      let v' = install_settled-IsValid env job_id image_ref checksum w v in
      let single' = install_settled-IsSingle env job_id image_ref checksum w v single in
      (running_count-le w'.mgr v' single', counts-le requests w' v' single')
