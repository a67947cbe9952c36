-- ===== src/UpdateService/Testing/Properties/Hold.antt =====
-- Which property tests of rhivos/update-service hold of all inputs, and which does not.
use Prim.Native.Char.{code}
use Prim.Native.String.{[], ◌∷◌ as ◌∷ₛ◌}
use text.Mathlib.TextLemmas.{
  append_assoc, append_cancel_left, cons-append, nil-append, head-eq_of_cons-eq,
}
use parking_fee_service.Prelude.{
  ℕ, zero, suc, ◌-◌, ◌<◌, ◌≤◌, ◌≡◌, refl, sym, ap, ◌∙◌, String, ◌<>◌, true, false, not, arith,
  Bool-cases, inl, inr, ◌==◌, eq_iff, eq_refl, ◌&&◌, leb,
}
use parking_fee_service.Prelude.Text.{is_empty, rsplit_next, replace, contains}
use parking_fee_service.UpdateService.Adapter.{derive_adapter_id, state_eq}
use parking_fee_service.UpdateService.Adapter.Unique.{
  IsPlain, reference, id-reference, derive_adapter_id_merges,
}
use parking_fee_service.UpdateService.StateManager.{
  Clock, new, get_running_adapter, find_running, enter, event_of, get_adapter,
  get_offload_candidates, filter_expired, is_expired,
}
use parking_fee_service.UpdateService.StateManager
use parking_fee_service.Prelude.Dict
use parking_fee_service.Prelude.Dict.{lookup}
use parking_fee_service.UpdateService.Offload.{run_offload_cycle, offload_all}
use parking_fee_service.UpdateService.StateManager.Invariant.{IsValid, new-IsValid}
use parking_fee_service.UpdateService.StateManager.Running.{IsSingle}
use parking_fee_service.UpdateService.World.{
  World, create_adapter, gets, transition, spawn, pull, inspect_digest, run, rmi,
}
use parking_fee_service.UpdateService.Install.Sequence.{
  install_settled, run_accepted, install_settled-IsValid, install_settled-IsSingle,
  running_count-le,
}
use parking_fee_service.UpdateService.Testing
use parking_fee_service.UpdateService.Testing.{
  mock_podman, set_pull_result, set_inspect_result, set_run_result, set_rmi_result, rmi_calls,
}
use parking_fee_service.UpdateService.Install.{
  install_adapter, stop_running, fresh_entry, pull_verify_run, after_pull, after_inspect, after_run,
}
use parking_fee_service.UpdateService.Testing.Properties.{
  all_valid, contains_pair, contains_text, adapter_id_determinism, adapter_id_uniqueness, round,
  single_from, single_adapter_invariant, state_transition_validity, checksum_verification_soundness,
  offload_timing_correctness, start_world,
}

id_given : (name rest : String) → is_empty (name <> ("-" ∷ₛ rest)) ≡ false
id_given [] rest = rw nil-append refl
id_given (x ∷ₛ name) rest = rw cons-append refl

determinism_of :
    (path name tag : String)
    → IsPlain name
    → IsPlain tag
    → (derive_adapter_id (reference path name tag) == derive_adapter_id (reference path name tag)
        && not (is_empty (derive_adapter_id (reference path name tag))))
      ≡ true
determinism_of path name tag n t =
    let given : is_empty (derive_adapter_id (reference path name tag)) ≡ false =
      ap is_empty (id-reference path name tag n t) ∙ id_given name tag in
    rw (eq_refl (derive_adapter_id (reference path name tag)), given) refl

determinism_holds :
    (registry path name tag : String)
    → IsPlain name
    → IsPlain tag
    → adapter_id_determinism registry path name tag ≡ true
unfolding adapter_id_determinism
determinism_holds registry path name tag n t = elim (Bool-cases (is_empty path)) [
  | inl none_given ↦ rw none_given (determinism_of registry name tag n t)
  | inr given ↦ rw given (determinism_of (registry <> ("/" ∷ₛ path)) name tag n t)
]

-- The two segments differ in what follows the name.
segments_differ :
    (name middle tag : String)
    → name <> (":" ∷ₛ (middle <> ("-" ∷ₛ tag))) == (name <> ("-" ∷ₛ middle)) <> (":" ∷ₛ tag) ≡ false
segments_differ name middle tag =
    elim (Bool-cases
      (name <> (":" ∷ₛ (middle <> ("-" ∷ₛ tag))) == (name <> ("-" ∷ₛ middle)) <> (":" ∷ₛ tag))) [
        | inr differ ↦ differ
        | inl same ↦
            let equal = (eq_iff _ _).0 same ∙ append_assoc name ("-" ∷ₛ middle) (":" ∷ₛ tag) in
            let after = append_cancel_left name _ _ equal ∙ cons-append "-" middle (":" ∷ₛ tag) in
            absurd (omega (arith, ap code (head-eq_of_cons-eq after)))
      ]

-- The property test on the uniqueness of identifiers fails, whatever the name, middle and tag without a slash and a
-- colon, at the references `name:middle-tag` and `name-middle:tag`.
uniqueness_fails :
    (name middle tag : String)
    → IsPlain name
    → IsPlain middle
    → IsPlain tag
    → adapter_id_uniqueness name (middle <> ("-" ∷ₛ tag)) (name <> ("-" ∷ₛ middle)) tag ≡ false
unfolding adapter_id_uniqueness
uniqueness_fails name middle tag n m t =
    let merged =
      derive_adapter_id_merges "registry.example.com" "registry.example.com" name middle tag n m
        t in
    rw
      (
        segments_differ name middle tag,
        merged,
        eq_refl
            (derive_adapter_id (reference "registry.example.com" (name <> ("-" ∷ₛ middle)) tag)),
      )
      refl

-- The two digests differ in what follows their common start.
digests_differ :
    (suffix : String) → ("sha256:actual_" <> suffix == "sha256:expected_" <> suffix) ≡ false
digests_differ suffix =
    elim (Bool-cases ("sha256:actual_" <> suffix == "sha256:expected_" <> suffix)) [
      | inr differ ↦ differ
      | inl same ↦
          let equal =
            sym (append_assoc "sha256:" "actual_" suffix)
            ∙ (eq_iff _ _).0 same
            ∙ append_assoc "sha256:" "expected_" suffix in
          let after = append_cancel_left "sha256:" _ _ equal in
          let heads =
            sym (cons-append "a" "ctual_" suffix) ∙ after ∙ cons-append "e" "xpected_" suffix in
          absurd (omega (arith, ap code (head-eq_of_cons-eq heads)))
    ]

at_most_one : (n : ℕ) → n ≤ 1 → leb n 1 ≡ true
at_most_one n h = ground arith

start_world-IsValid : (clock : ℕ → Clock) → IsValid (start_world clock).mgr
unfolding start_world
start_world-IsValid clock = new-IsValid

start_world-IsSingle : (clock : ℕ → Clock) → IsSingle (start_world clock).mgr
unfolding start_world new get_adapter lookup
start_world-IsSingle clock j k a b found_j found_k runs_j runs_k = cc

checksum_given : (suffix : String) → is_empty ("sha256:expected_" <> suffix) ≡ false
checksum_given suffix = ap is_empty (cons-append "s" "ha256:expected_" suffix)

module _ (clock : ℕ → Clock) where
  round-IsValid :
      (job : ℕ → String) (i : ℕ) (w : World) → IsValid w.mgr → IsValid (round clock job i w).mgr
  unfolding round
  round-IsValid job i w v = install_settled-IsValid _ (job i) _ _ w v

  round-IsSingle :
      (job : ℕ → String) (i : ℕ) (w : World)
      → IsValid w.mgr
      → IsSingle w.mgr
      → IsSingle (round clock job i w).mgr
  unfolding round
  round-IsSingle job i w v single = install_settled-IsSingle _ (job i) _ _ w v single

  single_holds :
      (job : ℕ → String) (n i : ℕ) (w : World)
      → IsValid w.mgr
      → IsSingle w.mgr
      → single_from clock job n i w ≡ true
  unfolding single_from
  single_holds job zero i w v single = refl
  single_holds job (suc n) i w v single =
      let v' = round-IsValid job i w v in
      let single' = round-IsSingle job i w v single in
      let rest = single_holds job n (suc i) (round clock job i w) v' single' in
      rw (at_most_one _ (running_count-le (round clock job i w).mgr v' single'), rest) refl

  transition_holds : (job : String) → state_transition_validity clock job ≡ true
  unfolding state_transition_validity start_world all_valid contains_pair install_settled
      run_accepted install_adapter gets get_running_adapter find_running stop_running fresh_entry
      create_adapter StateManager.create_adapter transition StateManager.transition enter event_of
      spawn pull_verify_run after_pull after_inspect after_run pull inspect_digest run rmi lookup
      Dict.insert Dict.values derive_adapter_id mock_podman Testing.new set_pull_result
      set_inspect_result set_run_result set_rmi_result new state_eq get_adapter rsplit_next replace
      contains
  transition_holds job = refl

  checksum_holds : (job suffix : String) → checksum_verification_soundness clock job suffix ≡ true
  unfolding checksum_verification_soundness start_world rmi_calls contains_text install_settled
      run_accepted pull_verify_run after_pull after_inspect after_run install_adapter gets
      get_running_adapter find_running stop_running fresh_entry create_adapter
      StateManager.create_adapter transition StateManager.transition enter event_of spawn pull
      inspect_digest run rmi lookup Dict.insert Dict.values derive_adapter_id mock_podman
      Testing.new set_pull_result set_inspect_result set_run_result set_rmi_result new state_eq
      get_adapter rsplit_next replace contains
  checksum_holds job suffix = rw (checksum_given suffix, digests_differ suffix) refl

  timing_holds :
      (instant now timeout : ℕ)
      → now - instant < timeout
      → offload_timing_correctness clock instant now timeout ≡ true
  unfolding offload_timing_correctness start_world new create_adapter StateManager.create_adapter
      Dict.insert run_offload_cycle get_offload_candidates gets filter_expired is_expired
      Dict.values offload_all get_adapter lookup state_eq
  timing_holds instant now timeout young = ground arith

  -- These property tests of the crate hold of all inputs: of every registry, path, name and tag, where the name and the tag
  -- have no slash and no colon, the one on determinism; of every number of rounds the one on a single adapter; the one
  -- on transitions; of every suffix the one on checksums; and of every two instants that are less than the timeout apart the
  -- one on offloading.
  pub update_tests_hold :
      (registry path name tag suffix : String) (job : ℕ → String) (n instant now timeout : ℕ)
      → IsPlain name
      → IsPlain tag
      → now - instant < timeout
      → (adapter_id_determinism registry path name tag ≡ true)
        × (single_adapter_invariant clock job n ≡ true)
        × (state_transition_validity clock (job 0) ≡ true)
        × (checksum_verification_soundness clock (job 0) suffix ≡ true)
        × (offload_timing_correctness clock instant now timeout ≡ true)
  unfolding single_adapter_invariant
  update_tests_hold registry path name tag suffix job n instant now timeout plain_name plain_tag
        young =
      (
        determinism_holds registry path name tag plain_name plain_tag,
        single_holds job n 0 (start_world clock) (start_world-IsValid clock)
            (start_world-IsSingle clock),
        transition_holds (job 0),
        checksum_holds (job 0) suffix,
        timing_holds instant now timeout young,
      )
