-- ===== src/UpdateService/Install/Starts.antt =====
-- When the task spawned by install_adapter of rhivos/update-service/src/install.rs starts a container.
use parking_fee_service.Prelude.{
  String, ◌≡◌, refl, ◌⊎◌, inl, inr, List, [], ◌∷◌, ok, Result-cases, Bool-cases, ◌==◌, eq_iff, ap,
  ◌∙◌, ℕ, suc,
}
use parking_fee_service.UpdateService.Podman.{PodmanCall}
use parking_fee_service.UpdateService.World.{
  Env, World, pull, inspect_digest, run, rmi, spawn, transition,
}
use parking_fee_service.UpdateService.Install.{pull_verify_run}
use parking_fee_service.UpdateService.Install.Outcome.{pulled_world, inspected_world}

-- How often a container was started.
abbrev pub starts : List PodmanCall → ℕ
starts [] = 0
starts (PodmanCall.run _ _ ∷ calls) = suc (starts calls)
starts (PodmanCall.pull _ ∷ calls) = starts calls
starts (PodmanCall.inspect_digest _ ∷ calls) = starts calls
starts (PodmanCall.stop _ ∷ calls) = starts calls
starts (PodmanCall.rm _ ∷ calls) = starts calls
starts (PodmanCall.rmi _ ∷ calls) = starts calls
starts (PodmanCall.wait _ ∷ calls) = starts calls

-- The task starts a container only after the image was pulled and its digest found to be the
-- requested checksum, and then exactly one; otherwise it starts none.
pub pull_verify_run_starts :
    (env : Env) (id image_ref checksum : String) (w : World)
    → let after = (pull_verify_run env id image_ref checksum w).1 in
      ((starts after.calls ≡ suc (starts w.calls))
        × (env.podman.pull w.calls image_ref ≡ ok tt)
        × (env.podman.inspect_digest (PodmanCall.pull image_ref ∷ w.calls) image_ref ≡ ok checksum))
      ⊎ (starts after.calls ≡ starts w.calls)
unfolding pull_verify_run pull inspect_digest run rmi spawn transition
pull_verify_run_starts env id image_ref checksum w =
    elim (Result-cases (env.podman.pull w.calls image_ref)) [
      | inr (x, failed) ↦ rw failed (inr refl)
      | inl (_, pulled) ↦
          elim (Result-cases
            (env.podman.inspect_digest (pulled_world image_ref w).calls image_ref)) [
              | inr (x, failed) ↦ rw (pulled, failed) (inr refl)
              | inl (digest, inspected) ↦ elim (Bool-cases (digest == checksum)) [
                | inr differ ↦ rw (pulled, inspected, differ) (inr refl)
                | inl same ↦
                    elim (Result-cases
                      (env.podman.run (inspected_world image_ref w).calls id image_ref)) [
                        | inl (_, started) ↦ inl (
                          rw (pulled, inspected, same, started) refl,
                          pulled,
                          inspected ∙ ap ok ((eq_iff digest checksum).0 same),
                        )
                        | inr (x, failed) ↦ inl (
                          rw (pulled, inspected, same, failed) refl,
                          pulled,
                          inspected ∙ ap ok ((eq_iff digest checksum).0 same),
                        )
                      ]
              ]
            ]
    ]
