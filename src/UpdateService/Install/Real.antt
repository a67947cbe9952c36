-- ===== src/UpdateService/Install/Real.antt =====
-- The installation task over the podman command line.
use parking_fee_service.Prelude.{
  String, ◌≡◌, true, ◌⊎◌, inl, inr, List, [], ◌∷◌, Result, ok, arith, ℕ, suc, Result-cases,
  Bool-cases,
}
use parking_fee_service.Prelude.Text.{trim}
use parking_fee_service.UpdateService.Podman.{
  PodmanCall, Output, args, run_command, run_unit, run_digest, real_executor, new,
}
use parking_fee_service.UpdateService.StateManager.{Clock}
use parking_fee_service.UpdateService.World.{Env, World}
use parking_fee_service.UpdateService.Install.{pull_verify_run}
use parking_fee_service.UpdateService.Install.Starts.{starts, pull_verify_run_starts}

module _ (output : List PodmanCall → List String → Result Output String) where
  -- A run of podman that ends with success, and what it prints.
  pub record Succeeds (before : List PodmanCall) (arguments : List String) (printed : String)
      : Type 0 where
    pub out : Output
    pub ran : output before arguments ≡ ok out
    pub success : out.success ≡ true
    pub stdout : out.stdout ≡ printed

  run_command-Succeeds :
      (call : PodmanCall) (before : List PodmanCall) (out : Output)
      → run_command output call before ≡ ok out
      → Succeeds before (args call) out.stdout
  unfolding run_command new
  run_command-Succeeds call before out h = elim (Result-cases (output before (args call))) [
    | inr (e, failed) ↦ absurd (ground arith)
    | inl (o, ran) ↦ elim (Bool-cases o.success) [
      | inr failing ↦ absurd (ground arith)
      | inl success ↦ record { out = o; ran = ran; success = success; stdout = ground arith }
    ]
  ]

  run_unit-Succeeds :
      (call : PodmanCall) (before : List PodmanCall)
      → run_unit output call before ≡ ok tt
      → (printed : String) × Succeeds before (args call) printed
  unfolding run_unit
  run_unit-Succeeds call before h = elim (Result-cases (run_command output call before)) [
    | inr (e, failed) ↦ absurd (ground arith)
    | inl (out, ran) ↦ (out.stdout, run_command-Succeeds call before out ran)
  ]

  run_digest-Succeeds :
      (image_ref digest : String) (before : List PodmanCall)
      → run_digest output image_ref before ≡ ok digest
      → (printed : String) × (trim printed ≡ digest)
        × Succeeds before (args (PodmanCall.inspect_digest image_ref)) printed
  unfolding run_digest
  run_digest-Succeeds image_ref digest before h =
      elim (Result-cases (run_command output (PodmanCall.inspect_digest image_ref) before)) [
        | inr (e, failed) ↦ absurd (ground arith)
        | inl (out, ran) ↦ (
          out.stdout,
          ground arith,
          run_command-Succeeds (PodmanCall.inspect_digest image_ref) before out ran,
        )
      ]

  -- `Arc::new(RealPodmanExecutor::new())`
  abbrev pub real_env : (String → String) → (ℕ → Clock) → Env
  real_env describe clock = record { podman = real_executor output describe; clock = clock }

  -- Over the podman command line the task starts one container or none. Where it starts one, `podman pull IMAGE` ended with
  -- success before, and then `podman image inspect --format {{.Digest}} IMAGE` did and printed, up to the white space around it, the
  -- requested checksum.
  pub pull_verify_run_real :
      (describe : String → String) (clock : ℕ → Clock) (id image_ref checksum : String) (w : World)
      → let after = (pull_verify_run (real_env describe clock) id image_ref checksum w).1 in
        ((starts after.calls ≡ suc (starts w.calls))
          × ((pulled : String) × Succeeds w.calls ("pull" ∷ image_ref ∷ []) pulled)
          × ((printed : String) × (trim printed ≡ checksum)
              × Succeeds
                  (PodmanCall.pull image_ref ∷ w.calls)
                  ("image" ∷ "inspect" ∷ "--format" ∷ "{{.Digest}}" ∷ image_ref ∷ [])
                  printed))
        ⊎ (starts after.calls ≡ starts w.calls)
  unfolding real_executor args
  pull_verify_run_real describe clock id image_ref checksum w =
      elim (pull_verify_run_starts (real_env describe clock) id image_ref checksum w) [
        | inr idle ↦ inr idle
        | inl (started, pulled, verified) ↦ inl (
          started,
          run_unit-Succeeds (PodmanCall.pull image_ref) w.calls pulled,
          run_digest-Succeeds image_ref checksum (PodmanCall.pull image_ref ∷ w.calls) verified,
        )
      ]
