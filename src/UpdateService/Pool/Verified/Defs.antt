-- ===== src/UpdateService/Pool/Verified/Defs.antt =====
-- What a start of a container rests on, and what a suspended task relies on.
use parking_fee_service.Prelude.{String, ◌≡◌, List, [], ◌∷◌, ok, All}
use parking_fee_service.UpdateService.Podman.{PodmanCall}
use parking_fee_service.UpdateService.World.{Env}
use parking_fee_service.UpdateService.Pool.{
  Task, stopping, pulling, inspecting, starting, discarding, waiting, removing_stop, removing_rm,
  removing_rmi, offloading_rm, offloading_rmi,
}
use parking_fee_service.UpdateService.Pool.Schedule.{
  Pool, Move, ask_install, ask_remove, tick, go, abandon,
}

-- Podman reported the digest `checksum` for the image at some point of the calls, latest first.
pub data Verified (env : Env) (image_ref checksum : String) : List PodmanCall → Type 0 where
  reported :
      (before : List PodmanCall)
      → env.podman.inspect_digest before image_ref ≡ ok checksum
      → Verified env image_ref checksum (PodmanCall.inspect_digest image_ref ∷ before)
  earlier :
      (call : PodmanCall) (before : List PodmanCall)
      → Verified env image_ref checksum before
      → Verified env image_ref checksum (call ∷ before)

-- `Asked` holds of the images and checksums of the requests.
module _ (env : Env) (Asked : String → String → Type 0) where
  -- Every start of a container comes after podman reported a digest that was asked for its image.
  abbrev pub IsCovered : List PodmanCall → Type 0
  IsCovered [] = Unit
  IsCovered (PodmanCall.run id image_ref ∷ calls) =
      ((checksum : String) × Asked image_ref checksum × Verified env image_ref checksum calls)
      × IsCovered calls
  IsCovered (PodmanCall.pull _ ∷ calls) = IsCovered calls
  IsCovered (PodmanCall.inspect_digest _ ∷ calls) = IsCovered calls
  IsCovered (PodmanCall.stop _ ∷ calls) = IsCovered calls
  IsCovered (PodmanCall.rm _ ∷ calls) = IsCovered calls
  IsCovered (PodmanCall.rmi _ ∷ calls) = IsCovered calls
  IsCovered (PodmanCall.wait _ ∷ calls) = IsCovered calls

  -- What a task relies on.
  abbrev pub IsJustified : List PodmanCall → Task → Type 0
  IsJustified calls (stopping _ image_ref checksum _) = Asked image_ref checksum
  IsJustified calls (pulling _ image_ref checksum) = Asked image_ref checksum
  IsJustified calls (inspecting _ image_ref checksum) = Asked image_ref checksum
  IsJustified calls (starting _ image_ref checksum) =
      Asked image_ref checksum × Verified env image_ref checksum calls
  IsJustified calls (discarding _) = Unit
  IsJustified calls (waiting _) = Unit
  IsJustified calls (removing_stop _ _) = Unit
  IsJustified calls (removing_rm _ _) = Unit
  IsJustified calls (removing_rmi _ _) = Unit
  IsJustified calls (offloading_rm _ _) = Unit
  IsJustified calls (offloading_rmi _ _) = Unit

  pub record IsSafe (p : Pool) : Type 0 where
    pub covered : IsCovered p.world.calls
    pub justified : All (IsJustified p.world.calls) p.live

  -- A request may come only with an image and a checksum that are asked for.
  abbrev pub IsAsked : Move → Type 0
  IsAsked (ask_install _ image_ref checksum) = Asked image_ref checksum
  IsAsked (ask_remove _) = Unit
  IsAsked (tick _ _) = Unit
  IsAsked (go _) = Unit
  IsAsked (abandon _) = Unit
