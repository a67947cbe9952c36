-- ===== src/UpdateService/Podman.antt =====
-- rhivos/update-service/src/podman.rs: the trait `PodmanExecutor` and its implementation over the
-- podman command line. An operation's answer depends on all the calls made before it, latest first,
-- so that an executor may answer the same call differently each time. What the operating system
-- does when a command is run is a parameter of the implementation.
use parking_fee_service.Prelude.{
  String, ◌<>◌, Bool, none, some, List, [], ◌∷◌, if◌then◌else◌, Result, ok, err,
}
use parking_fee_service.Prelude.Number.{ℤ, parse_i32}
use parking_fee_service.Prelude.Text.{trim}

pub record PodmanError : Type 0 where
  pub message : String

-- `PodmanError::new`
unfoldable pub new : String → PodmanError
new msg = record { message = msg }

-- The operations of the trait, as they are recorded.
pub data PodmanCall : Type 0 where
  pull inspect_digest : String → PodmanCall
  run : String → String → PodmanCall
  stop rm rmi wait : String → PodmanCall

pub record PodmanExecutor : Type 0 where
  pub pull : List PodmanCall → String → Result (Unit {0}) PodmanError
  pub inspect_digest : List PodmanCall → String → Result String PodmanError
  pub run : List PodmanCall → String → String → Result (Unit {0}) PodmanError
  pub stop : List PodmanCall → String → Result (Unit {0}) PodmanError
  pub rm : List PodmanCall → String → Result (Unit {0}) PodmanError
  pub rmi : List PodmanCall → String → Result (Unit {0}) PodmanError
  pub wait : List PodmanCall → String → Result ℤ PodmanError

-- `std::process::Output`, its two texts decoded by `from_utf8_lossy`.
pub record Output : Type 0 where
  pub success : Bool
  pub stdout : String
  pub stderr : String

-- The arguments that each operation hands to `podman`.
unfoldable pub args : PodmanCall → List String
args (PodmanCall.pull image_ref) = "pull" ∷ image_ref ∷ []
args (PodmanCall.inspect_digest image_ref) =
    "image" ∷ "inspect" ∷ "--format" ∷ "{{.Digest}}" ∷ image_ref ∷ []
args (PodmanCall.run adapter_id image_ref) =
    "run" ∷ "-d" ∷ "--name" ∷ adapter_id ∷ "--network=host" ∷ image_ref ∷ []
args (PodmanCall.stop adapter_id) = "stop" ∷ adapter_id ∷ []
args (PodmanCall.rm adapter_id) = "rm" ∷ adapter_id ∷ []
args (PodmanCall.rmi image_ref) = "rmi" ∷ image_ref ∷ []
args (PodmanCall.wait adapter_id) = "wait" ∷ adapter_id ∷ []

-- The subcommand as the error messages name it.
unfoldable pub command_name : PodmanCall → String
command_name (PodmanCall.pull _) = "podman pull"
command_name (PodmanCall.inspect_digest _) = "podman image inspect"
command_name (PodmanCall.run _ _) = "podman run"
command_name (PodmanCall.stop _) = "podman stop"
command_name (PodmanCall.rm _) = "podman rm"
command_name (PodmanCall.rmi _) = "podman rmi"
command_name (PodmanCall.wait _) = "podman wait"

-- `output` runs `podman` with arguments, after earlier calls: its output, or the text of the error.
module _ (output : List PodmanCall → List String → Result Output String) where
  -- The part that the methods share: run, and turn a failing status into an error.
  unfoldable pub run_command : PodmanCall → List PodmanCall → Result Output PodmanError
  unfolding args command_name new
  run_command call before = elim (output before (args call)) [
    | err e ↦ err (new ("failed to execute " <> command_name call <> ": " <> e))
    | ok out ↦ if out.success then ok out else err (new (trim out.stderr))
  ]

  -- The methods without a result.
  unfoldable pub run_unit : PodmanCall → List PodmanCall → Result (Unit {0}) PodmanError
  unfolding run_command
  run_unit call before = elim (run_command call before) [ err e ↦ err e | ok _ ↦ ok tt ]

  -- `inspect_digest`
  unfoldable pub run_digest : String → List PodmanCall → Result String PodmanError
  unfolding run_command
  run_digest image_ref before = elim (run_command (PodmanCall.inspect_digest image_ref) before) [
    | err e ↦ err e
    | ok out ↦ ok (trim out.stdout)
  ]

  -- `wait`
  unfoldable pub run_wait : (String → String) → String → List PodmanCall → Result ℤ PodmanError
  unfolding run_command new
  run_wait describe adapter_id before = elim (run_command (PodmanCall.wait adapter_id) before) [
    | err e ↦ err e
    | ok out ↦ elim (parse_i32 (trim out.stdout)) [
      | none ↦ err (new ("failed to parse exit code: " <> describe (trim out.stdout)))
      | some code ↦ ok code
    ]
  ]

  -- `RealPodmanExecutor`; `describe` renders the `ParseIntError` of a text.
  unfoldable pub real_executor : (String → String) → PodmanExecutor
  unfolding run_unit run_digest run_wait
  real_executor describe = record {
    pull = λ before image_ref. run_unit (PodmanCall.pull image_ref) before;
    inspect_digest = λ before image_ref. run_digest image_ref before;
    run = λ before adapter_id image_ref. run_unit (PodmanCall.run adapter_id image_ref) before;
    stop = λ before adapter_id. run_unit (PodmanCall.stop adapter_id) before;
    rm = λ before adapter_id. run_unit (PodmanCall.rm adapter_id) before;
    rmi = λ before image_ref. run_unit (PodmanCall.rmi image_ref) before;
    wait = λ before adapter_id. run_wait describe adapter_id before;
  }
