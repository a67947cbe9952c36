-- ===== src/LockingService/Command/Validity.antt =====
-- Which commands pass `validate_command`.
use parking_fee_service.Prelude.{
  String, ◌≡◌, ◌↔◌, refl, true, false, none, List, [], ◌∷◌, All, ok, arith, ◌==◌, eq_iff,
  Bool-cases, inl, inr, ◌≢◌,
}
use parking_fee_service.Prelude.Text.{is_empty}
use parking_fee_service.LockingService.Command.{
  LockCommand, validate_command, find_unsupported, contains_driver,
}

-- A command is well formed if it has an identifier and names the driver's door, and no other.
pub record IsWellFormed (cmd : LockCommand) : Type 0 where
  pub identified : is_empty cmd.command_id ≡ false
  pub drivers_only : All (λ door. door ≡ "driver") cmd.doors
  pub some_door : cmd.doors ≢ []

supported :
    (doors : List String) → find_unsupported doors ≡ none → All (λ door. door ≡ "driver") doors
unfolding find_unsupported
supported [] h = tt
supported (door ∷ doors) h = elim (Bool-cases (door == "driver")) [
  | inl this ↦ ((eq_iff door "driver").0 this, supported doors (ground arith))
  | inr other ↦ absurd (ground arith)
]

find_unsupported-none :
    (doors : List String) → All (λ door. door ≡ "driver") doors → find_unsupported doors ≡ none
unfolding find_unsupported
find_unsupported-none [] h = refl
find_unsupported-none (door ∷ doors) h =
    ground (arith, eq_iff door "driver", find_unsupported-none doors h.1)

pub contains_driver_first :
    (doors : List String)
    → All (λ door. door ≡ "driver") doors
    → doors ≢ []
    → contains_driver doors ≡ true
unfolding contains_driver
contains_driver_first [] h ne = absurd (ne refl)
contains_driver_first (door ∷ doors) h ne = ground (arith, eq_iff door "driver")

-- `validate_command` accepts exactly the commands with an identifier and a non-empty list of doors
-- that are all the driver's.
pub validate_command_iff : (cmd : LockCommand) → (validate_command cmd ≡ ok tt) ↔ IsWellFormed cmd
unfolding validate_command find_unsupported contains_driver
validate_command_iff cmd = (
  λ h. record {
    identified = ground arith;
    drivers_only = supported cmd.doors (ground arith);
    some_door = λ e. ground arith;
  },
  λ f. ground (
    arith,
    find_unsupported-none cmd.doors f.drivers_only,
    contains_driver_first cmd.doors f.drivers_only f.some_door,
  ),
)
