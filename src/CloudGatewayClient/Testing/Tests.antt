-- ===== src/CloudGatewayClient/Testing/Tests.antt =====
-- The property tests of the cloud gateway client at concrete inputs: a JSON in which the objects of the test are
-- written as three numbers, and a text of four characters for a telemetry message.
use Prim.Native.Char.{Char}
use Prim.Native.String.{◌∷◌ as ◌∷ₛ◌}
use parking_fee_service.Prelude.{
  ℕ, zero, suc, String, ◌≡◌, refl, ◌==◌, Bool, true, false, Option, none, some, List, [], ◌∷◌,
  Result, ok, err, if◌then◌else◌, arith,
}
use parking_fee_service.Prelude.Dict
use parking_fee_service.Prelude.Dict.{Dict, lookup}
use parking_fee_service.Prelude.Text.{char_eq}
use parking_fee_service.CloudGatewayClient.CommandValidator.{Json, CommandPayload}
use parking_fee_service.CloudGatewayClient.Telemetry.{
  SignalUpdate, is_locked_update, latitude_update, TelemetryMessage,
}
use parking_fee_service.CloudGatewayClient.Testing.{
  is_some, auth_integrity_with_header, auth_missing_header_always_fails,
  command_structural_validity, command_invalid_bytes_fail, Reader, telemetry_completeness, fields,
}
use parking_fee_service.CloudGatewayClient.Testing.Hold.{gateway_tests_hold}
use parking_fee_service.CloudGatewayClient.Testing.Hold.Commands.{IsRoundTrip}
use parking_fee_service.CloudGatewayClient.Testing.Hold.Telemetry.{IsRead, IsWritten}

data JsonValue : Type 0 where
  text : String → JsonValue
  items : JsonValue
  object : Bool → Bool → Bool → JsonValue

abbrev put_if : Bool → String → JsonValue → Dict JsonValue → Dict JsonValue
put_if true key value map = Dict.insert key value map
put_if false key value map = map

abbrev test_map : Bool → Bool → Bool → Dict JsonValue
test_map id action doors =
    put_if doors "doors" items
      (put_if action "action" (text "lock") (put_if id "command_id" (text "c-1") []))

abbrev bit : Bool → ℕ
bit true = 1
bit false = 0

abbrev is_set : ℕ → Bool
is_set zero = false
is_set (suc n) = true

abbrev to_vec : Dict JsonValue → List ℕ
to_vec map =
    bit (is_some (lookup "command_id" map))
    ∷ bit (is_some (lookup "action" map))
    ∷ bit (is_some (lookup "doors" map))
    ∷ []

abbrev from_slice : List ℕ → Result JsonValue String
from_slice (id ∷ action ∷ doors ∷ []) = ok (object (is_set id) (is_set action) (is_set doors))
from_slice _ = err "not an object"

abbrev as_object : JsonValue → Option (Dict JsonValue)
as_object (object id action doors) = some (test_map id action doors)
as_object _ = none

abbrev as_text : JsonValue → Option String
as_text (text s) = some s
as_text _ = none

abbrev is_items : JsonValue → Bool
is_items items = true
is_items _ = false

abbrev json : Json
json = record {
  Value = JsonValue;
  Object = Dict JsonValue;
  Extra = Unit {0};
  from_slice = from_slice;
  as_object = as_object;
  get = λ map key. lookup key map;
  as_str = as_text;
  is_array = is_items;
}

abbrev typed : List ℕ → Result (CommandPayload (Unit {0})) String
typed payload =
    ok (record { command_id = "c-1"; action = "lock"; doors = "driver" ∷ []; extra = tt })

abbrev array : List String → JsonValue
array l = items

read_back :
    (id action doors : Bool)
    → from_slice (to_vec (test_map id action doors)) ≡ ok (object id action doors)
unfolding lookup Dict.insert
read_back id action doors = ground arith

round_trip : IsRoundTrip json typed text array to_vec "c-1" "lock"
unfolding fields
round_trip = record {
  object = λ id action doors. (
    object id action doors,
    ground (arith, read_back id action doors),
    test_map id action doors,
    refl,
    λ key. ground arith,
  );
  id_text = refl;
  action_text = refl;
  list = refl;
}

abbrev flag_char : Option Bool → Char
flag_char none = "-"
flag_char (some true) = "t"
flag_char (some false) = "f"

abbrev number_char : Option (Unit {0}) → Char
number_char none = "-"
number_char (some _) = "n"

-- A message whose numbers have one value.
abbrev to_json : TelemetryMessage (Unit {0}) → String
to_json m =
    flag_char m.is_locked
    ∷ₛ (number_char m.latitude
        ∷ₛ (number_char m.longitude ∷ₛ (flag_char m.parking_active ∷ₛ m.vin)))

abbrev given : Char → Option String
given c = if char_eq c "-" then none else some (c ∷ₛ "")

abbrev key_of : String → String → Option String
key_of (a ∷ₛ (b ∷ₛ (c ∷ₛ (d ∷ₛ rest)))) key =
    if key == "is_locked"
    then given a
    else if key == "latitude"
    then given b
    else if key == "longitude"
    then given c
    else if key == "parking_active"
    then given d
    else some rest
key_of _ key = none

abbrev unit_eq : Unit {0} → Unit {0} → Bool
unit_eq u v = true

abbrev reader : Reader (Unit {0})
reader = record {
  Value = String;
  from_str = λ s. ok s;
  get = key_of;
  as_str = λ v. some v;
  as_bool = λ v. some (v == "t");
  as_f64 = λ v. some tt;
}

module _ (a b c : Char) (rest : String) where
  locked-IsWritten :
      (o : Option Bool)
      → IsWritten unit_eq reader to_json reader.as_bool o
          (flag_char o ∷ₛ (a ∷ₛ (b ∷ₛ (c ∷ₛ rest))))
          "is_locked"
  locked-IsWritten none = refl
  locked-IsWritten (some true) = refl
  locked-IsWritten (some false) = refl

  latitude-IsWritten :
      (o : Option (Unit {0}))
      → IsWritten unit_eq reader to_json reader.as_f64 o
          (a ∷ₛ (number_char o ∷ₛ (b ∷ₛ (c ∷ₛ rest))))
          "latitude"
  latitude-IsWritten none = refl
  latitude-IsWritten (some u) = refl

  longitude-IsWritten :
      (o : Option (Unit {0}))
      → IsWritten unit_eq reader to_json reader.as_f64 o
          (a ∷ₛ (b ∷ₛ (number_char o ∷ₛ (c ∷ₛ rest))))
          "longitude"
  longitude-IsWritten none = refl
  longitude-IsWritten (some u) = refl

  parking-IsWritten :
      (o : Option Bool)
      → IsWritten unit_eq reader to_json reader.as_bool o
          (a ∷ₛ (b ∷ₛ (c ∷ₛ (flag_char o ∷ₛ rest))))
          "parking_active"
  parking-IsWritten none = refl
  parking-IsWritten (some true) = refl
  parking-IsWritten (some false) = refl

messages_read : IsRead unit_eq reader to_json
messages_read m = (
  to_json m,
  refl,
  refl,
  locked-IsWritten _ _ _ m.vin m.is_locked,
  latitude-IsWritten _ _ _ m.vin m.latitude,
  longitude-IsWritten _ _ _ m.vin m.longitude,
  parking-IsWritten _ _ _ m.vin m.parking_active,
  refl,
)

abbrev updates : List (ℕ × SignalUpdate (Unit {0}))
updates = (1, is_locked_update true) ∷ (2, latitude_update tt) ∷ (3, is_locked_update true) ∷ []

gateway_tests_hold_example :
    (auth_integrity_with_header "Bearer demo-token" "demo-token" ≡ true)
    × (auth_missing_header_always_fails "demo-token" ≡ true)
    × (command_structural_validity json typed text array to_vec true "c-1" true "lock" true ≡ true)
    × (command_invalid_bytes_fail json typed (7 ∷ []) ≡ true)
    × (telemetry_completeness unit_eq reader to_json updates ≡ true)
gateway_tests_hold_example =
    gateway_tests_hold json typed text array to_vec unit_eq reader to_json "Bearer demo-token"
      "demo-token" "c-1" "lock" true true true (7 ∷ []) updates round_trip refl (λ u. refl)
      messages_read
