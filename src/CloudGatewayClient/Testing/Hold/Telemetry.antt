-- ===== src/CloudGatewayClient/Testing/Hold/Telemetry.antt =====
-- The property test of rhivos/cloud-gateway-client/tests/test_property.rs on telemetry.
use parking_fee_service.Prelude.{
  ℕ, String, ◌≡◌, refl, Bool, true, false, Option, none, some, List, [], ◌∷◌, ok, if◌then◌else◌,
}
use parking_fee_service.CloudGatewayClient.Telemetry.{
  SignalUpdate, is_locked_update, latitude_update, longitude_update, parking_active_update,
  TelemetryMessage, TelemetryState, bool_eq, new, apply, message_of, update,
}
use parking_fee_service.CloudGatewayClient.Testing.{
  is_some, Reader, Known, none_known, learn, field, shows, is_complete, is_complete_if,
  complete_from, telemetry_completeness,
}

module _ {F : Type 0} (eq : F → F → Bool) (reader : Reader F)
    (to_json : TelemetryMessage F → String) where
  -- A field that is written where it is given, and read back.
  abbrev pub IsWritten :
      {A : Type 0} → (reader.Value → Option A) → Option A → reader.Value → String → Type 0
  IsWritten read none parsed key = reader.get parsed key ≡ none
  IsWritten read (some v) parsed key = field eq reader read parsed key ≡ some v

  -- `serde` writes the fields of a message that are given and skips the others, and `serde_json` reads them
  -- back.
  abbrev pub IsRead : Type 0
  IsRead =
      (m : TelemetryMessage F)
      → (parsed : reader.Value) × (reader.from_str (to_json m) ≡ ok parsed)
        × (field eq reader reader.as_str parsed "vin" ≡ some m.vin)
        × IsWritten reader.as_bool m.is_locked parsed "is_locked"
        × IsWritten reader.as_f64 m.latitude parsed "latitude"
        × IsWritten reader.as_f64 m.longitude parsed "longitude"
        × IsWritten reader.as_bool m.parking_active parsed "parking_active"
        × (is_some (reader.get parsed "timestamp") ≡ true)

  abbrev pub Reflexive : {A : Type 0} → (A → A → Bool) → Type 0
  Reflexive {A} same = (v : A) → same v v ≡ true

  IsWritten-shows :
      {A : Type 0} (same : A → A → Bool) (read : reader.Value → Option A) (known : Option A)
      (parsed : reader.Value) (key : String)
      → Reflexive same
      → IsWritten read known parsed key
      → shows eq reader same read known parsed key ≡ true
  unfolding shows
  IsWritten-shows same read none parsed key same_refl written = rw written refl
  IsWritten-shows same read (some v) parsed key same_refl written = rw (written, same_refl v) refl

  bool_eq_refl : Reflexive bool_eq
  bool_eq_refl true = refl
  bool_eq_refl false = refl

  -- The state of a loop that has learned `known`.
  abbrev state_of : Known F → TelemetryState F
  state_of known = record {
    vin = "VIN";
    is_locked = known.is_locked;
    latitude = known.latitude;
    longitude = known.longitude;
    parking_active = known.parking_active;
  }

  state_of-learn :
      (signal : SignalUpdate F) (known : Known F)
      → (apply eq signal (state_of known)).1 ≡ state_of (learn signal known)
  unfolding apply learn
  state_of-learn (is_locked_update v) known = refl
  state_of-learn (latitude_update v) known = refl
  state_of-learn (longitude_update v) known = refl
  state_of-learn (parking_active_update v) known = refl

  module _ (eq_same : Reflexive eq) (is_read : IsRead) where
    sent_complete :
        (changed : Bool) (secs : ℕ) (known : Known F)
        → is_complete_if eq reader known
            (if changed then some (to_json (message_of eq secs (state_of known))) else none)
          ≡ true
    unfolding is_complete_if is_complete message_of
    sent_complete false secs known = refl
    sent_complete true secs known =
        let (parsed, read, vin, locked, latitude, longitude, parking, time) =
          is_read (message_of eq secs (state_of known)) in
        rw
          (
            read,
            vin,
            IsWritten-shows bool_eq reader.as_bool known.is_locked parsed "is_locked" bool_eq_refl
                locked,
            IsWritten-shows eq reader.as_f64 known.latitude parsed "latitude" eq_same latitude,
            IsWritten-shows eq reader.as_f64 known.longitude parsed "longitude" eq_same longitude,
            IsWritten-shows bool_eq reader.as_bool known.parking_active parsed "parking_active"
                bool_eq_refl parking,
            time,
          )
          refl

    complete_holds :
        (updates : List (ℕ × SignalUpdate F)) (known : Known F)
        → complete_from eq reader to_json updates (state_of known) known ≡ true
    unfolding complete_from update
    complete_holds [] known = refl
    complete_holds ((secs, signal) ∷ rest) known =
        rw
          (
            state_of-learn signal known,
            sent_complete (apply eq signal (state_of known)).0 secs (learn signal known),
            complete_holds rest (learn signal known),
          )
          refl

    pub telemetry_holds :
        (updates : List (ℕ × SignalUpdate F))
        → telemetry_completeness eq reader to_json updates ≡ true
    unfolding telemetry_completeness new
    telemetry_holds updates = complete_holds updates none_known
