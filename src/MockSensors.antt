-- ===== src/MockSensors.antt =====
-- rhivos/mock-sensors/src: the command-line tools that publish a sensor's value. The arguments are those
-- that clap has accepted. `F` stands for the floats. The publications that succeed are recorded, latest
-- first.
use parking_fee_service.Prelude.{
  ℕ, String, Bool, List, ◌∷◌, Result, ok, err, Act, ◌>>=◌, pure, ◌≡◌, refl,
}
use parking_fee_service.Prelude.Signals.{
  TypedValue, bool_value, float_value, double_value, Publication,
}
use parking_fee_service.LockingService.Broker

pub data DatapointValue (F : Type 0) : Type 0 where
  double float : F → DatapointValue F
  bool : Bool → DatapointValue F

-- The `match` on the value.
unfoldable pub typed_value : {F : Type 0} → DatapointValue F → TypedValue F
typed_value (double v) = double_value v
typed_value (float v) = float_value v
typed_value (bool v) = bool_value v

-- The broker: connecting to an address, and the answer to a publication.
pub record ValClient (F : Type 0) : Type 0 where
  pub connect : String → Result (Unit {0}) String
  pub publish_value : String → TypedValue F → Result (Unit {0}) String

module _ {F : Type 0} (broker : ValClient F) (broker_addr : String) where
  unfoldable pub publish :
      String → TypedValue F → Act (List (Publication F)) (Result (Unit {0}) String)
  publish path value log = elim (broker.publish_value path value) [
    | err e ↦ (err e, log)
    | ok _ ↦ (ok tt, (path, value) ∷ log)
  ]

  -- `publish_datapoint`
  unfoldable pub publish_datapoint :
      String → DatapointValue F → Act (List (Publication F)) (Result (Unit {0}) String)
  unfolding typed_value publish
  publish_datapoint path value log = elim (broker.connect broker_addr) [
    | err e ↦ (err e, log)
    | ok _ ↦ publish path (typed_value value) log
  ]

  -- The exit code of a tool whose last publication ended so.
  abbrev pub exit_code : Result (Unit {0}) String → ℕ
  exit_code (ok _) = 0
  exit_code (err _) = 1

  -- bin/door-sensor.rs
  unfoldable pub door_sensor : Bool → Act (List (Publication F)) ℕ
  unfolding publish_datapoint
  door_sensor is_open = do
    outcome ← publish_datapoint "Vehicle.Cabin.Door.Row1.DriverSide.IsOpen" (bool is_open)
    pure (exit_code outcome)

  -- bin/speed-sensor.rs
  unfoldable pub speed_sensor : F → Act (List (Publication F)) ℕ
  unfolding publish_datapoint
  speed_sensor speed = do
    outcome ← publish_datapoint "Vehicle.Speed" (float speed)
    pure (exit_code outcome)

  -- bin/location-sensor.rs after the latitude.
  unfoldable pub after_latitude : F → Result (Unit {0}) String → Act (List (Publication F)) ℕ
  unfolding publish_datapoint
  after_latitude lon (err _) = pure 1
  after_latitude lon (ok _) = do
    outcome ← publish_datapoint "Vehicle.CurrentLocation.Longitude" (double lon)
    pure (exit_code outcome)

  -- bin/location-sensor.rs
  unfoldable pub location_sensor : F → F → Act (List (Publication F)) ℕ
  unfolding after_latitude
  location_sensor lat lon = do
    outcome ← publish_datapoint "Vehicle.CurrentLocation.Latitude" (double lat)
    after_latitude lon outcome

-- The tools write the signals that the locking service reads.
door_signal : Broker.signal_door_open ≡ "Vehicle.Cabin.Door.Row1.DriverSide.IsOpen"
door_signal = refl

speed_signal : Broker.signal_speed ≡ "Vehicle.Speed"
speed_signal = refl
