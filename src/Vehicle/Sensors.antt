-- ===== src/Vehicle/Sensors.antt =====
-- The mock sensors and the safety check of the locking service.
use parking_fee_service.Prelude.{
  ℕ, ◌≡◌, refl, String, Bool, List, [], ◌∷◌, ok, some, ◌>>=◌, if◌then◌else◌, arith,
}
use parking_fee_service.Prelude.Dict
use parking_fee_service.Prelude.Signals.{bool_value, float_value, Publication, TypedValue}
use parking_fee_service.LockingService.Broker
use parking_fee_service.LockingService.Broker.{
  read_float, grpc_get_float, grpc_get_bool, signal_door_open, signal_speed, Request, grpc_client,
}
use parking_fee_service.LockingService.Response.{CommandResponse}
use parking_fee_service.LockingService.Safety.{
  Speed, World, safe, vehicle_moving, door_open, check_safety, get_float, get_bool,
}
use parking_fee_service.MockSensors
use parking_fee_service.MockSensors.{
  DatapointValue, float, bool, publish_datapoint, typed_value, speed_sensor, door_sensor,
}

module _ {F : Type 0} (tools : MockSensors.ValClient F) (broker_addr : String) where
  -- What the two tools publish, one after the other, latest first.
  unfoldable pub sensed : F → Bool → List (Publication F)
  sensed v is_open =
      let act = (do
        code ← speed_sensor tools broker_addr v
        door_sensor tools broker_addr is_open) in
      (act []).1

  publish_datapoint_taken :
      (path : String) (value : DatapointValue F) (pubs : List (Publication F))
      → tools.connect broker_addr ≡ ok tt
      → tools.publish_value path (typed_value value) ≡ ok tt
      → publish_datapoint tools broker_addr path value pubs
        ≡ (ok tt, (path, typed_value value) ∷ pubs)
  unfolding publish_datapoint MockSensors.publish
  publish_datapoint_taken path value pubs connected taken = ground arith

  pub sensed_lem :
      (v : F) (is_open : Bool)
      → tools.connect broker_addr ≡ ok tt
      → ((path : String) (value : TypedValue F) → tools.publish_value path value ≡ ok tt)
      → sensed v is_open
        ≡ (signal_door_open, bool_value is_open) ∷ (signal_speed, float_value v) ∷ []
  unfolding sensed speed_sensor door_sensor typed_value
  sensed_lem v is_open connected taken = ground (
    arith,
    publish_datapoint_taken signal_speed (float v) [] connected
        (taken signal_speed (float_value v)),
    publish_datapoint_taken signal_door_open (bool is_open) ((signal_speed, float_value v) ∷ [])
        connected (taken signal_door_open (bool_value is_open)),
  )

-- The speed sensor and the door sensor have published, over a broker that takes both values, and the broker
-- answers a read with the value published last: then the locking service, through its gRPC client, finds the
-- vehicle moving if the speed is 1 or more, and else the door open if it was published as open, and else
-- finds it safe to lock.
pub sensors_decide :
    {F : Type 0} (tools : MockSensors.ValClient F) (broker_addr : String) (v : F) (is_open : Bool)
    (narrow : F → F) (client : Broker.ValClient F) (speed : Speed F)
    (to_json : CommandResponse → String) (clock : ℕ → ℕ) (w : World)
    → tools.connect broker_addr ≡ ok tt
    → ((path : String) (value : TypedValue F) → tools.publish_value path value ≡ ok tt)
    → ((log : List Request) (path : String)
        → client.get_value log path ≡ ok (Dict.lookup path (sensed tools broker_addr v is_open)))
    → (check_safety
        (record {
          broker = grpc_client narrow client;
          speed = speed;
          to_json = to_json;
          clock = clock;
        })
        w).0
      ≡ (if speed.at_least_one v then vehicle_moving else if is_open then door_open else safe)
unfolding check_safety get_float get_bool grpc_client grpc_get_float grpc_get_bool Dict.lookup
sensors_decide tools broker_addr v is_open narrow client speed to_json clock w connected taken
      answers =
    let held = sensed_lem tools broker_addr v is_open connected taken in
    let log' = read_float signal_speed ∷ w.log in
    let speed_read : grpc_get_float narrow client w.log signal_speed ≡ ok (some v) =
      rw (answers w.log signal_speed, grpc_get_float, held) refl in
    let door_read : grpc_get_bool narrow client log' signal_door_open ≡ ok (some is_open) =
      rw (answers log' signal_door_open, grpc_get_bool, held) refl in
    ground arith
