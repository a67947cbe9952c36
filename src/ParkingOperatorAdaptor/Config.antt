-- ===== src/ParkingOperatorAdaptor/Config.antt =====
-- rhivos/parking-operator-adaptor/src/config.rs. `env` gives the environment variables, `none` for one
-- that is unset.
use parking_fee_service.Prelude.{ℕ, String, Option, none, some, Result, ok, err, unwrap_or}
use parking_fee_service.Prelude.Number.{parse_u16}

pub record Config : Type 0 where
  pub parking_operator_url : String
  pub data_broker_addr : String
  pub grpc_port : ℕ  -- u16
  pub vehicle_id : String
  pub zone_id : String

pub data ConfigError : Type 0 where
  invalid_grpc_port : String → ConfigError

-- The `match` on `GRPC_PORT`.
unfoldable pub load_port : Option String → Result ℕ ConfigError
load_port none = ok 50053
load_port (some val) = elim (parse_u16 val) [ none ↦ err (invalid_grpc_port val) | some n ↦ ok n ]

unfoldable pub with_port : (String → Option String) → ℕ → Config
with_port env grpc_port = record {
  parking_operator_url = unwrap_or (env "PARKING_OPERATOR_URL") "http://localhost:8080";
  data_broker_addr = unwrap_or (env "DATA_BROKER_ADDR") "http://localhost:55556";
  grpc_port = grpc_port;
  vehicle_id = unwrap_or (env "VEHICLE_ID") "DEMO-VIN-001";
  zone_id = unwrap_or (env "ZONE_ID") "zone-demo-1";
}

-- `load_config`
unfoldable pub load_config : (String → Option String) → Result Config ConfigError
unfolding load_port with_port
load_config env = elim (load_port (env "GRPC_PORT")) [
  | err e ↦ err e
  | ok grpc_port ↦ ok (with_port env grpc_port)
]
