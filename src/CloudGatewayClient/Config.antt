-- ===== src/CloudGatewayClient/Config.antt =====
-- rhivos/cloud-gateway-client/src/config.rs. `env` gives the environment variables, `none` for one that
-- is unset.
use parking_fee_service.Prelude.{String, Option, none, some, Result, ok, err, unwrap_or}

pub record Config : Type 0 where
  pub vin : String
  pub nats_url : String
  pub databroker_addr : String
  pub bearer_token : String

pub data ConfigError : Type 0 where
  missing_vin : ConfigError

-- `Config::from_env`
unfoldable pub from_env : (String → Option String) → Result Config ConfigError
from_env env = elim (env "VIN") [
  | none ↦ err missing_vin
  | some vin ↦ ok (record {
    vin = vin;
    nats_url = unwrap_or (env "NATS_URL") "nats://localhost:4222";
    databroker_addr = unwrap_or (env "DATABROKER_ADDR") "http://localhost:55556";
    bearer_token = unwrap_or (env "BEARER_TOKEN") "demo-token";
  })
]
