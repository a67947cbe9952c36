-- ===== src/LockingService/Config.antt =====
-- rhivos/locking-service/src/config.rs. `env` gives the environment variables, `none` for one that is
-- unset.
use parking_fee_service.Prelude.{String, Option, unwrap_or}

abbrev pub default_databroker_addr : String
default_databroker_addr = "http://localhost:55556"

-- `get_databroker_addr`
unfoldable pub get_databroker_addr : (String → Option String) → String
get_databroker_addr env = unwrap_or (env "DATABROKER_ADDR") default_databroker_addr
