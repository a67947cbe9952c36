-- ===== src/UpdateService/Config.antt =====
-- rhivos/update-service/src/config.rs and the start in main.rs. `read` is reading a file, `decode` is
-- serde_json's reading of an object's fields, each of which may be absent.
use parking_fee_service.Prelude.{ℕ, String, Option, Result, ok, err, unwrap_or}

pub record Config : Type 0 where
  pub grpc_port : ℕ  -- u16
  pub registry_url : String
  pub inactivity_timeout_secs : ℕ  -- u64
  pub container_storage_path : String

abbrev pub default_grpc_port : ℕ
default_grpc_port = 50052

abbrev pub default_inactivity_timeout_secs : ℕ
default_inactivity_timeout_secs = 86400

abbrev pub default_container_storage_path : String
default_container_storage_path = "/var/lib/containers/adapters/"

-- `ConfigError`, with the texts of the library's errors.
pub data ConfigError : Type 0 where
  io parse : String → ConfigError

-- `std::io::Error`, as the match on its kind sees it.
pub data IoError : Type 0 where
  not_found : IoError
  other : String → IoError

-- `default_config`
unfoldable pub default_config : Config
default_config = record {
  grpc_port = default_grpc_port;
  registry_url = "";
  inactivity_timeout_secs = default_inactivity_timeout_secs;
  container_storage_path = default_container_storage_path;
}

-- The fields of the file.
pub record Fields : Type 0 where
  pub grpc_port : Option ℕ
  pub registry_url : Option String
  pub inactivity_timeout_secs : Option ℕ
  pub container_storage_path : Option String

-- The derived `Deserialize`: the `#[serde(default)]` of each field.
unfoldable pub with_defaults : Fields → Config
with_defaults fields = record {
  grpc_port = unwrap_or fields.grpc_port default_grpc_port;
  registry_url = unwrap_or fields.registry_url "";
  inactivity_timeout_secs =
      unwrap_or fields.inactivity_timeout_secs default_inactivity_timeout_secs;
  container_storage_path = unwrap_or fields.container_storage_path default_container_storage_path;
}

module _ (read : String → Result String IoError) (decode : String → Result Fields String) where
  -- What is made of the contents.
  unfoldable pub from_str : String → Result Config ConfigError
  unfolding with_defaults
  from_str contents = elim (decode contents) [
    | err e ↦ err (parse e)
    | ok fields ↦ ok (with_defaults fields)
  ]

  -- `load_config`
  unfoldable pub load_config : String → Result Config ConfigError
  unfolding default_config from_str
  load_config path = elim (read path) [
    | ok contents ↦ from_str contents
    | err not_found ↦ ok default_config
    | err (other e) ↦ err (io e)
  ]
