-- ===== src/LockingService/Response.antt =====
-- rhivos/locking-service/src/response.rs. Rendering a response as JSON is serde's: the parameter
-- `to_json`. `secs` is the reading of the clock, which is not before the epoch.
use parking_fee_service.Prelude.{ℕ, String, Option, none, some}
use parking_fee_service.Prelude.Number.{ℤ, as_i64}

pub record CommandResponse : Type 0 where
  pub command_id : String
  pub status : String
  pub reason : Option String
  pub timestamp : ℤ

module _ (to_json : CommandResponse → String) where
  unfoldable pub success_response : ℕ → String → String
  success_response secs command_id = to_json (record {
    command_id = command_id;
    status = "success";
    reason = none;
    timestamp = as_i64 secs;
  })

  unfoldable pub failure_response : ℕ → String → String → String
  failure_response secs command_id reason = to_json (record {
    command_id = command_id;
    status = "failed";
    reason = some reason;
    timestamp = as_i64 secs;
  })
