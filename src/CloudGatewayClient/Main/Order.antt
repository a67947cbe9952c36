-- ===== src/CloudGatewayClient/Main/Order.antt =====
-- The order in which the service starts, and where it stops.
use parking_fee_service.Prelude.{
  ℕ, ◌≡◌, refl, Bool, true, false, List, [], ◌∷◌, Result, ok, err, is_ok, if◌then◌else◌, arith,
  Result-cases, inl, inr,
}
use parking_fee_service.CloudGatewayClient.Config.{Config, ConfigError, from_env}
use parking_fee_service.CloudGatewayClient.BrokerClient
use parking_fee_service.CloudGatewayClient.BrokerClient.{signal_response}
use parking_fee_service.CloudGatewayClient.NatsClient
use parking_fee_service.CloudGatewayClient.NatsClient.{
  subject, publish_registration, subscribe_commands,
}
use parking_fee_service.CloudGatewayClient.Main.{
  Outside, Effect, dialled_nats, dialled_broker, published, listened, subscribed, Started,
  telemetry_signals, start, dial_nats, dial_broker, register, subscribe_responses,
  subscribe_telemetry, listen_commands, after_nats, after_broker, after_registration,
  after_responses, after_telemetry, subscription,
}

-- Steps with whether each succeeds: those that are taken, up to the first that fails, latest first.
abbrev pub taken : List (Effect × Bool) → List Effect → List Effect
taken [] log = log
taken ((step, works) ∷ steps) log = if works then taken steps (step ∷ log) else step ∷ log

abbrev pub succeed : List (Effect × Bool) → Bool
succeed [] = true
succeed ((step, works) ∷ steps) = if works then succeed steps else false

module _ {F : Type 0} (outside : Outside F) where
  -- The steps of the start, in their order.
  abbrev pub steps : Config → List (Effect × Bool)
  steps config =
      (
        dialled_nats config.nats_url,
        is_ok (NatsClient.connect (outside.nats_attempts config.nats_url)).0,
      )
      ∷ (dialled_broker config.databroker_addr, is_ok (outside.broker_dial config.databroker_addr))
      ∷ (
        published (subject config.vin "status"),
        is_ok (publish_registration outside.nats_publish config.vin outside.to_json outside.secs),
      )
      ∷ (listened (signal_response ∷ []), is_ok (outside.broker_subscribe (signal_response ∷ [])))
      ∷ (listened telemetry_signals, is_ok (outside.broker_subscribe telemetry_signals))
      ∷ (
        subscribed (subject config.vin "commands"),
        is_ok (subscribe_commands outside.nats_subscribe config.vin),
      )
      ∷ []

  abbrev pub exit_code : Result (Started F) ℕ → ℕ
  exit_code (ok _) = 0
  exit_code (err code) = code

  -- How `start` goes for a configuration.
  abbrev pub Goes : Result Config ConfigError → Result (Started F) ℕ × List Effect → Type 0
  Goes (err _) r = (exit_code r.0 ≡ 1) × (r.1 ≡ [])
  Goes (ok config) r =
      (exit_code r.0 ≡ (if succeed (steps config) then 0 else 1)) × (r.1 ≡ taken (steps config) [])

  -- Without a VIN the process exits with code 1 and does nothing. With one it dials NATS and the broker,
  -- registers, subscribes to the responses, to the telemetry signals and to the commands, in this
  -- order; it stops at the first of these that fails, with exit code 1, and comes to its loops if none
  -- does.
  pub start-Goes : Goes (from_env outside.vars) (start outside [])
  unfolding start dial_nats dial_broker register subscribe_responses subscribe_telemetry
      listen_commands after_nats after_broker after_registration after_responses after_telemetry
      subscription BrokerClient.connect
  start-Goes = elim (Result-cases (from_env outside.vars)) [
    | inr (e, missing) ↦ rw (missing, start) (refl, refl)
    | inl (config, found) ↦ rw (found, start) (ground arith, ground arith)
  ]
