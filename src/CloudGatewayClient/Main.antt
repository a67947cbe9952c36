-- ===== src/CloudGatewayClient/Main.antt =====
-- rhivos/cloud-gateway-client/src/main.rs: the start of the service. Every dial, subscription and
-- publication is recorded, latest first; the first failure ends the process with exit code 1.
pub mod Order
use parking_fee_service.Prelude.{
  ℕ, String, ◌<>◌, Option, List, [], ◌∷◌, Result, ok, err, Act, ◌>>=◌, pure,
}
use parking_fee_service.Prelude.Signals.{Item}
use parking_fee_service.CloudGatewayClient.Config.{Config, from_env}
use parking_fee_service.CloudGatewayClient.BrokerClient
use parking_fee_service.CloudGatewayClient.BrokerClient.{
  BrokerError, signal_is_locked, signal_latitude, signal_longitude, signal_parking_active,
  signal_response, forward_responses, forward_telemetry, subscribe_failed,
}
use parking_fee_service.CloudGatewayClient.NatsClient
use parking_fee_service.CloudGatewayClient.NatsClient.{
  NatsError, RegistrationMessage, subject, subscribe_commands, publish_registration,
}
use parking_fee_service.CloudGatewayClient.Telemetry.{SignalUpdate}
use parking_fee_service.CloudGatewayClient.Relay.{Message}

-- What the process meets: the environment variables, NATS, the broker and the clock.
pub record Outside (F : Type 0) : Type 0 where
  pub vars : String → Option String
  pub nats_attempts : String → ℕ → Result (Unit {0}) String
  pub nats_publish : String → String → Result (Unit {0}) String
  pub nats_subscribe : String → Result (List Message) String
  pub broker_dial : String → Result (Unit {0}) String
  pub broker_subscribe : List String → Result (List (Item F)) String
  pub to_json : RegistrationMessage → String
  pub secs : ℕ

pub data Effect : Type 0 where
  dialled_nats dialled_broker : String → Effect
  published : String → Effect  -- to a subject of NATS
  listened : List String → Effect  -- to signals of the broker
  subscribed : String → Effect  -- to a subject of NATS

-- What the loops run on.
pub record Started (F : Type 0) : Type 0 where
  pub config : Config
  pub responses : List String
  pub updates : List (SignalUpdate F)
  pub messages : List Message

-- `TELEMETRY_SIGNALS`
abbrev pub telemetry_signals : List String
telemetry_signals =
    signal_is_locked ∷ signal_latitude ∷ signal_longitude ∷ signal_parking_active ∷ []

-- The failure of a subscription to the broker.
unfoldable pub subscription :
    {A B : Type 0} → String → (A → B) → Result A String → Result B BrokerError
subscription name forward (ok items) = ok (forward items)
subscription name forward (err e) = err (subscribe_failed (name <> (": " <> e)))

module _ {F : Type 0} (outside : Outside F) where
  unfoldable pub dial_nats : Config → Act (List Effect) (Result (Unit {0}) NatsError)
  dial_nats config log = (
    (NatsClient.connect (outside.nats_attempts config.nats_url)).0,
    dialled_nats config.nats_url ∷ log,
  )

  unfoldable pub dial_broker : Config → Act (List Effect) (Result (Unit {0}) BrokerError)
  dial_broker config log = (
    BrokerClient.connect (outside.broker_dial config.databroker_addr),
    dialled_broker config.databroker_addr ∷ log,
  )

  unfoldable pub register : Config → Act (List Effect) (Result (Unit {0}) NatsError)
  register config log = (
    publish_registration outside.nats_publish config.vin outside.to_json outside.secs,
    published (subject config.vin "status") ∷ log,
  )

  -- `subscribe_responses`
  unfoldable pub subscribe_responses : Act (List Effect) (Result (List String) BrokerError)
  unfolding subscription
  subscribe_responses log = (
    subscription "subscribe_responses" forward_responses
        (outside.broker_subscribe (signal_response ∷ [])),
    listened (signal_response ∷ []) ∷ log,
  )

  -- `subscribe_telemetry`
  unfoldable pub subscribe_telemetry :
      Act (List Effect) (Result (List (SignalUpdate F)) BrokerError)
  unfolding subscription
  subscribe_telemetry log = (
    subscription "subscribe_telemetry" forward_telemetry
        (outside.broker_subscribe telemetry_signals),
    listened telemetry_signals ∷ log,
  )

  unfoldable pub listen_commands : Config → Act (List Effect) (Result (List Message) NatsError)
  listen_commands config log = (
    subscribe_commands outside.nats_subscribe config.vin,
    subscribed (subject config.vin "commands") ∷ log,
  )

  -- `main` from each of its steps on, to the start of the loops.
  unfoldable pub after_telemetry :
      Config
      → List String
      → Result (List (SignalUpdate F)) BrokerError
      → Act (List Effect) (Result (Started F) ℕ)
  unfolding listen_commands
  after_telemetry config responses (err _) = pure (err 1)
  after_telemetry config responses (ok updates) = do
    commands ← listen_commands config
    pure (elim commands [
      | err _ ↦ err 1
      | ok messages ↦ ok (record {
        config = config;
        responses = responses;
        updates = updates;
        messages = messages;
      })
    ])

  unfoldable pub after_responses :
      Config → Result (List String) BrokerError → Act (List Effect) (Result (Started F) ℕ)
  unfolding subscribe_telemetry after_telemetry
  after_responses config (err _) = pure (err 1)
  after_responses config (ok responses) = do
    updates ← subscribe_telemetry
    after_telemetry config responses updates

  unfoldable pub after_registration :
      Config → Result (Unit {0}) NatsError → Act (List Effect) (Result (Started F) ℕ)
  unfolding subscribe_responses after_responses
  after_registration config (err _) = pure (err 1)
  after_registration config (ok _) = do
    responses ← subscribe_responses
    after_responses config responses

  unfoldable pub after_broker :
      Config → Result (Unit {0}) BrokerError → Act (List Effect) (Result (Started F) ℕ)
  unfolding register after_registration
  after_broker config (err _) = pure (err 1)
  after_broker config (ok _) = do registered ← register config; after_registration config registered

  unfoldable pub after_nats :
      Config → Result (Unit {0}) NatsError → Act (List Effect) (Result (Started F) ℕ)
  unfolding dial_broker after_broker
  after_nats config (err _) = pure (err 1)
  after_nats config (ok _) = do broker ← dial_broker config; after_broker config broker

  -- `main` up to its loops: what they run on, or the exit code.
  unfoldable pub start : Act (List Effect) (Result (Started F) ℕ)
  unfolding dial_nats after_nats
  start log = elim (from_env outside.vars) [
    | err _ ↦ (err 1, log)
    | ok config ↦ (do nats ← dial_nats config; after_nats config nats) log
  ]
