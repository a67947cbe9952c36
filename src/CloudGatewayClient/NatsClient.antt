-- ===== src/CloudGatewayClient/NatsClient.antt =====
-- rhivos/cloud-gateway-client/src/nats_client.rs. The NATS library is a parameter: what the k-th attempt
-- to connect gives, and the answers to subscriptions and publications on a subject.
pub mod Retries
use parking_fee_service.Prelude.{ℕ, String, ◌<>◌, List, [], ◌∷◌, Result, ok, err, get_elem?}
use parking_fee_service.Prelude.Retry
use parking_fee_service.Prelude.Retry.{Step}

pub data NatsError : Type 0 where
  connection_failed : String → NatsError
  retries_exhausted : NatsError
  publish_failed subscribe_failed : String → NatsError

pub record RegistrationMessage : Type 0 where
  pub vin : String
  pub status : String
  pub timestamp : ℕ

abbrev pub max_attempts : ℕ
max_attempts = 5

-- In seconds.
abbrev pub backoff_delays : List ℕ
backoff_delays = 1 ∷ 2 ∷ 4 ∷ 8 ∷ []

-- `NatsClient::connect`
unfoldable pub connect : {C : Type 0} → (ℕ → Result C String) → Result C NatsError × List Step
connect try =
    let (r, steps) = Retry.connect max_attempts (get_elem? backoff_delays) try in
    (elim r [ ok c ↦ ok c | err _ ↦ err retries_exhausted ], steps)

-- `format!("vehicles.{}.…", self.vin)`
unfoldable pub subject : String → String → String
subject vin topic = "vehicles." <> (vin <> ("." <> topic))

module _ {S : Type 0} (subscribe : String → Result S String) (vin : String) where
  -- `subscribe_commands`
  unfoldable pub subscribe_commands : Result S NatsError
  unfolding subject
  subscribe_commands = elim (subscribe (subject vin "commands")) [
    | ok s ↦ ok s
    | err e ↦ err (subscribe_failed e)
  ]

module _ (publish : String → String → Result (Unit {0}) String) (vin : String) where
  unfoldable pub publish_on : String → String → Result (Unit {0}) NatsError
  unfolding subject
  publish_on topic payload = elim (publish (subject vin topic) payload) [
    | ok _ ↦ ok tt
    | err e ↦ err (publish_failed e)
  ]

  -- `publish_registration`, at a reading of the clock that is not before the epoch.
  unfoldable pub publish_registration :
      (RegistrationMessage → String) → ℕ → Result (Unit {0}) NatsError
  unfolding publish_on
  publish_registration to_json secs =
      publish_on "status" (to_json (record { vin = vin; status = "online"; timestamp = secs }))

  -- `publish_response`
  unfoldable pub publish_response : String → Result (Unit {0}) NatsError
  unfolding publish_on
  publish_response json = publish_on "command_responses" json

  -- `publish_telemetry`
  unfoldable pub publish_telemetry : String → Result (Unit {0}) NatsError
  unfolding publish_on
  publish_telemetry json = publish_on "telemetry" json
