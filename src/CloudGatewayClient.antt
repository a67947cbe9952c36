-- ===== src/CloudGatewayClient.antt =====
-- rhivos/cloud-gateway-client: commands from the cloud to the vehicle, responses and telemetry back.
pub mod Main
pub mod Config
pub mod CommandValidator
pub mod Telemetry
pub mod BrokerClient
pub mod NatsClient
pub mod Relay
pub mod Testing
mod Tests
