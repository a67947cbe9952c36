-- ===== src/UpdateService.antt =====
-- rhivos/update-service: the adapters that it installs, watches and offloads.
pub mod Config
pub mod Main
pub mod Adapter
pub mod StateManager
pub mod Podman
pub mod World
pub mod Monitor
pub mod Install
pub mod Offload
pub mod Grpc
pub mod Pool
pub mod Testing
pub mod Tasks
mod Tests
