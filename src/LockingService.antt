-- ===== src/LockingService.antt =====
-- rhivos/locking-service: door lock commands under safety constraints.
pub mod Main
pub mod Config
pub mod Command
pub mod Broker
pub mod Safety
pub mod Response
pub mod Process
pub mod Service
pub mod Testing
mod Tests
