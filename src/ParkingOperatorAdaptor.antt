-- ===== src/ParkingOperatorAdaptor.antt =====
-- rhivos/parking-operator-adaptor: the parking sessions that follow the door lock.
pub mod Main
pub mod Session
pub mod Testing
pub mod Config
pub mod Operator
pub mod EventLoop
pub mod GrpcServer
pub mod Broker
mod Tests
