-- ===== src/Vehicle.antt =====
-- The services of rhivos/ together, over the signals of the data broker. How the broker delivers what is
-- published is a parameter; `Delivers` of Prelude/Signals is what the services rely on.
mod Streams
pub mod Session
pub mod Commands
pub mod Sensors
mod Tests
