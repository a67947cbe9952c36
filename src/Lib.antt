-- ===== src/Lib.antt =====
-- The vehicle services of rhivos/ (Rust): what they do with locks, parking sessions, adapters and the
-- messages of the cloud.
--
-- The program. Four services run in the vehicle; the first three meet over a signal broker.
-- `locking-service` takes lock and unlock commands from a signal, checks the vehicle's speed and door,
-- and writes the lock's state and a response. `parking-operator-adaptor` sees the lock's state and
-- starts and stops parking sessions at an operator over HTTP. `cloud-gateway-client` takes commands
-- from NATS, checks the bearer token and the payload, writes them to the broker, and publishes
-- responses and telemetry. `update-service` installs, watches, offloads and removes adapters, which
-- are containers run by podman.
--
-- Files and code.
-- - Prelude: shared types and lemmas. Base passes on the library's names, with Rust's `Result` and the
--   type `Act` of actions on a state; Text has the string functions that the code calls, Number signed
--   and parsed numbers, Dict the hash map with string keys, Retry the connection loop that
--   locking-service/src/broker.rs, parking-operator-adaptor/src/broker.rs and
--   cloud-gateway-client/src/nats_client.rs write out, and Signals the values and streams of the
--   broker.
-- - UpdateService: Adapter is adapter.rs, StateManager state.rs, Podman podman.rs, Install install.rs,
--   Monitor monitor.rs, Offload offload.rs and Grpc grpc.rs of rhivos/update-service/src. World holds
--   what the tasks share: the state manager, the podman calls, the readings of the clocks and the
--   spawned tasks. A stretch of a handler after an await is a function on the await's result. Tasks
--   runs requests, spawned tasks and timer ticks; StateManager/Ops runs the single operations. Pool
--   has the same handlers and tasks as suspended tasks that go on one await at a time, in any order
--   (Pool/Schedule), so that a run is any interleaving, in which a client may also go away and its
--   handler is dropped at its await. Config is config.rs, and Main is main.rs up to the server, with
--   the timer that it starts.
-- - LockingService: Command is command.rs, Broker broker.rs, Response response.rs, Safety safety.rs,
--   Process process.rs and Config config.rs of rhivos/locking-service/src; Service is the loop of
--   main.rs, and Main its command line.
-- - ParkingOperatorAdaptor: Session, Config, Operator, EventLoop, GrpcServer, Broker and Main are the
--   files of those names in rhivos/parking-operator-adaptor/src.
-- - CloudGatewayClient: CommandValidator is command_validator.rs, Telemetry telemetry.rs, BrokerClient
--   broker_client.rs, NatsClient nats_client.rs, Config config.rs, Main the start and Relay the loops
--   of main.rs of rhivos/cloud-gateway-client/src; the types of errors.rs and models.rs stand where
--   they are used.
-- - MockSensors: lib.rs and the tools of bin/ of rhivos/mock-sensors/src.
-- - Vehicle: the services together. What one publishes another one receives through a broker that is a
--   parameter; Session joins the locking service and the adaptor, Commands the gateway and the locking
--   service, Sensors the mock sensors and the locking service.
-- - Testing of LockingService, ParkingOperatorAdaptor and UpdateService: the test doubles of
--   testing.rs, and of podman.rs, and in Testing/Properties the property tests of proptest_cases.rs,
--   as Boolean tests of their inputs; CloudGatewayClient/Testing has those of
--   rhivos/cloud-gateway-client/tests/test_property.rs. LockingService/Testing/Wire is a text form of
--   responses that shows that the hypothesis on serde_json can hold.
-- Each service has a module Tests with concrete runs.
--
-- Parameters. What is not in the repository is an argument: podman's and the broker's answers, which
-- may depend on all that was asked before; the operator's HTTP answers; JSON (serde_json); NATS; the
-- clocks; floating-point numbers, with the operations on them that the code uses. Theorems hold for
-- all of these unless they name a hypothesis.
--
-- Bounds. Loops over lists are structural. The retry loops count down their rounds, four for the
-- operator and five for the connections, which are the loops' own bounds, so no fuel is added. Event
-- loops are runs over the list of the events that come. Where a pool of tasks is run for a number of
-- steps, the number that is enough is computed from where the tasks stand (`total` in Pool/Cost);
-- `i64` casts keep their wrap-around.
--
-- Not modelled: logging, signal handling, the parsing of command lines by clap and the gRPC servers of
-- the `main` functions, generated protocol code, the unit tests of the source files, the tests that
-- start containers, and the Go programs of backend/ and mock/. A podman operation and its answer are
-- one moment of a run.
pub mod Prelude
pub mod UpdateService
pub mod ParkingOperatorAdaptor
pub mod LockingService
pub mod CloudGatewayClient
pub mod MockSensors
pub mod Vehicle
