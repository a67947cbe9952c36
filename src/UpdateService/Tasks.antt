-- ===== src/UpdateService/Tasks.antt =====
-- The requests and tasks of rhivos/update-service together.
pub mod Defs
pub mod Validity
