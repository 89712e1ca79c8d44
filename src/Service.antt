-- ===== src/Service.antt =====
-- internal/service: the lock that keeps a second daemon from starting, and the state file; and the
-- parts of cmd/baleen that start, find and stop the service.
pub mod Lock
pub mod State
pub mod Daemon
