-- ===== src/Docker.antt =====
-- internal/docker: the images of the local Docker daemon, their export and their import.
pub mod Daemon
pub mod Preflight
pub mod Export
pub mod Import
pub mod Lines
