-- ===== src/Cli.antt =====
-- internal/cli: the approval queue, the export pipeline, the commands of the two prompts, and the
-- garbage collection.
pub mod Approvals
pub mod Pipeline
pub mod Gc
pub mod Commands
pub mod Push
pub mod Client
