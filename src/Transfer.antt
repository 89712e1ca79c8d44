-- ===== src/Transfer.antt =====
-- internal/transfer: the delta transfer of images.
pub mod Archive
pub mod Partition
pub mod Prune
pub mod Stitch
pub mod Delta
pub mod Hub
pub mod Progress
pub mod Manager
pub mod Engine
pub mod Session
pub mod Cache
pub mod Status
pub mod Digest
pub mod Receiver
pub mod Sender
pub mod Exchange
pub mod Throttle
