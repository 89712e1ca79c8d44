-- ===== src/Tests.antt =====
-- The theorems at concrete inputs, and runs of the model.
pub mod Delta
pub mod Control
pub mod Store
pub mod Receiving
pub mod Network
pub mod Pushing
pub mod Exchange
pub mod Lock
pub mod Images
pub mod Commands
pub mod Service
