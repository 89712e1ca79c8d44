-- ===== src/Network.antt =====
-- internal/network: the peers a node knows, how they are found and checked, and how a name becomes
-- an address.
pub mod Peers
pub mod Address
pub mod Discovery
pub mod Broadcast
