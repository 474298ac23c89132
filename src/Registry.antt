-- ===== src/Registry.antt =====
-- pkg/registry/registry: the registry of one node.
pub mod Version
pub mod Options
pub mod State
pub mod Members
pub mod Subscribe
pub mod Subscribing
pub mod Liveness
pub mod Repair
pub mod Shuffle
pub mod Runs
pub mod Metered
pub mod LastSeen
pub mod LocalMember
pub mod Versions
pub mod Replication
pub mod Convergence
pub mod Keys
pub mod Visits
pub mod Rounds
pub mod Detection
pub mod Digests
pub mod Delivered
pub mod Deltas
pub mod Tombstones
pub mod Forwarding
