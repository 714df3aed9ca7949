-- ===== src/OmniPaxos.antt =====
-- a2-omnipaxos
pub mod Ballot
pub mod Persister
pub mod Types
pub mod Log
pub mod Election
pub mod Links
pub mod Prepare
pub mod Promise
pub mod Accept
pub mod Make
pub mod Delivery
pub mod Step
pub mod Cluster
pub mod Takeover
pub mod Invariant
pub mod Replication
pub mod Divergence
pub mod Quorums
