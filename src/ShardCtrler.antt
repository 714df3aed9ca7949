-- ===== src/ShardCtrler.antt =====
-- a3b-sharding/shardctrler: the controller that assigns shards to groups.
pub mod Types
pub mod Balance
pub mod Apply
pub mod Propose
pub mod History
pub mod Clerk
pub mod Queries
pub mod Loops
pub mod Joins
pub mod Leaves
pub mod Runs
pub mod Channels
