-- ===== src/ShardKv.antt =====
-- a3b-sharding/shardkv: the sharded key/value servers.
pub mod Types
pub mod Maps
pub mod Apply
pub mod Reconf
pub mod Server
pub mod Requests
pub mod Handover
pub mod Arrivals
pub mod Fetch
pub mod Others
pub mod CatchUp
pub mod Follow
pub mod Client
pub mod Answers
pub mod Service
