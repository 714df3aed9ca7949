-- ===== src/KvPaxos.antt =====
-- a3-kvpaxos: the replicated key/value service and its clerk.
pub mod Ids
pub mod Server
pub mod Handlers
pub mod Decimal
pub mod Replies
pub mod Refinement
pub mod Client
pub mod Looks
pub mod Service
pub mod Acknowledged
