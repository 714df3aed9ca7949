-- ===== src/Lib.antt =====
-- OmniPaxos-KV: replicated key/value services on OmniPaxos, a sharded service with a shard
-- controller, and futures.
--
-- The program. A peer of a2-omnipaxos/omnipaxos.go keeps a log; a leader, chosen by heartbeats and
-- ballots, gets a majority of promises, replicates its log and decides entries, which each peer sends
-- in order to its service. a2-omnipaxos/persister.go is the peer's stable storage. The service of
-- a3-kvpaxos applies decided commands to a map and answers its clients from the list of responses.
-- a3b-sharding/shardctrler keeps numbered configurations, which give each of ten shards to a group;
-- the servers of a3b-sharding/shardkv hold the shards of their group and hand them over when the
-- configuration changes. a1-futures/future.go stands alone: a future is a channel for one value, and
-- Wait collects the first values that pass a test, or what there is at a timeout.
--
-- The files.
--   Prelude            what the modules share: Boolean tests, lists, signed integers, maps
--   OmniPaxos          a2-omnipaxos. Ballot (Ballot, compare, max), Persister, Types (messages, the
--                      durable state, the peer), Log (suffix, prefix, addToApplyChan, persist),
--                      Election (HeartBeatHandler, checkLeader, triggerLeader), Links (the round of
--                      startTimer), Prepare, Promise and Accept (the handlers and Proposal), Make. A
--                      handler is a function from the peer and the message to the peer and the
--                      messages that it sends; `none` is a panic. Step is the relation of all events
--                      of a peer; Invariant, Replication, Quorums, Delivery and Divergence hold
--                      proofs. Cluster has the peers together, for the time in which one leader
--                      stays: a queue to each peer for AcceptSync and Accept, and a set of all other
--                      messages that were sent; its proofs are in Loose, Quiet (steps that leave the
--                      log alone), Round, Steady and Handlers (what holds of a round, and what a
--                      proposal and a message of the queue do to it), Agreement, Syncs and Begins
--                      (the start of the round), Holders, Majority, Reports, Held and Decided (how
--                      many peers have what is decided), Accepted (who has accepted the round) and
--                      Successor (from one round to the next leader). Takeover and its Survival say
--                      what a new leader keeps of the logs that it is promised.
--   KvPaxos            a3-kvpaxos. Ids (getId, parseId), Server (readApply), Handlers (Get, PutAppend),
--                      Client (the clerk's loops). Refinement has the service as a function of the
--                      order of the decided commands; Looks, Service and Acknowledged compose clerk,
--                      handler and applied commands; further proofs in Decimal and Replies
--   ShardCtrler        a3b-sharding/shardctrler. Types, Balance (maxGroup, minGroup, balance), Apply
--                      (applyCommands and all it calls), Runs (its loop), Propose, Clerk, and Channels
--                      (the lock and the channels of propose and applyCommands as steps); proofs in
--                      Balance/Sizes, Extremes, Ends and Lengths, Joins, Leaves, History, Queries,
--                      Loops
--   ShardKv            a3b-sharding/shardkv. Types, Maps (copyMap, the merge of the last requests),
--                      Apply (apply.go), Server (propose and the handlers), Reconf and CatchUp
--                      (reconf.go), Client (the clerk's loops); proofs in Requests, Handover, Arrivals,
--                      Fetch and Others; Answers and Service compose clerk, handler and applier, and
--                      Follow composes catchUp with the controller
--   Futures            a1-futures/future.go. Future (NewFuture, CompleteFuture, GetResult, CloseFuture),
--                      Wait (its goroutines, its lock and its select as steps); proofs in Tally,
--                      Invariant, Results and Leak
--   Examples           runs at concrete inputs
--
-- How the code is read. A call under a lock is one step. A goroutine that sends is a message in the
-- outbox of the step; what arrives, when, and how often is open: a step takes a message of any
-- content. A Go map is an association list, and a loop over it visits the list in order. Go's `int`
-- and `int64` are integers without wrap-around, or natural numbers where the code never goes below
-- zero. Texts are lists of bytes. Group ids are natural numbers, and an id's number is read without
-- the bounds of strconv.Atoi. The operation of a PutAppend is Put or Append, the two texts that a
-- clerk sends. A loop over the promises visits them in the order in which they came; where the order
-- matters, a theorem takes it as an argument. The encoding of the durable state (labgob) is a
-- parameter, with the law that what was encoded is decoded again and that no bytes are an error. In
-- OmniPaxos/Cluster the AcceptSyncs and Accepts to a peer arrive in order, each once. The code does
-- not see to that: PromiseHandler sends the AcceptSyncs from goroutines that nobody waits for, and
-- an Accept that is lost is not sent again (OmniPaxos/Divergence). All other messages of a round may
-- be lost, repeated and delayed, and rounds of the timer come between that choose no leader and find
-- no link broken. That the logs agree up to the indices of the AcceptSyncs when a round begins is a
-- condition, which a follower that missed an Accept breaks. The clock, the channels and the network
-- are arguments: what a handler finds when it looks, and what comes on a channel before the timeout.
--
-- Bounds and fuel. `balance` of the shard controller calls itself, and runs on fuel: for a Join of a
-- group on ten shards 221 calls are enough, and for one Join no number of calls is. The inner loop of
-- catchUp runs on the number of the latest configuration, and its counter grows in each turn, so this
-- is enough. The sharded clerk's loop runs on a number of rounds, since it goes on as long as no group
-- answers. The text of a number is made with fuel above the number, which is more than its digits. All
-- other functions are by recursion on their input.
--
-- Not modelled: GetWeatherData (HTTP and JSON) and a1-futures/naive, the test network labrpc, labgob,
-- the test harnesses and the logging, and Kill.
pub mod Prelude
pub mod OmniPaxos
pub mod Futures
pub mod KvPaxos
pub mod ShardCtrler
pub mod ShardKv
mod Examples
