-- ===== src/ShardKv/Types.antt =====
-- a3b-sharding/shardkv/common.go, server.go and client.go: operations, results and the state.
use omni_paxos_kv.Prelude.{ℕ, ◌%◌, List, [], ◌∷◌, ℤ, Assoc, replicate, get_elem?, get_or}
use omni_paxos_kv.ShardCtrler.Types.{Text, Config, n_shards, zero_config}

pub data Kind : Type 0 where
  get put append change delete : Kind

pub data Err : Type 0 where
  ok no_key wrong_group not_leader try_again timeout : Err

-- One map for each shard: a Go array of `NShards` maps.
abbrev pub Store : Type 0
Store = List (Assoc Text Text)

abbrev pub empty_store : Store
empty_store = replicate n_shards []

-- The last request of each client.
abbrev pub PrevReq : Type 0
PrevReq = Assoc ℤ ℤ

pub record Op : Type 0 where
  pub command : Kind
  pub client_id : ℤ
  pub request_id : ℤ
  pub key : Text
  pub value : Text
  pub config : Config
  pub store : Store
  pub prev_req : PrevReq
  pub config_num : ℕ
  pub shard_id : ℕ

pub record Result : Type 0 where
  pub command : Kind
  pub err : Err
  pub client_id : ℤ
  pub request_id : ℤ
  pub value : Text
  pub config_num : ℕ

pub record ShardKv : Type 0 where
  pub gid : ℕ
  pub config : Config
  pub store : Store
  pub prev_req : PrevReq

-- `StartServer`
unfoldable pub start_server : ℕ → ShardKv
start_server gid = record { gid = gid; config = zero_config; store = empty_store; prev_req = [] }

-- The first byte of the key decides.
unfoldable pub key2shard : Text → ℕ
key2shard [] = 0
key2shard (c ∷ cs) = c % n_shards

-- An element of one of the arrays that have a place for each shard.
abbrev pub owner : Config → ℕ → ℕ
owner c sid = get_or (get_elem? c.shards sid) 0

abbrev pub shard : Store → ℕ → Assoc Text Text
shard store sid = get_or (get_elem? store sid) []

pub record TransferArgs : Type 0 where
  pub num : ℕ
  pub shard_ids : List ℕ

pub record TransferReply : Type 0 where
  pub store : Store
  pub prev : PrevReq
  pub err : Err

pub record DeleteArgs : Type 0 where
  pub num : ℕ
  pub shard_id : ℕ
