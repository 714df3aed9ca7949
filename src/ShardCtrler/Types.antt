-- ===== src/ShardCtrler/Types.antt =====
-- a3b-sharding/shardctrler/common.go and server.go: configurations, commands, results and the state.
-- Group ids are numbers from 0 on, where 0 is no group.
use omni_paxos_kv.Prelude.{ℕ, List, [], ◌∷◌, ℤ, pos, Assoc, replicate}

abbrev pub Text : Type 0
Text = List ℕ

abbrev pub n_shards : ℕ
n_shards = 10

pub record Config : Type 0 where
  pub num : ℕ
  pub shards : List ℕ
  pub groups : Assoc ℕ (List Text)

-- `Config{}`; its array of shards holds zeros.
abbrev pub zero_config : Config
zero_config = record { num = 0; shards = replicate n_shards 0; groups = [] }

-- Any other text is `unknown`.
pub data Kind : Type 0 where
  leave move join query unknown : Kind

pub record ControllerCommand : Type 0 where
  pub command : Kind
  pub req_id : ℤ
  pub client_id : ℤ
  pub servers : Assoc ℕ (List Text)
  pub gids : List ℕ
  pub num : ℤ
  pub shard : ℤ
  pub gid : ℕ

-- `no_error` is the empty text.
pub data Err : Type 0 where
  no_error not_leader time_out : Err

pub record Result : Type 0 where
  pub request_id : ℤ
  pub err : Err
  pub config : Config
  pub client_id : ℤ

-- `Result{}`
abbrev pub zero_result : Result
zero_result = record { request_id = pos 0; err = no_error; config = zero_config; client_id = pos 0 }

-- The channels on which clerks wait stand outside the model.
pub record ShardCtrler : Type 0 where
  pub cur_num : ℕ
  pub all_confs : List Config
  pub prev_req : Assoc ℤ ℤ

-- `StartServer`
unfoldable pub start_server : ShardCtrler
start_server = record { cur_num = 0; all_confs = zero_config ∷ []; prev_req = [] }

-- The shards of each group.
abbrev pub Owners : Type 0
Owners = Assoc ℕ (List ℕ)
