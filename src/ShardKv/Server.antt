-- ===== src/ShardKv/Server.antt =====
-- a3b-sharding/shardkv/server.go: `propose` and the RPC handlers.
use omni_paxos_kv.Prelude.{
  int_eq, nat_eq, list_eq, Bool, not, ◌&&◌, Option, none, some, [], map, ltb, eqb, if◌then◌else◌, ℤ,
  pos, eqb_ℤ,
}
use omni_paxos_kv.ShardCtrler.Types.{Text, zero_config}
use omni_paxos_kv.ShardKv.Types.{
  Kind, Err, ok, not_leader, try_again, timeout, Op, Result, ShardKv, TransferArgs, TransferReply,
  DeleteArgs, empty_store,
}
use omni_paxos_kv.ShardKv.Maps.{copy_map}

-- Whether a result that comes on the channel is the one of this operation.
unfoldable pub expected : Op → Result → Bool
expected op result = elim op.command [
  | Kind.change ↦ eqb op.config.num result.config_num
  | Kind.delete ↦ eqb op.config_num result.config_num
  | Kind.get ↦ eqb_ℤ op.client_id result.client_id && eqb_ℤ op.request_id result.request_id
  | Kind.put ↦ eqb_ℤ op.client_id result.client_id && eqb_ℤ op.request_id result.request_id
  | Kind.append ↦ eqb_ℤ op.client_id result.client_id && eqb_ℤ op.request_id result.request_id
]

-- `Result{Err: err}`; the command's text is not read.
abbrev pub failed : Op → Err → Result
failed op err = record {
  command = op.command;
  err = err;
  client_id = pos 0;
  request_id = pos 0;
  value = [];
  config_num = 0;
}

-- What `Proposal` says of the leader is an argument, and so is what comes before the timeout.
unfoldable pub propose : Op → Bool → Option Result → Result
propose op is_leader received = if not is_leader then failed op not_leader else elim received [
  | none ↦ failed op timeout
  | some result ↦ if expected op result then result else failed op try_again
]

unfoldable pub transfer : ShardKv → TransferArgs → TransferReply
transfer kv args =
    if ltb kv.config.num args.num
    then record { store = []; prev = []; err = try_again }
    else record {
      store = map (λ m. copy_map m []) kv.store;
      prev = copy_map kv.prev_req [];
      err = ok;
    }

abbrev pub delete_op : DeleteArgs → Op
delete_op args = record {
  command = Kind.delete;
  client_id = pos 0;
  request_id = pos 0;
  key = [];
  value = [];
  config = zero_config;
  store = empty_store;
  prev_req = [];
  config_num = args.num;
  shard_id = args.shard_id;
}

-- The reply's error. What `propose` returns is dropped.
unfoldable pub delete : ShardKv → Bool → DeleteArgs → Option Result → Err
delete kv is_leader args received =
    if not is_leader
    then not_leader
    else if ltb kv.config.num args.num
    then try_again
    else (let res = propose (delete_op args) is_leader received in ok)

pub record GetArgs : Type 0 where
  pub key : Text
  pub client_id : ℤ
  pub request_id : ℤ

pub record GetReply : Type 0 where
  pub err : Err
  pub value : Text

-- `op` is a Put or an Append.
pub record PutAppendArgs : Type 0 where
  pub op : Kind
  pub key : Text
  pub value : Text
  pub client_id : ℤ
  pub request_id : ℤ

abbrev pub client_op : Kind → Text → Text → ℤ → ℤ → Op
client_op kind key value client_id request_id = record {
  command = kind;
  client_id = client_id;
  request_id = request_id;
  key = key;
  value = value;
  config = zero_config;
  store = empty_store;
  prev_req = [];
  config_num = 0;
  shard_id = 0;
}

unfoldable pub get : GetArgs → Bool → Option Result → GetReply
get args is_leader received =
    let result =
      propose (client_op Kind.get args.key [] args.client_id args.request_id) is_leader received in
    record { err = result.err; value = result.value }

-- The reply's error.
unfoldable pub put_append : PutAppendArgs → Bool → Option Result → Err
put_append args is_leader received =
    (propose (client_op args.op args.key args.value args.client_id args.request_id) is_leader
      received).err
