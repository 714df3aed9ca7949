-- ===== src/ShardKv/Reconf.antt =====
-- a3b-sharding/shardkv/reconf.go: which shards a group fetches, and the operation that brings them.
use omni_paxos_kv.Prelude.{
  nat_eq, int_eq, list_eq, ℕ, Bool, true, false, not, ◌&&◌, ◌||◌, Option, none, some, List, [], ◌∷◌,
  ◌++◌, eqb, if◌then◌else◌, ◌>>=◌, set, pos, Assoc, lookup_or, insert, range,
}
use omni_paxos_kv.ShardCtrler.Types.{Config, n_shards}
use omni_paxos_kv.ShardKv.Types.{
  Kind, Err, ok, no_key, wrong_group, not_leader, try_again, timeout, Op, Store, PrevReq, ShardKv,
  TransferReply, owner, shard, empty_store,
}
use omni_paxos_kv.ShardKv.Maps.{copy_map, merge_prev}

-- Whether shard `i` comes to this group from another one.
unfoldable pub arrives : ShardKv → Config → ℕ → Bool
arrives kv conf i =
    not (eqb (owner kv.config i) kv.gid || not (eqb (owner conf i) kv.gid))
    && not (eqb (owner kv.config i) 0)

unfoldable pub collect : ShardKv → Config → List ℕ → Assoc ℕ (List ℕ) → Assoc ℕ (List ℕ)
unfolding arrives
collect kv conf [] m = m
collect kv conf (i ∷ is) m = collect kv conf is (
    if arrives kv conf i
    then insert (owner kv.config i) (lookup_or [] (owner kv.config i) m ++ i ∷ []) m
    else m)

unfoldable pub shards_to_transfer : ShardKv → Config → Assoc ℕ (List ℕ)
unfolding collect
shards_to_transfer kv conf = collect kv conf (range n_shards) []

abbrev pub is_ok : Err → Bool
is_ok ok = true
is_ok no_key = false
is_ok wrong_group = false
is_ok not_leader = false
is_ok try_again = false
is_ok timeout = false

-- The answers of a group's servers in order; `none` is a call that failed.
unfoldable pub first_ok : List (Option TransferReply) → Option TransferReply
first_ok [] = none
first_ok (none ∷ answers) = first_ok answers
first_ok (some reply ∷ answers) =
    let rest = first_ok answers in if is_ok reply.err then some reply else rest

-- The shards of one reply, copied into those of the operation.
unfoldable pub take_shards : List ℕ → TransferReply → Store → Store
take_shards [] reply store = store
take_shards (sid ∷ sids) reply store =
    take_shards sids reply (set store sid (copy_map (shard reply.store sid) (shard store sid)))

unfoldable pub fetch_all :
    (ℕ → List (Option TransferReply))
    → Assoc ℕ (List ℕ)
    → Store × PrevReq
    → Option (Store × PrevReq)
unfolding first_ok take_shards
fetch_all answers [] acc = some acc
fetch_all answers ((gid, sids) ∷ all) (store, prev) = do
  reply ← first_ok (answers gid)
  fetch_all answers all (take_shards sids reply store, merge_prev reply.prev prev)

-- `none` stands for a result that the caller throws away, since a group did not answer.
unfoldable pub get_change_op : ShardKv → Config → (ℕ → List (Option TransferReply)) → Option Op
unfolding shards_to_transfer fetch_all
get_change_op kv conf answers = do
  (store, prev) ← fetch_all answers (shards_to_transfer kv conf) (empty_store, [])
  some (record {
    command = Kind.change;
    client_id = pos 0;
    request_id = pos 0;
    key = [];
    value = [];
    config = conf;
    store = store;
    prev_req = prev;
    config_num = 0;
    shard_id = 0;
  })
