-- ===== src/ShardKv/Apply.antt =====
-- a3b-sharding/shardkv/apply.go: applying a decided operation.
use omni_paxos_kv.Prelude.{
  nat_eq, list_eq, int_eq, ℕ, ◌+◌, Bool, true, not, ◌&&◌, Option, none, some, List, [], ◌∷◌, ◌++◌,
  leb, eqb, if◌then◌else◌, set, ltb_ℤ, lookup, insert,
}
use omni_paxos_kv.ShardCtrler.Types.{Text}
use omni_paxos_kv.ShardKv.Types.{
  Kind, ok, no_key, wrong_group, Op, Result, Store, ShardKv, key2shard, owner, shard,
}
use omni_paxos_kv.ShardKv.Maps.{copy_map, merge_prev}

unfoldable pub is_new : ShardKv → Op → Bool
is_new kv op = elim (lookup op.client_id kv.prev_req) [
  | some p ↦ ltb_ℤ p op.request_id
  | none ↦ true
]

unfoldable pub is_wrong_group : ShardKv → Text → Bool
is_wrong_group kv key = not (eqb (owner kv.config (key2shard key)) kv.gid)

unfoldable pub set_prev_req_id : ShardKv → Op → ShardKv
set_prev_req_id kv op = record kv { prev_req = insert op.client_id op.request_id kv.prev_req }

-- `kv.shardOf(key)[key] = value`
unfoldable pub write : ShardKv → Text → Text → ShardKv
write kv key value =
    let sid = key2shard key in
    record kv { store = set kv.store sid (insert key value (shard kv.store sid)) }

-- `kv.shardOf(key)[key]`
abbrev pub read : ShardKv → Text → Option Text
read kv key = lookup key (shard kv.store (key2shard key))

unfoldable pub apply_put : ShardKv → Op → Result → ShardKv × Result
apply_put kv op result =
    if is_wrong_group kv op.key
    then (kv, record result { err = wrong_group })
    else if not (is_new kv op)
    then (kv, record result { err = ok })
    else (set_prev_req_id (write kv op.key op.value) op, record result { err = ok })

unfoldable pub apply_append : ShardKv → Op → Result → ShardKv × Result
apply_append kv op result =
    if is_wrong_group kv op.key
    then (kv, record result { err = wrong_group })
    else if not (is_new kv op)
    then (kv, record result { err = ok })
    else (
      set_prev_req_id
          (write kv op.key ((elim (read kv op.key) [ some v ↦ v | none ↦ [] ]) ++ op.value)) op,
      record result { err = ok },
    )

unfoldable pub apply_get : ShardKv → Op → Result → ShardKv × Result
apply_get kv op result =
    if is_wrong_group kv op.key
    then (kv, record result { err = wrong_group })
    else (let kv' = if is_new kv op then set_prev_req_id kv op else kv in
        (
          kv',
          elim (read kv' op.key) [
            | none ↦ record result { err = no_key }
            | some v ↦ record result { value = v; err = ok }
          ],
        ))

-- The maps of `op.Store` copied into those of the group, shard by shard.
unfoldable pub copy_stores : Store → Store → Store
copy_stores [] store = store
copy_stores (sd ∷ src) [] = []
copy_stores (sd ∷ src) (m ∷ store) = copy_map sd m ∷ copy_stores src store

unfoldable pub apply_change : ShardKv → Op → Result → ShardKv × Result
apply_change kv op result =
    let result' = record result { config_num = op.config.num; err = ok } in
    if not (eqb op.config.num (kv.config.num + 1)) then (kv, result') else (
      record kv {
        prev_req = merge_prev op.prev_req kv.prev_req;
        store = copy_stores op.store kv.store;
        config = op.config;
      },
      result',
    )

-- The shards for which `applyChange` sends a Delete, each with the group that had it before.
unfoldable pub deletes : ShardKv → ℕ → Store → List (ℕ × ℕ)
deletes kv sid [] = []
deletes kv sid ([] ∷ src) = deletes kv (sid + 1) src
deletes kv sid ((_ ∷ _) ∷ src) = (owner kv.config sid, sid) ∷ deletes kv (sid + 1) src

unfoldable pub apply_delete : ShardKv → Op → ShardKv
apply_delete kv args =
    if leb args.config_num kv.config.num && not (eqb kv.gid (owner kv.config args.shard_id))
    then record kv { store = set kv.store args.shard_id [] }
    else kv

-- One turn of the loop of `applier`, up to the result that it sends.
unfoldable pub apply : ShardKv → Op → ShardKv × Result
apply kv op =
    let res : Result = record {
      command = op.command;
      err = ok;
      client_id = op.client_id;
      request_id = op.request_id;
      value = [];
      config_num = 0;
    } in
    elim op.command [
      | Kind.change ↦ apply_change kv op res
      | Kind.delete ↦ (apply_delete kv op, res)
      | Kind.get ↦ apply_get kv op res
      | Kind.put ↦ apply_put kv op res
      | Kind.append ↦ apply_append kv op res
    ]

-- The loop of `applier` over the operations that come on the channel.
unfoldable pub apply_all : ShardKv → List Op → ShardKv
apply_all kv [] = kv
apply_all kv (op ∷ ops) = apply_all (apply kv op).0 ops
