-- ===== src/Examples/Groups.antt =====
-- The sharded servers, at concrete operations.
use omni_paxos_kv.Prelude.{
  insert, List, Option, list_eq, nat_eq, int_eq, ℕ, ◌+◌, ◌≡◌, inl, inr, arith, refl, true, some,
  none, [], ◌∷◌, ◌==◌, if◌then◌else◌, pos, lookup, replicate,
}
use omni_paxos_kv.ShardCtrler.Types.{Config, n_shards, zero_config}
use omni_paxos_kv.ShardKv.Types.{
  TransferReply, owner, Kind, ok, Op, Store, ShardKv, TransferArgs, start_server, empty_store,
  key2shard, owner, shard,
}
use omni_paxos_kv.ShardKv.Apply.{
  set_prev_req_id, write, is_new, is_wrong_group, read, apply, apply_all, apply_put,
}
use omni_paxos_kv.ShardKv.Reconf.{take_shards, get_change_op, first_ok, arrives}
use omni_paxos_kv.ShardKv.Fetch.{change_brings_values}
use omni_paxos_kv.ShardKv.Server.{transfer}
use omni_paxos_kv.ShardKv.Requests.{written, write_applied, applied_once_across_changes}
use omni_paxos_kv.ShardKv.Handover.{handed_over}
use omni_paxos_kv.ShardKv.Others.{change_keeps_others}
use omni_paxos_kv.ShardKv.CatchUp.{Outside, Undisturbed, catch_up_rounds, catches_up}

-- All shards with one group, as configuration `num`.
abbrev pub all_with : ℕ → ℕ → Config
all_with num gid = record { num = num; shards = replicate n_shards gid; groups = [] }

abbrev pub change_to : Config → Store → Op
change_to c store = record {
  command = Kind.change;
  client_id = pos 0;
  request_id = pos 0;
  key = [];
  value = [];
  config = c;
  store = store;
  prev_req = [];
  config_num = 0;
  shard_id = 0;
}

-- The key `k` belongs to shard 7; client 3 writes `x` there.
abbrev pub put1 : Op
put1 = record (change_to zero_config []) {
  command = Kind.put;
  client_id = pos 3;
  request_id = pos 1;
  key = b'k' ∷ [];
  value = b'x' ∷ [];
}

-- Group 1 has all shards, and then the write.
unfoldable pub owns : ShardKv
unfolding start_server
owns = record (start_server 1) { config = all_with 1 1 }

unfoldable pub wrote : ShardKv
wrote = (apply owns put1).0

-- Group 2 before it gets the shards from group 1.
unfoldable waits : ShardKv
unfolding start_server
waits = record (start_server 2) { config = all_with 1 1 }

write_applied_example :
    (read (apply owns put1).0 (b'k' ∷ [])
      ≡ (if put1.key == b'k' ∷ [] then some (written owns put1) else read owns (b'k' ∷ [])))
    × ((apply owns put1).1.err ≡ ok)
unfolding owns is_wrong_group key2shard start_server is_new lookup
write_applied_example = write_applied owns put1 (b'k' ∷ []) (inl refl) refl refl (omega arith)

applied_once_across_changes_example :
    let later = apply_all (apply owns put1).0 (change_to (all_with 2 1) empty_store ∷ []) in
    (apply later put1).0 ≡ later
unfolding owns is_wrong_group key2shard start_server
applied_once_across_changes_example =
    applied_once_across_changes owns put1 (change_to (all_with 2 1) empty_store ∷ [])
      (inr (inl refl)) refl

abbrev fetch : TransferArgs
fetch = record { num = 1; shard_ids = 7 ∷ 8 ∷ [] }

abbrev carry : Op
carry = change_to (all_with 2 2) (take_shards fetch.shard_ids (transfer wrote fetch) empty_store)

handed_over_example :
    lookup (b'k' ∷ []) (shard (apply waits carry).0.store 7)
    ≡ lookup (b'k' ∷ []) (shard wrote.store 7)
unfolding waits wrote owns start_server transfer apply apply_put is_wrong_group key2shard is_new
    lookup set_prev_req_id write
handed_over_example =
    handed_over wrote waits fetch carry 7 (b'k' ∷ []) refl refl refl refl refl refl refl
      (omega arith)

-- The servers of each group: the first call fails, the second one is answered by group 1.
abbrev answers : ℕ → List (Option TransferReply)
answers g = none ∷ some (transfer wrote fetch) ∷ []

abbrev made : Option Op → Op
made none = put1
made (some op) = op

unfoldable change2 : Op
change2 = made (get_change_op waits (all_with 2 2) answers)

change2-some : get_change_op waits (all_with 2 2) answers ≡ some change2
unfolding change2 get_change_op waits start_server insert transfer wrote apply apply_put
    is_wrong_group owns key2shard is_new lookup set_prev_req_id write
change2-some = refl

change_brings_values_example :
    (reply : TransferReply) × (first_ok (answers (owner waits.config 7)) ≡ some reply)
    × (lookup (b'k' ∷ []) (shard (apply waits change2).0.store 7)
        ≡ lookup (b'k' ∷ []) (shard reply.store 7))
unfolding waits start_server arrives
change_brings_values_example =
    change_brings_values waits (all_with 2 2) answers change2 7 (b'k' ∷ []) change2-some refl refl
      refl (omega arith) refl

-- Shard 0 stays with group 1.
abbrev most_move : Config
most_move = record { num = 2; shards = 1 ∷ replicate 9 2; groups = [] }

unfoldable change_most : Op
change_most = made (get_change_op waits most_move answers)

change_most-some : get_change_op waits most_move answers ≡ some change_most
unfolding change_most get_change_op waits start_server insert transfer wrote apply apply_put
    is_wrong_group owns key2shard is_new lookup set_prev_req_id write
change_most-some = refl

change_keeps_others_example : shard (apply waits change_most).0.store 0 ≡ shard waits.store 0
unfolding waits start_server arrives
change_keeps_others_example =
    change_keeps_others waits most_move answers change_most 0 change_most-some refl (omega arith)
      refl

-- A controller in which group 2 has all shards; all groups answer with what group 1 holds.
abbrev calm : Outside
calm = record {
  query = λ n. all_with n 2;
  answers = λ i gid. some (transfer wrote fetch) ∷ [];
  decided = λ i kv op. (true, some (apply kv op).1, (apply kv op).0);
}

calm-Undisturbed : Undisturbed calm 4
unfolding transfer first_ok wrote apply apply_put is_wrong_group owns key2shard is_new lookup
    set_prev_req_id write start_server
calm-Undisturbed = record {
  numbered = λ n h. refl;
  answered = λ i gid e. ground arith;
  applied = λ i kv op. refl;
}

catches_up_example :
    ((catch_up_rounds calm 4 2 waits).config ≡ all_with (waits.config.num + 2) 2)
    × ((catch_up_rounds calm 4 2 waits).config.num ≡ waits.config.num + 2)
unfolding waits start_server
catches_up_example = catches_up calm 4 2 waits calm-Undisturbed (omega arith) (omega arith)
