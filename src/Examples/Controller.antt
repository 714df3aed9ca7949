-- ===== src/Examples/Controller.antt =====
-- The shard controller and the sharded servers, at concrete commands.
use omni_paxos_kv.Prelude.{
  list_eq, nat_eq, int_eq, ◌≤◌, ◌≡◌, inl, arith, refl, true, Option, some, none, [], ◌∷◌, pos,
  negsuc, ◌+ℤ◌, insert, lookup,
}
use omni_paxos_kv.ShardCtrler.Types.{
  Kind, Config, ControllerCommand, Result, zero_result, zero_config, ShardCtrler, start_server,
}
use omni_paxos_kv.ShardCtrler.Balance.{unfinished, balance, turn, max_group, min_group, move_first}
use omni_paxos_kv.ShardCtrler.Apply.{
  get_conf, finish_join, add_servers, append_conf, add_shards, apply_join, apply_command,
  apply_query, result_of, dispatch,
}
use omni_paxos_kv.ShardCtrler.Propose.{propose, query_command}
use omni_paxos_kv.ShardCtrler.Clerk.{Clerk, ask}
use omni_paxos_kv.ShardCtrler.History.{Extends, apply_command-Extends, start_server-IsNumbered}
use omni_paxos_kv.ShardCtrler.Queries.{wanted, query_finds, repeated_query_empty}
use omni_paxos_kv.ShardCtrler.Loops.{empty_join_never_ends}

abbrev join1 : ControllerCommand
join1 = record {
  command = Kind.join;
  req_id = pos 1;
  client_id = pos 5;
  servers = (1, []) ∷ [];
  gids = [];
  num = pos 0;
  shard = pos 0;
  gid = 0;
}

abbrev latest : ControllerCommand
latest = record join1 { command = Kind.query; req_id = pos 2; num = negsuc 0 }

abbrev after : Option (ShardCtrler × Result) → ShardCtrler × Result
after none = (start_server, zero_result)
after (some p) = p

-- The controller after group 1 has joined; it gets all ten shards.
unfoldable joined : ShardCtrler × Result
joined = after (apply_command 12 join1 start_server)

joined-some : apply_command 12 join1 start_server ≡ some joined
unfolding joined start_server apply_command lookup dispatch apply_join get_conf finish_join balance
    turn max_group add_shards add_servers insert move_first min_group append_conf
joined-some = refl

apply_command-Extends_example : Extends start_server joined.0
unfolding joined
apply_command-Extends_example =
    apply_command-Extends 12 join1 start_server joined.0 joined.1 start_server-IsNumbered
      joined-some

query_finds_example :
    (c : Config) × (apply_query latest joined.0 ≡ some (joined.0, result_of latest c))
    × (c.num ≡ wanted joined.0 latest)
    × (wanted joined.0 latest ≤ joined.0.cur_num)
query_finds_example = query_finds latest joined.0 apply_command-Extends_example.numbered (inl refl)

unfoldable queried : ShardCtrler × Result
queried = after (apply_command 12 (query_command (pos 5) (pos 2) (negsuc 0)) joined.0)

queried-some : apply_command 12 (query_command (pos 5) (pos 2) (negsuc 0)) joined.0 ≡ some queried
unfolding queried query_command apply_query joined start_server apply_command lookup dispatch
    apply_join get_conf finish_join balance turn max_group add_shards add_servers insert move_first
    min_group append_conf
queried-some = refl

abbrev clerk5 : Clerk
clerk5 = record { client_id = pos 5; request_id = pos 2 }

repeated_query_empty_example :
    let again = propose (query_command (pos 5) (pos 2) (negsuc 0)) queried.0 true none in
    ask clerk5 (none ∷ some again ∷ [])
    ≡ some (record clerk5 { request_id = pos 2 +ℤ pos 1 }, zero_config)
repeated_query_empty_example =
    repeated_query_empty 12 clerk5 (negsuc 0) joined.0 queried.0 queried.1 true none (omega arith)
      queried-some

empty_join_never_ends_example :
    (balance 7 (add_shards 0 zero_config.shards []) zero_config.shards 1 ≡ unfinished)
    × (apply_join 7 (record join1 { servers = [] }) start_server ≡ none)
empty_join_never_ends_example = empty_join_never_ends 7 (record join1 { servers = [] }) refl
