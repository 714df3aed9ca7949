-- ===== src/Examples/Balancing.antt =====
-- Joins and leaves of the shard controller, and its channels, at concrete runs.
use omni_paxos_kv.Prelude.{
  List, Bool, list_eq, nat_eq, int_eq, ℕ, ◌+◌, ◌≤◌, ◌≡◌, ◌≢◌, arith, refl, true, false, Option,
  some, none, [], ◌∷◌, pos, get_elem?, length, insert, lookup,
}
use omni_paxos_kv.ShardCtrler.Types.{
  Kind, ControllerCommand, Result, zero_config, zero_result, ShardCtrler, n_shards, start_server,
}
use omni_paxos_kv.ShardCtrler.Balance.{balance, turn, max_group, min_group, move_first}
use omni_paxos_kv.ShardCtrler.Balance.Sizes.{has_key}
use omni_paxos_kv.ShardCtrler.Balance.Extremes.{member}
use omni_paxos_kv.ShardCtrler.Balance.Ends.{count}
use omni_paxos_kv.ShardCtrler.Apply.{
  get_conf, finish_join, add_servers, append_conf, add_shards, apply_join, apply_leave,
  apply_command, dispatch,
}
use omni_paxos_kv.ShardCtrler.History.{IsNumbered, apply_command-Extends, start_server-IsNumbered}
use omni_paxos_kv.ShardCtrler.Joins.{TakesPart, join_balances}
use omni_paxos_kv.ShardCtrler.Leaves.{leave_reassigns}
use omni_paxos_kv.ShardCtrler.Runs.{apply_commands, AllTen, runs_keep_ten}
use omni_paxos_kv.ShardCtrler.Channels.{wants, idle, sends, Desk, Reach, controller_can_stop}
use omni_paxos_kv.ShardKv.Types
use omni_paxos_kv.ShardKv.Types.{Op, ShardKv, TransferReply, ok, empty_store}
use omni_paxos_kv.ShardKv.Apply.{apply}
use omni_paxos_kv.ShardKv.Reconf.{first_ok}
use omni_paxos_kv.ShardKv.CatchUp.{Outside, catch_up_rounds}
use omni_paxos_kv.ShardKv.Follow.{query_answer, follows_controller}

-- Groups 1 and 2 join.
abbrev join_two : ControllerCommand
join_two = record {
  command = Kind.join;
  req_id = pos 1;
  client_id = pos 5;
  servers = (1, []) ∷ (2, []) ∷ [];
  gids = [];
  num = pos 0;
  shard = pos 0;
  gid = 0;
}

abbrev leave_one : ControllerCommand
leave_one = record join_two { command = Kind.leave; req_id = pos 2; gids = 1 ∷ [] }

join_balances_example :
    (sc' : ShardCtrler) × (r : Result) × (apply_join 221 join_two start_server ≡ some (sc', r))
    × (r.config.num ≡ start_server.cur_num + 1)
    × (length r.config.shards ≡ n_shards)
    × (count 0 r.config.shards ≡ 0)
    × ((g h : ℕ)
        → TakesPart join_two zero_config g
        → TakesPart join_two zero_config h
        → count g r.config.shards ≤ count h r.config.shards + 1)
unfolding start_server
join_balances_example =
    join_balances 221 join_two start_server zero_config 1 start_server-IsNumbered refl refl refl
      (omega arith) (omega arith)

abbrev after : Option (ShardCtrler × Result) → ShardCtrler × Result
after none = (start_server, zero_result)
after (some p) = p

unfoldable joined : ShardCtrler × Result
joined = after (apply_command 12 join_two start_server)

joined-some : apply_command 12 join_two start_server ≡ some joined
unfolding joined start_server apply_command lookup dispatch apply_join get_conf finish_join balance
    turn max_group add_shards add_servers insert move_first min_group append_conf
joined-some = refl

leave_reassigns_example :
    (sc' : ShardCtrler) × (r : Result) × (apply_leave leave_one joined.0 ≡ some (sc', r))
    × (r.config.num ≡ joined.0.cur_num + 1)
    × ((i o : ℕ)
        → get_elem? joined.1.config.shards i ≡ some o
        → (o' : ℕ) × (get_elem? r.config.shards i ≡ some o')
          × (member o (1 ∷ []) ≡ false → o' ≡ o)
          × (member o (1 ∷ []) ≡ true
              → (o' ≢ 0)
                × (member o' (1 ∷ []) ≡ false)
                × (has_key o' joined.1.config.groups ≡ true)))
unfolding joined start_server apply_command lookup dispatch apply_join get_conf finish_join balance
    turn max_group add_shards add_servers insert move_first min_group append_conf
leave_reassigns_example =
    leave_reassigns leave_one joined.0 joined.1.config 2
      (apply_command-Extends 12 join_two start_server joined.0 joined.1 start_server-IsNumbered
        joined-some).numbered
      refl refl refl refl (omega arith)

runs_keep_ten_example : IsNumbered joined.0 × AllTen joined.0.all_confs
unfolding joined start_server apply_commands apply_command lookup dispatch apply_join get_conf
    finish_join balance turn max_group add_shards add_servers insert move_first min_group
    append_conf
runs_keep_ten_example = runs_keep_ten 12 (join_two ∷ []) joined.0 refl

-- One call of `propose` that has got index 0.
abbrev one_call : Desk
one_call = record { chans = []; proposers = wants 0 ∷ []; applier = idle }

controller_can_stop_example :
    (w : Desk) × Reach one_call w × ((t : Desk) → Reach w t → t.applier ≡ sends 0)
controller_can_stop_example = controller_can_stop one_call 0 0 refl refl

-- All groups answer with empty shards.
abbrev empties : ℕ → ℕ → List (Option TransferReply)
empties i gid = some (record { store = empty_store; prev = []; err = ok }) ∷ []

empties-answered : (i gid : ℕ) → first_ok (empties i gid) ≢ none
unfolding first_ok
empties-answered i gid h = ground arith

abbrev at_once : ℕ → ShardKv → Op → Bool × Option Types.Result × ShardKv
at_once i kv op = (true, some (apply kv op).1, (apply kv op).0)

follows_controller_example :
    let out : Outside = record {
      query = query_answer joined.0;
      answers = empties;
      decided = at_once;
    } in
    get_elem? joined.0.all_confs joined.0.cur_num
    ≡ some (catch_up_rounds out joined.0.cur_num joined.0.cur_num (Types.start_server 1)).config
unfolding joined start_server apply_commands apply_command lookup dispatch apply_join get_conf
    finish_join balance turn max_group add_shards add_servers insert move_first min_group
    append_conf
follows_controller_example =
    follows_controller 12 1 (join_two ∷ []) joined.0 empties at_once refl (omega arith)
      empties-answered (λ i kv op. refl)
