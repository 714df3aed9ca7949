-- ===== src/ShardCtrler/Propose.antt =====
-- a3b-sharding/shardctrler/server.go: `propose` and the RPC handlers in front of it.
use omni_paxos_kv.Prelude.{
  int_eq, ℕ, Bool, false, not, ◌||◌, Option, none, some, List, [], if◌then◌else◌, ℤ, pos, ltb_ℤ,
  eqb_ℤ, Assoc, lookup,
}
use omni_paxos_kv.ShardCtrler.Types.{
  Text, Kind, ControllerCommand, Result, not_leader, time_out, zero_result, ShardCtrler,
}

-- What `Proposal` returns is an argument, and so is what comes on the channel before the timeout.
unfoldable pub propose : ControllerCommand → ShardCtrler → Bool → Option Result → Result
propose req sc is_leader received =
    if (elim (lookup req.client_id sc.prev_req) [
      | some prev ↦ not (ltb_ℤ prev req.req_id)
      | none ↦ false
    ])
    then zero_result
    else if not is_leader
    then record zero_result { err = not_leader }
    else elim received [
      | none ↦ record zero_result { err = time_out }
      | some res ↦
          if not (eqb_ℤ res.client_id req.client_id) || not (eqb_ℤ res.request_id req.req_id)
          then record res { err = not_leader }
          else res
    ]

-- The commands that `Join`, `Leave`, `Move` and `Query` propose.
abbrev no_command : ℤ → ℤ → ControllerCommand
no_command client request = record {
  command = Kind.unknown;
  req_id = request;
  client_id = client;
  servers = [];
  gids = [];
  num = pos 0;
  shard = pos 0;
  gid = 0;
}

unfoldable pub join_command : ℤ → ℤ → Assoc ℕ (List Text) → ControllerCommand
join_command client request servers = record (no_command client request) {
  command = Kind.join;
  servers = servers;
}

unfoldable pub leave_command : ℤ → ℤ → List ℕ → ControllerCommand
leave_command client request gids = record (no_command client request) {
  command = Kind.leave;
  gids = gids;
}

unfoldable pub move_command : ℤ → ℤ → ℤ → ℕ → ControllerCommand
move_command client request shard gid = record (no_command client request) {
  command = Kind.move;
  shard = shard;
  gid = gid;
}

unfoldable pub query_command : ℤ → ℤ → ℤ → ControllerCommand
query_command client request num = record (no_command client request) {
  command = Kind.query;
  num = num;
}
