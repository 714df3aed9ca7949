-- ===== src/Examples/Clerks.antt =====
-- The clerks of the two key/value services, at concrete runs.
use omni_paxos_kv.Prelude.{
  list_eq, nat_eq, int_eq, Bool, Bool-cases, ◌&&◌, ◌==◌, if◌then◌else◌, sym, inr, ℕ, zero, suc, ◌≡◌,
  refl, inl, true, false, Option, some, none, List, [], ◌∷◌, get_elem?, get_or, pos, lookup, insert,
  arith,
}
use omni_paxos_kv.ShardCtrler.Types.{Text}
use omni_paxos_kv.KvPaxos.Ids.{get_id, make_clerk, parse_id, atoi, split, digits}
use omni_paxos_kv.KvPaxos.Server.{
  append, GetArgs, PutAppendArgs, KvCommand, KvServer, init, apply_put_append, apply_get, write,
  read_apply, read_apply_all,
}
use omni_paxos_kv.KvPaxos.Handlers.{
  GetReply, PutAppendReply, get, get_answer, put_append, put_append_answer, await,
}
use omni_paxos_kv.KvPaxos.Client.{get_loop, clerk_get, put_append_loop, clerk_put_append}
use omni_paxos_kv.KvPaxos.Refinement.{HaveIds}
use omni_paxos_kv.KvPaxos.Service.{
  GetFrom, PutAppendFrom, Reads, Writes, clerk_get-Reads, clerk_put_append-Writes,
}
use omni_paxos_kv.KvPaxos.Acknowledged.{equal_write_acknowledged}
use omni_paxos_kv.ShardKv.Types.{Kind, Err, Op, Result, empty_store, start_server, key2shard}
use omni_paxos_kv.ShardKv.Apply
use omni_paxos_kv.ShardKv.Apply.{is_new, is_wrong_group, read, apply}
use omni_paxos_kv.ShardKv.Server
use omni_paxos_kv.ShardKv.Client
use omni_paxos_kv.ShardKv.Answers.{state_at}
use omni_paxos_kv.ShardKv.Service.{
  GetServed, WriteServed, clerk_get_reads_owner, clerk_write_recorded,
}
use omni_paxos_kv.Examples.Store.{add_command, add, ask_command, after}
use omni_paxos_kv.Examples.Groups.{all_with, put1, change_to}

abbrev log : List KvCommand
log = add_command ∷ ask_command ∷ []

log-HaveIds : HaveIds log
unfolding parse_id split atoi digits
log-HaveIds = (((pos 3, pos 1), refl), (((pos 3, pos 2), refl), tt))

unfoldable served : KvServer
served = after (read_apply_all (init 0) log)

served-some : read_apply_all (init 0) log ≡ some served
unfolding served read_apply_all read_apply parse_id split atoi digits
served-some = refl

-- A call that fails, and the leader's answer from index 1.
abbrev gets_calls : GetArgs → List (Option GetReply)
gets_calls args = none ∷ some (get args (pos 1) true (λ k. served.response)) ∷ []

gets_calls-GetFrom :
    (args : GetArgs) (j : ℕ) (reply : GetReply)
    → get_elem? (gets_calls args) j ≡ some (some reply)
    → GetFrom log args reply
gets_calls-GetFrom args zero reply h = absurd (ground arith)
gets_calls-GetFrom args (suc zero) reply h = (
  pos 1,
  true,
  λ k. served.response,
  λ k. (0, log, [], served, refl, served-some, refl),
  ground arith,
)
gets_calls-GetFrom args (suc (suc j)) reply h = absurd (ground arith)

clerk_get-Reads_example : Reads log (b'k' ∷ []) (b'x' ∷ b'y' ∷ [])
unfolding clerk_get get_loop get get_answer await served read_apply_all read_apply parse_id split
    atoi digits apply_put_append apply_get write lookup insert
clerk_get-Reads_example =
    clerk_get-Reads log (b'k' ∷ []) gets_calls (make_clerk 8) (b'x' ∷ b'y' ∷ []) log-HaveIds
      gets_calls-GetFrom refl

-- The answer from index 0, where the log has the same write under another id.
abbrev writes_calls : PutAppendArgs → List (Option PutAppendReply)
writes_calls args = some (put_append args (pos 0) true (λ k. served.response)) ∷ []

writes_calls-PutAppendFrom :
    (args : PutAppendArgs) (j : ℕ) (reply : PutAppendReply)
    → get_elem? (writes_calls args) j ≡ some (some reply)
    → PutAppendFrom log args reply
writes_calls-PutAppendFrom args zero reply h = (
  pos 0,
  true,
  λ k. served.response,
  λ k. (0, log, [], served, refl, served-some, refl),
  ground arith,
)
writes_calls-PutAppendFrom args (suc j) reply h = absurd (ground arith)

clerk_put_append-Writes_example : Writes log (record {
  key = b'k' ∷ [];
  value = b'x' ∷ b'y' ∷ [];
  op = append;
  id = (get_id (make_clerk 8)).1;
})
unfolding clerk_put_append put_append_loop put_append put_append_answer await served read_apply_all
    read_apply parse_id split atoi digits apply_put_append apply_get write lookup insert
clerk_put_append-Writes_example =
    clerk_put_append-Writes log (b'k' ∷ []) (b'x' ∷ b'y' ∷ []) append writes_calls (make_clerk 8)
      log-HaveIds writes_calls-PutAppendFrom refl

equal_write_acknowledged_example :
    (clerk_put_append add.key add.value add.op
      (λ args. some (put_append args (pos 0) true (λ k. served.response)) ∷ [])
      (make_clerk 8)).1
    ≡ true
equal_write_acknowledged_example =
    equal_write_acknowledged 0 0 log served add_command add (make_clerk 8) log-HaveIds served-some
      refl refl

-- Group 1 has all shards, and one server, `s`.
abbrev clerk : Client.Clerk
clerk = record {
  config = record (all_with 1 1) { groups = (1, (b's' ∷ []) ∷ []) ∷ [] };
  client_id = pos 9;
  request_id = pos 0;
}

-- Group 1 gets its configuration, and then the operations of two clients.
abbrev ask_k : Op
ask_k = Server.client_op Kind.get (b'k' ∷ []) [] (pos 9) (pos 1)

abbrev put_z : Op
put_z = Server.client_op Kind.put (b'k' ∷ []) (b'z' ∷ []) (pos 9) (pos 1)

abbrev reads_then : ℕ → List Op
reads_then g = change_to (all_with 1 1) empty_store ∷ put1 ∷ ask_k ∷ []

abbrev writes_then : ℕ → List Op
writes_then g = change_to (all_with 1 1) empty_store ∷ put_z ∷ []

abbrev read_result : Result
read_result = (apply (state_at reads_then 1 2) ask_k).1

abbrev read_by_group : Server.GetArgs → ℕ → Text → Option Server.GetReply
read_by_group args k name =
    if args.key == b'k' ∷ [] then some (Server.get args true (some read_result)) else none

read_by_group-GetServed :
    (args : Server.GetArgs) (k : ℕ) (name : Text) (reply : Server.GetReply)
    → read_by_group args k name ≡ some reply
    → GetServed reads_then args reply
read_by_group-GetServed args k name reply h = elim (Bool-cases (args.key == b'k' ∷ [])) [
  | inl e ↦
      let key : args.key ≡ b'k' ∷ [] = (list_eq.beq_iff args.key (b'k' ∷ [])).0 e in
      (
        true,
        some read_result,
        λ r f. (1, 2, ask_k, refl, ground arith, λ a b. (refl, sym key, refl)),
        ground arith,
      )
  | inr e ↦ absurd (ground arith)
]

clerk_get_reads_owner_example :
    (g : ℕ) × (i : ℕ) × (op : Op) × (get_elem? (reads_then g) i ≡ some op)
    × (op.client_id ≡ pos 9)
    × (op.request_id ≡ (Client.new_request_id clerk).1)
    × (op.command ≡ Kind.get)
    × (op.key ≡ b'k' ∷ [])
    × (is_wrong_group (state_at reads_then g i) (b'k' ∷ []) ≡ false)
    × (b'x' ∷ [] ≡ get_or (read (state_at reads_then g i) (b'k' ∷ [])) [])
unfolding Client.get Client.rounds lookup Client.new_request_id key2shard Server.get Server.propose
    Server.expected Apply.apply_get insert Apply.set_prev_req_id Apply.write Apply.copy_stores
    Client.try_servers omni_paxos_kv.ShardKv.Maps.copy_map apply Apply.apply_put is_wrong_group
    Apply.apply_all Apply.apply_change start_server is_new omni_paxos_kv.ShardKv.Maps.merge_prev
clerk_get_reads_owner_example =
    clerk_get_reads_owner reads_then 1 (b'k' ∷ []) (b'x' ∷ []) read_by_group (λ k. all_with k 1)
      clerk read_by_group-GetServed refl

abbrev write_result : Result
write_result = (apply (state_at writes_then 1 1) put_z).1

abbrev is_put : Kind → Bool
is_put Kind.get = false
is_put Kind.put = true
is_put Kind.append = false
is_put Kind.change = false
is_put Kind.delete = false

put-is_put : (k : Kind) → is_put k ≡ true → Kind.put ≡ k
put-is_put Kind.get h = absurd (ground arith)
put-is_put Kind.put h = refl
put-is_put Kind.append h = absurd (ground arith)
put-is_put Kind.change h = absurd (ground arith)
put-is_put Kind.delete h = absurd (ground arith)

abbrev is_put_z : Server.PutAppendArgs → Bool
is_put_z args = is_put args.op && (args.key == b'k' ∷ []) && (args.value == b'z' ∷ [])

abbrev written_by_group : Server.PutAppendArgs → ℕ → Text → Option Err
written_by_group args k name =
    if is_put_z args then some (Server.put_append args true (some write_result)) else none

written_by_group-WriteServed :
    (args : Server.PutAppendArgs) (k : ℕ) (name : Text) (err : Err)
    → written_by_group args k name ≡ some err
    → WriteServed writes_then args err
written_by_group-WriteServed args k name err h = elim (Bool-cases (is_put_z args)) [
  | inl e ↦
      let op : Kind.put ≡ args.op = put-is_put args.op (ground arith) in
      let key : args.key ≡ b'k' ∷ [] = (list_eq.beq_iff args.key (b'k' ∷ [])).0 (ground arith) in
      let value : args.value ≡ b'z' ∷ [] =
        (list_eq.beq_iff args.value (b'z' ∷ [])).0 (ground arith) in
      (
        true,
        some write_result,
        λ r f. (1, 1, put_z, refl, ground arith, λ a b. (op, sym key, sym value)),
        ground arith,
      )
  | inr e ↦ absurd (ground arith)
]

clerk_write_recorded_example :
    (g : ℕ) × (i : ℕ) × (op' : Op) × (get_elem? (writes_then g) i ≡ some op')
    × (op'.client_id ≡ pos 9)
    × (op'.request_id ≡ (Client.new_request_id clerk).1)
    × (op'.command ≡ Kind.put)
    × (op'.key ≡ b'k' ∷ [])
    × (op'.value ≡ b'z' ∷ [])
    × (is_wrong_group (state_at writes_then g i) (b'k' ∷ []) ≡ false)
    × (is_new (apply (state_at writes_then g i) op').0 op' ≡ false)
unfolding Client.put_append Client.rounds lookup Client.new_request_id key2shard Server.put_append
    Server.propose Server.expected apply Apply.apply_put is_wrong_group Apply.apply_all
    Apply.apply_change start_server is_new omni_paxos_kv.ShardKv.Maps.merge_prev
clerk_write_recorded_example =
    clerk_write_recorded writes_then 1 (b'k' ∷ []) (b'z' ∷ []) Kind.put written_by_group
      (λ k. all_with k 1) clerk (inl refl) written_by_group-WriteServed refl
