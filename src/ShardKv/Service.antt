-- ===== src/ShardKv/Service.antt =====
-- a3b-sharding/shardkv: what a clerk is told, through its loop, a server's handler and the applier.
use omni_paxos_kv.Prelude.{
  list_eq, nat_eq, int_eq, ℕ, ◌≡◌, refl, ap, sym, subst, ◌∙◌, inl, inr, Bool, true, false, ◌||◌,
  Option, none, some, List, get_elem?, [], ◌++◌, ◌⊎◌, lookup-insert, get_or, arith, ℤ, pos, negsuc,
  ltb_ℤ,
}
use omni_paxos_kv.ShardCtrler.Types.{Text, Config}
use omni_paxos_kv.ShardKv.Types.{Kind, Err, Op, Result, ShardKv}
use omni_paxos_kv.ShardKv.Apply.{
  is_new, is_wrong_group, read, set_prev_req_id, write, apply, apply_get, apply_put, apply_append,
}
use omni_paxos_kv.ShardKv.Reconf.{is_ok}
use omni_paxos_kv.ShardKv.Server.{
  expected, failed, propose, client_op, GetArgs, GetReply, PutAppendArgs,
}
use omni_paxos_kv.ShardKv.Client
use omni_paxos_kv.ShardKv.Server
use omni_paxos_kv.ShardKv.Client.{Clerk, new_request_id, is_no_key, try_servers, rounds}
use omni_paxos_kv.ShardKv.Answers.{state_at, rounds-found, FromGroup, of_client, served_by}

get_result :
    (kv : ShardKv) (op : Op)
    → op.command ≡ Kind.get
    → (is_ok (apply kv op).1.err || is_no_key (apply kv op).1.err) ≡ true
    → (is_wrong_group kv op.key ≡ false) × ((apply kv op).1.value ≡ get_or (read kv op.key) [])
unfolding apply apply_get set_prev_req_id
get_result kv op c h = ground arith

not_below_self : (a : ℤ) → ltb_ℤ a a ≡ false
not_below_self (pos n) = ground arith
not_below_self (negsuc n) = ground arith

recorded : (kv : ShardKv) (op : Op) → is_new (set_prev_req_id kv op) op ≡ false
unfolding is_new set_prev_req_id
recorded kv op = ground (
  arith,
  lookup-insert op.client_id op.client_id op.request_id kv.prev_req,
  not_below_self op.request_id,
)

write_result :
    (kv : ShardKv) (op : Op)
    → (op.command ≡ Kind.put) ⊎ (op.command ≡ Kind.append)
    → is_ok (apply kv op).1.err ≡ true
    → (is_wrong_group kv op.key ≡ false) × (is_new (apply kv op).0 op ≡ false)
unfolding apply apply_put apply_append
write_result kv op (inl c) h = ground (arith, recorded (write kv op.key op.value) op)
write_result kv op (inr c) h = ground (
  arith,
  recorded (write kv op.key ((elim (read kv op.key) [ some v ↦ v | none ↦ [] ]) ++ op.value)) op,
)

-- A server's answer to a Get, and to a Put or an Append.
abbrev pub GetServed : (ℕ → List Op) → GetArgs → GetReply → Type 0
GetServed runs args reply =
    (leads : Bool) × (received : Option Result) × FromGroup runs
      (client_op Kind.get args.key [] args.client_id args.request_id) received
    × (reply ≡ Server.get args leads received)

abbrev pub WriteServed : (ℕ → List Op) → PutAppendArgs → Err → Type 0
WriteServed runs args err =
    (leads : Bool) × (received : Option Result) × FromGroup runs
      (client_op args.op args.key args.value args.client_id args.request_id) received
    × (err ≡ Server.put_append args leads received)

told_value :
    (reply : Option GetReply) (value : Text)
    → (elim reply [ some r ↦ some r.value | none ↦ none ]) ≡ some value
    → (r : GetReply) × (reply ≡ some r) × (r.value ≡ value)
told_value none value h = absurd (ground arith)
told_value (some r) value h = (r, refl, ground arith)

told_end :
    (err : Option Err)
    → (elim err [ some _ ↦ true | none ↦ false ]) ≡ true
    → (e : Err) × (err ≡ some e)
told_end none h = absurd (ground arith)
told_end (some e) h = (e, refl)

write-of_client : (op : Kind) → (op ≡ Kind.put) ⊎ (op ≡ Kind.append) → of_client op ≡ true
write-of_client op (inl e) = rw e refl
write-of_client op (inr e) = rw e refl

ok_served : (e : Err) → is_ok e ≡ true → (is_ok e || is_no_key e) ≡ true
ok_served e h = rw h refl

-- A clerk's Get that comes back, whatever configurations it went through, tells the value that the
-- key had in a group that owned it by its configuration when it applied the Get: the Get, with the
-- clerk's id and number, stands among the operations that the group decided, and the value is that of
-- the key in the state after the operations before it; a missing key has the empty value. Each answer
-- came from a server's handler, told nothing or the result of an operation that a group decided,
-- applied in the group's state then, and the clerk's id and number stand for this request alone.
pub clerk_get_reads_owner :
    (runs : ℕ → List Op) (fuel : ℕ) (key value : Text) (call : GetArgs → ℕ → Text → Option GetReply)
    (query : ℕ → Config) (ck : Clerk)
    → ((args : GetArgs) (k : ℕ) (name : Text) (reply : GetReply)
        → call args k name ≡ some reply
        → GetServed runs args reply)
    → (Client.get fuel key call query ck).1 ≡ some value
    → (g : ℕ) × (i : ℕ) × (op : Op) × (get_elem? (runs g) i ≡ some op)
      × (op.client_id ≡ ck.client_id)
      × (op.request_id ≡ (new_request_id ck).1)
      × (op.command ≡ Kind.get)
      × (op.key ≡ key)
      × (is_wrong_group (state_at runs g i) key ≡ false)
      × (value ≡ get_or (read (state_at runs g i) key) [])
unfolding Client.get Server.get new_request_id
clerk_get_reads_owner runs fuel key value call query ck from h =
    let id = (new_request_id ck).1 in
    let args : GetArgs = record { key = key; client_id = ck.client_id; request_id = id } in
    let op = client_op Kind.get key [] ck.client_id id in
    let (reply, told, v) = told_value _ value h in
    let (k, name, e, good) =
      rounds-found (λ (r : GetReply). r.err) (λ e. is_ok e || is_no_key e) (call args) query key
        fuel 0 ck.config reply told in
    let (leads, received, group, same) = from args k name reply e in
    let (g, i, op', at, result, client, request, command, key', _) =
      served_by runs op leads received refl group (rw same at good) in
    let kv = state_at runs g i in
    let (owns, read_value) = get_result kv op' command (rw (same, result) at good) in
    let shown : reply.value ≡ get_or (read kv op'.key) [] =
      ap (λ (r : GetReply). r.value) same ∙ ap (λ (r : Result). r.value) result ∙ read_value in
    (g, i, op', at, client, request, command, key', rw key' at owns, sym v ∙ rw key' at shown)

-- A clerk's Put or Append that comes back was recorded by a group that owned its key by its
-- configuration: this write, with the clerk's id and number, stands among the operations that the
-- group decided, and in the state after it the write is not new any more, since it was applied there
-- or before. The answers come as for a Get.
pub clerk_write_recorded :
    (runs : ℕ → List Op) (fuel : ℕ) (key value : Text) (op : Kind)
    (call : PutAppendArgs → ℕ → Text → Option Err) (query : ℕ → Config) (ck : Clerk)
    → (op ≡ Kind.put) ⊎ (op ≡ Kind.append)
    → ((args : PutAppendArgs) (k : ℕ) (name : Text) (err : Err)
        → call args k name ≡ some err
        → WriteServed runs args err)
    → (Client.put_append fuel key value op call query ck).1 ≡ true
    → (g : ℕ) × (i : ℕ) × (op' : Op) × (get_elem? (runs g) i ≡ some op')
      × (op'.client_id ≡ ck.client_id)
      × (op'.request_id ≡ (new_request_id ck).1)
      × (op'.command ≡ op)
      × (op'.key ≡ key)
      × (op'.value ≡ value)
      × (is_wrong_group (state_at runs g i) key ≡ false)
      × (is_new (apply (state_at runs g i) op').0 op' ≡ false)
unfolding Client.put_append Server.put_append new_request_id
clerk_write_recorded runs fuel key value op call query ck kind from h =
    let id = (new_request_id ck).1 in
    let args : PutAppendArgs = record {
      op = op;
      key = key;
      value = value;
      client_id = ck.client_id;
      request_id = id;
    } in
    let sent = client_op op key value ck.client_id id in
    let (err, told) = told_end _ h in
    let (k, name, e, good) =
      rounds-found (λ (e : Err). e) is_ok (call args) query key fuel 0 ck.config err told in
    let (leads, received, group, same) = from args k name err e in
    let good' : is_ok (propose sent leads received).err ≡ true = rw same at good in
    let (g, i, op', at, result, client, request, command, key', value') =
      served_by runs sent leads received (write-of_client op kind) group (ok_served _ good') in
    let (owns, stays) =
      write_result (state_at runs g i) op'
        (subst (λ c. (c ≡ Kind.put) ⊎ (c ≡ Kind.append)) (sym command) kind) (rw result at good') in
    (g, i, op', at, client, request, command, key', value', rw key' at owns, stays)
