-- ===== src/ShardKv/Client.antt =====
-- a3b-sharding/shardkv/client.go: the clerk's loops over the servers of a group and over the
-- configurations. What each call and each query brings is an argument.
use omni_paxos_kv.Prelude.{
  nat_eq, ℕ, zero, suc, ◌+◌, Bool, true, false, ◌||◌, Option, none, some, List, [], ◌∷◌,
  if◌then◌else◌, lookup, ℤ, pos, ◌+ℤ◌,
}
use omni_paxos_kv.ShardCtrler.Types.{Text, Config, zero_config}
use omni_paxos_kv.ShardKv.Types.{
  Kind, Err, ok, no_key, wrong_group, not_leader, try_again, timeout, owner, key2shard,
}
use omni_paxos_kv.ShardKv.Reconf.{is_ok}
use omni_paxos_kv.ShardKv.Server.{GetArgs, GetReply, PutAppendArgs}

-- The controller's clerk and the connections stand outside the model.
pub record Clerk : Type 0 where
  pub config : Config
  pub client_id : ℤ
  pub request_id : ℤ

unfoldable pub make_clerk : ℤ → Clerk
make_clerk random = record { config = zero_config; client_id = random; request_id = pos 0 }

unfoldable pub new_request_id : Clerk → Clerk × ℤ
unfolding ◌+ℤ◌
new_request_id ck =
    let ck' = record ck { request_id = ck.request_id +ℤ pos 1 } in (ck', ck'.request_id)

abbrev pub is_no_key : Err → Bool
is_no_key ok = false
is_no_key no_key = true
is_no_key wrong_group = false
is_no_key not_leader = false
is_no_key try_again = false
is_no_key timeout = false

abbrev pub is_wrong_group : Err → Bool
is_wrong_group ok = false
is_wrong_group no_key = false
is_wrong_group wrong_group = true
is_wrong_group not_leader = false
is_wrong_group try_again = false
is_wrong_group timeout = false

-- `err` is the error of a reply, and `ends` says which errors end the request.
module _ {A : Type 0} (err : A → Err) (ends : Err → Bool) where
  -- The servers of a group in order, up to the one that ends the request or says that the group is
  -- the wrong one.
  unfoldable pub try_servers : (Text → Option A) → List Text → Option A
  try_servers call [] = none
  try_servers call (name ∷ names) =
      let rest = try_servers call names in
      elim (call name) [
        | none ↦ rest
        | some reply ↦
            if ends (err reply)
            then some reply
            else if is_wrong_group (err reply)
            then none
            else rest
      ]

  -- `call k` is what the servers answer in round `k`, and `query k` the controller's answer after it.
  unfoldable pub rounds :
      (ℕ → Text → Option A) → (ℕ → Config) → Text → ℕ → ℕ → Config → Config × Option A
  unfolding try_servers
  rounds call query key zero k config = (config, none)
  rounds call query key (suc fuel) k config =
      let tried : Option A = elim (lookup (owner config (key2shard key)) config.groups) [
        | some servers ↦ try_servers (call k) servers
        | none ↦ none
      ] in
      elim tried [
        | some reply ↦ (config, some reply)
        | none ↦ rounds call query key fuel (k + 1) (query k)
      ]

-- The value, or `none` if the loop has not ended within `fuel` rounds.
unfoldable pub get :
    ℕ → Text → (GetArgs → ℕ → Text → Option GetReply) → (ℕ → Config) → Clerk → Clerk × Option Text
get fuel key call query ck =
    let (ck', id) = new_request_id ck in
    let args : GetArgs = record { key = key; client_id = ck'.client_id; request_id = id } in
    let (config, reply) =
      rounds (λ (r : GetReply). r.err) (λ e. is_ok e || is_no_key e) (call args) query key fuel 0
        ck'.config in
    (record ck' { config = config }, elim reply [ some r ↦ some r.value | none ↦ none ])

-- Whether the call has come back.
unfoldable pub put_append :
    ℕ
    → Text
    → Text
    → Kind
    → (PutAppendArgs → ℕ → Text → Option Err)
    → (ℕ → Config)
    → Clerk
    → Clerk × Bool
put_append fuel key value op call query ck =
    let (ck', id) = new_request_id ck in
    let args : PutAppendArgs = record {
      op = op;
      key = key;
      value = value;
      client_id = ck'.client_id;
      request_id = id;
    } in
    let (config, reply) = rounds (λ (e : Err). e) is_ok (call args) query key fuel 0 ck'.config in
    (record ck' { config = config }, elim reply [ some _ ↦ true | none ↦ false ])
