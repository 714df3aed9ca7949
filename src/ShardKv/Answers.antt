-- ===== src/ShardKv/Answers.antt =====
-- a3b-sharding/shardkv: where the answers come from that end a clerk's loops.
use omni_paxos_kv.Prelude.{
  list_eq, nat_eq, int_eq, ℕ, zero, suc, ◌+◌, ◌≡◌, refl, ap, sym, subst, ◌∙◌, inl, inr, Bool, true,
  false, ◌||◌, Option, none, some, List, [], ◌∷◌, arith, Option-cases, Bool-cases, lookup,
  get_elem?, take, eqb_ℤ,
}
use omni_paxos_kv.ShardCtrler.Types.{Text, Config}
use omni_paxos_kv.ShardKv.Types.{Kind, Err, Op, Result, ShardKv, start_server, owner, key2shard}
use omni_paxos_kv.ShardKv.Apply.{apply_all, apply, apply_get, apply_put, apply_append, apply_change}
use omni_paxos_kv.ShardKv.Reconf.{is_ok}
use omni_paxos_kv.ShardKv.Server.{expected, propose}
use omni_paxos_kv.ShardKv.Client.{is_no_key, try_servers, rounds}

module _ {A : Type 0} (err : A → Err) (ends : Err → Bool) where
  try_servers-found :
      (call : Text → Option A) (names : List Text) (reply : A)
      → try_servers err ends call names ≡ some reply
      → (name : Text) × (call name ≡ some reply) × (ends (err reply) ≡ true)
  unfolding try_servers
  try_servers-found call [] reply h = absurd (ground arith)
  try_servers-found call (name ∷ names) reply h = elim (Option-cases (call name)) [
    | inl e ↦ try_servers-found call names reply (ground arith)
    | inr (r, e) ↦ elim (Bool-cases (ends (err r))) [
      | inl t ↦
          let same : r ≡ reply = ground arith in
          (name, e ∙ ap some same, subst (λ x. ends (err x) ≡ true) same t)
      | inr t ↦ try_servers-found call names reply (ground arith)
    ]
  ]

  pub rounds-found :
      (call : ℕ → Text → Option A) (query : ℕ → Config) (key : Text) (fuel k : ℕ) (config : Config)
      (reply : A)
      → (rounds err ends call query key fuel k config).1 ≡ some reply
      → (j : ℕ) × (name : Text) × (call j name ≡ some reply) × (ends (err reply) ≡ true)
  unfolding rounds
  rounds-found call query key zero k config reply h = absurd (ground arith)
  rounds-found call query key (suc fuel) k config reply h =
      elim (Option-cases (lookup (owner config (key2shard key)) config.groups)) [
        | inl e ↦ rounds-found call query key fuel (k + 1) (query k) reply (rw (e, rounds) at h)
        | inr (servers, e) ↦ elim (Option-cases (try_servers err ends (call k) servers)) [
          | inl t ↦
              rounds-found call query key fuel (k + 1) (query k) reply (rw (e, t, rounds) at h)
          | inr (r, t) ↦
              let same : r ≡ reply = ground arith in
              let (name, f, g) = try_servers-found (call k) servers reply (t ∙ ap some same) in
              (k, name, f, g)
        ]
      ]

-- A server of group `g` before operation `i`, where `runs g` are the decided operations of the group.
abbrev pub state_at : (ℕ → List Op) → ℕ → ℕ → ShardKv
state_at runs g i = apply_all (start_server g) (take i (runs g))

-- What a handler is told about a client's operation: nothing, or the result of an operation that a
-- group applied; one with the client's id and number is this operation.
abbrev pub FromGroup : (ℕ → List Op) → Op → Option Result → Type 0
FromGroup runs op received =
    (r : Result)
    → received ≡ some r
    → (g : ℕ) × (i : ℕ) × (op' : Op) × (get_elem? (runs g) i ≡ some op')
      × (r ≡ (apply (state_at runs g i) op').1)
      × (op'.client_id ≡ op.client_id
          → op'.request_id ≡ op.request_id
          → (op'.command ≡ op.command) × (op'.key ≡ op.key) × (op'.value ≡ op.value))

abbrev pub of_client : Kind → Bool
of_client Kind.get = true
of_client Kind.put = true
of_client Kind.append = true
of_client Kind.change = false
of_client Kind.delete = false

propose_served :
    (op : Op) (leads : Bool) (received : Option Result)
    → of_client op.command ≡ true
    → (is_ok (propose op leads received).err || is_no_key (propose op leads received).err) ≡ true
    → (r : Result) × (received ≡ some r)
      × (propose op leads received ≡ r)
      × (r.client_id ≡ op.client_id)
      × (r.request_id ≡ op.request_id)
unfolding propose expected
propose_served op leads none c h = absurd (ground arith)
propose_served op leads (some r) c h =
    let t : expected op r ≡ true = ground arith in
    let same : propose op leads (some r) ≡ r = ground arith in
    let ids : (eqb_ℤ op.client_id r.client_id ≡ true) × (eqb_ℤ op.request_id r.request_id ≡ true) =
      ground arith in
    (
      r,
      refl,
      same,
      sym ((int_eq.beq_iff op.client_id r.client_id).0 ids.0),
      sym ((int_eq.beq_iff op.request_id r.request_id).0 ids.1),
    )

result_ids :
    (kv : ShardKv) (op : Op)
    → ((apply kv op).1.client_id ≡ op.client_id) × ((apply kv op).1.request_id ≡ op.request_id)
unfolding apply apply_get apply_put apply_append apply_change
result_ids kv op = ground arith

-- The group applied the operation of a request that its server answered.
pub served_by :
    (runs : ℕ → List Op) (op : Op) (leads : Bool) (received : Option Result)
    → of_client op.command ≡ true
    → FromGroup runs op received
    → (is_ok (propose op leads received).err || is_no_key (propose op leads received).err) ≡ true
    → (g : ℕ) × (i : ℕ) × (op' : Op) × (get_elem? (runs g) i ≡ some op')
      × (propose op leads received ≡ (apply (state_at runs g i) op').1)
      × (op'.client_id ≡ op.client_id)
      × (op'.request_id ≡ op.request_id)
      × (op'.command ≡ op.command)
      × (op'.key ≡ op.key)
      × (op'.value ≡ op.value)
served_by runs op leads received c from h =
    let (r, e, same, client, request) = propose_served op leads received c h in
    let (g, k, op', at, result, names) = from r e in
    let (i, j) = result_ids (state_at runs g k) op' in
    let cid : op'.client_id ≡ op.client_id =
      sym i ∙ ap (λ (x : Result). x.client_id) (sym result) ∙ client in
    let rid : op'.request_id ≡ op.request_id =
      sym j ∙ ap (λ (x : Result). x.request_id) (sym result) ∙ request in
    let (a, b, d) = names cid rid in (g, k, op', at, same ∙ result, cid, rid, a, b, d)
