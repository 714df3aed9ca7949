-- ===== src/ShardKv/Requests.antt =====
-- a3b-sharding/shardkv/apply.go: what the operations of the clients do, and that they do it once.
use omni_paxos_kv.Prelude.{
  ap, Option-cases, Assoc, eqb, nat_eq, int_eq, list_eq, ℕ, ◌<◌, ◌≡◌, ◌⊎◌, inl, inr, true, false,
  none, some, List, [], ◌∷◌, ◌++◌, length, arith, if◌then◌else◌, ◌==◌, get_elem?-set_self,
  get_elem?-set_ne, set, lookup, insert, lookup-insert, lookup-insert_self, Bool-cases,
}
use omni_paxos_kv.ShardKv.Maps.{merge_prev-keeps}
use omni_paxos_kv.ShardCtrler.Types.{Text}
use omni_paxos_kv.ShardKv.Types.{Kind, ok, wrong_group, Op, Store, ShardKv, key2shard, shard}
use omni_paxos_kv.ShardKv.Apply.{
  is_new, is_wrong_group, set_prev_req_id, write, read, apply_put, apply_append, apply_get, apply,
  apply_all, apply_change, apply_delete,
}

-- The operations that come from clients.
abbrev pub OfClient : Kind → Type 0
OfClient k = (k ≡ Kind.get) ⊎ ((k ≡ Kind.put) ⊎ (k ≡ Kind.append))

-- A client's operation on a key whose shard is not the group's changes nothing, and its result says
-- so.
pub wrong_group_ignored :
    (kv : ShardKv) (op : Op)
    → OfClient op.command
    → is_wrong_group kv op.key ≡ true
    → ((apply kv op).0 ≡ kv) × ((apply kv op).1.err ≡ wrong_group)
unfolding apply apply_put apply_append apply_get
wrong_group_ignored kv op (inl e) w = ground arith
wrong_group_ignored kv op (inr (inl e)) w = ground arith
wrong_group_ignored kv op (inr (inr e)) w = ground arith

pub shard-set :
    (store : Store) (i j : ℕ) (m : Assoc Text Text)
    → i < length store
    → shard (set store i m) j ≡ (if eqb i j then m else shard store j)
shard-set store i j m h = elim (Bool-cases (eqb i j)) [
  | inl e ↦ ground (arith, get_elem?-set_self store i m h)
  | inr e ↦ ground (arith, get_elem?-set_ne store i j m (λ p. ground arith))
]

-- A read finds what was last written to the key.
read-write :
    (kv : ShardKv) (key value key' : Text)
    → key2shard key < length kv.store
    → read (write kv key value) key' ≡ (if key == key' then some value else read kv key')
unfolding write
read-write kv key value key' h =
    let m = insert key value (shard kv.store (key2shard key)) in
    let e : shard (set kv.store (key2shard key) m) (key2shard key')
        ≡ (if eqb (key2shard key) (key2shard key') then m else shard kv.store (key2shard key')) =
      shard-set kv.store (key2shard key) (key2shard key') m h in
    let l : lookup key' m
        ≡ (if key == key' then some value else lookup key' (shard kv.store (key2shard key))) =
      lookup-insert key key' value (shard kv.store (key2shard key)) in
    elim (Bool-cases (key == key')) [
      | inl t ↦ ground (arith, e, l, ap key2shard ((list_eq.beq_iff key key').0 t))
      | inr f ↦ ground (arith, e, l)
    ]

-- The value that a write leaves at its key.
abbrev pub written : ShardKv → Op → Text
written kv op = elim op.command [
  | Kind.append ↦ (elim (read kv op.key) [ some v ↦ v | none ↦ [] ]) ++ op.value
  | _ ↦ op.value
]

-- A new Put or Append on a key of the group's, whose shard the store has, writes its key, as it
-- says, and no other key, and its result has no error.
pub write_applied :
    (kv : ShardKv) (op : Op) (key : Text)
    → (op.command ≡ Kind.put) ⊎ (op.command ≡ Kind.append)
    → is_wrong_group kv op.key ≡ false
    → is_new kv op ≡ true
    → key2shard op.key < length kv.store
    → (read (apply kv op).0 key ≡ (if op.key == key then some (written kv op) else read kv key))
      × ((apply kv op).1.err ≡ ok)
unfolding apply apply_put apply_append set_prev_req_id
write_applied kv op key (inl e) w n h = ground (arith, read-write kv op.key op.value key h)
write_applied kv op key (inr e) w n h = ground (
  arith,
  read-write kv op.key ((elim (read kv op.key) [ some v ↦ v | none ↦ [] ]) ++ op.value) key h,
)

old_changes_nothing :
    (kv : ShardKv) (op : Op) → OfClient op.command → is_new kv op ≡ false → (apply kv op).0 ≡ kv
unfolding apply apply_put apply_append apply_get
old_changes_nothing kv op (inl e) o = ground arith
old_changes_nothing kv op (inr (inl e)) o = ground arith
old_changes_nothing kv op (inr (inr e)) o = ground arith

Kind-cases :
    (k : Kind)
    → (k ≡ Kind.get)
      ⊎ ((k ≡ Kind.put) ⊎ ((k ≡ Kind.append) ⊎ ((k ≡ Kind.change) ⊎ (k ≡ Kind.delete))))
Kind-cases k = ground arith

-- After it is applied, an operation is old.
applied_is_old :
    (kv : ShardKv) (op : Op)
    → OfClient op.command
    → is_wrong_group kv op.key ≡ false
    → is_new (apply kv op).0 op ≡ false
unfolding apply apply_put apply_append apply_get set_prev_req_id is_new write
applied_is_old kv op c w = elim c [
  | inl e ↦ ground (arith, lookup-insert_self op.client_id op.request_id kv.prev_req)
  | inr (inl e) ↦ ground (arith, lookup-insert_self op.client_id op.request_id kv.prev_req)
  | inr (inr e) ↦ ground (arith, lookup-insert_self op.client_id op.request_id kv.prev_req)
]

-- An old operation stays old, whatever is applied: a change of the configuration merges the clients'
-- numbers without losing one.
stays_old : (kv : ShardKv) (op op' : Op) → is_new kv op ≡ false → is_new (apply kv op').0 op ≡ false
unfolding apply apply_put apply_append apply_get apply_change apply_delete set_prev_req_id is_new
    write
stays_old kv op op' o = elim (Option-cases (lookup op.client_id kv.prev_req)) [
  | inl e ↦ ground arith
  | inr (p, e) ↦
      let i = lookup-insert op'.client_id op.client_id op'.request_id kv.prev_req in
      let same = int_eq.beq_iff op'.client_id op.client_id in
      let (q, m, le) = merge_prev-keeps op'.prev_req kv.prev_req op.client_id p e in
      elim (Kind-cases op'.command) [
        | inl c ↦ ground (arith, i, same)
        | inr (inl c) ↦ ground (arith, i, same)
        | inr (inr (inl c)) ↦ ground (arith, i, same)
        | inr (inr (inr (inl c))) ↦ ground (arith, m, le)
        | inr (inr (inr (inr c))) ↦ ground arith
      ]
]

stay_old :
    (kv : ShardKv) (op : Op) (ops : List Op)
    → is_new kv op ≡ false
    → is_new (apply_all kv ops) op ≡ false
unfolding apply_all
stay_old kv op [] o = o
stay_old kv op (op' ∷ ops) o = stay_old (apply kv op').0 op ops (stays_old kv op op' o)

-- A client's operation that is applied in the group of its key, and decided again later, changes
-- nothing the second time, whatever operations and changes of configuration come between.
pub applied_once_across_changes :
    (kv : ShardKv) (op : Op) (between : List Op)
    → OfClient op.command
    → is_wrong_group kv op.key ≡ false
    → let later = apply_all (apply kv op).0 between in (apply later op).0 ≡ later
applied_once_across_changes kv op between c w =
    old_changes_nothing (apply_all (apply kv op).0 between) op c
      (stay_old (apply kv op).0 op between (applied_is_old kv op c w))
