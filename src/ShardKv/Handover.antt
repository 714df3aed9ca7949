-- ===== src/ShardKv/Handover.antt =====
-- a3b-sharding/shardkv: the change of the configuration, and the deletion of what was handed over.
use omni_paxos_kv.Prelude.{
  replicate, sym, ◌∙◌, Bool-cases, length-set, zero, suc, ◌||◌, ap, map, nat_eq, int_eq, list_eq, ℕ,
  ◌+◌, ◌≤◌, ◌<◌, ◌≡◌, ◌≢◌, ◌⊎◌, inl, inr, refl, Bool, true, false, none, some, List, [], ◌∷◌,
  length, arith, eqb, if◌then◌else◌, get_elem?-set_ne, set, lookup, Assoc,
}
use omni_paxos_kv.ShardCtrler.Types.{Text, n_shards}
use omni_paxos_kv.ShardKv.Types.{
  Kind, ok, try_again, Op, Store, ShardKv, DeleteArgs, TransferArgs, TransferReply, owner,
  empty_store, shard,
}
use omni_paxos_kv.ShardKv.Maps.{copy_map, lookup-copy_map}
use omni_paxos_kv.ShardKv.Apply.{
  set_prev_req_id, write, apply_put, apply_append, apply_get, copy_stores, apply_change,
  apply_delete, apply,
}
use omni_paxos_kv.ShardKv.Reconf.{take_shards}
use omni_paxos_kv.ShardKv.Requests.{shard-set}
use omni_paxos_kv.ShardKv.Server.{expected, propose, delete, delete_op, transfer}

-- An operation leaves the configuration as it is, or is a change to the configuration with the next
-- number, which it installs: a group never skips a configuration.
pub config_advances_by_one :
    (kv : ShardKv) (op : Op)
    → ((apply kv op).0.config ≡ kv.config)
      ⊎ ((op.command ≡ Kind.change)
          × (op.config.num ≡ kv.config.num + 1)
          × ((apply kv op).0.config ≡ op.config))
unfolding apply apply_put apply_append apply_get apply_change apply_delete set_prev_req_id write
config_advances_by_one kv op = ground arith

pub shard-copy_stores :
    (src store : Store) (sid : ℕ)
    → length src ≡ length store
    → shard (copy_stores src store) sid ≡ copy_map (shard src sid) (shard store sid)
unfolding copy_stores copy_map
shard-copy_stores [] [] sid h = refl
shard-copy_stores [] (m ∷ store) sid h = absurd (ground arith)
shard-copy_stores (m ∷ src) [] sid h = absurd (ground arith)
shard-copy_stores (m ∷ src) (n ∷ store) zero h = refl
shard-copy_stores (m ∷ src) (n ∷ store) (suc sid) h = shard-copy_stores src store sid (omega arith)

abbrev pub has : ℕ → List ℕ → Bool
has i [] = false
has i (j ∷ js) = eqb i j || has i js

-- What the reply has at a key is in the fetched shard, if the shard is on the list, and if nothing
-- else was fetched for it.
pub shard-set_at :
    (store : Store) (i j : ℕ) (m : Assoc Text Text)
    → j < length store
    → shard (set store i m) j ≡ (if eqb i j then m else shard store j)
shard-set_at store i j m h = elim (Bool-cases (eqb i j)) [
  | inl e ↦ shard-set store i j m (ground arith)
  | inr e ↦ ground (arith, get_elem?-set_ne store i j m)
]

pub length-take_shards :
    (sids : List ℕ) (reply : TransferReply) (store : Store)
    → length (take_shards sids reply store) ≡ length store
unfolding take_shards
length-take_shards [] reply store = refl
length-take_shards (s ∷ sids) reply store =
    let new = copy_map (shard reply.store s) (shard store s) in
    length-take_shards sids reply (set store s new) ∙ length-set store s new

pub lookup-take_shards :
    (sids : List ℕ) (reply : TransferReply) (store : Store) (sid : ℕ) (key : Text)
    → sid < length store
    → let l = lookup key (shard reply.store sid) in
      (has sid sids ≡ true) ⊎ (lookup key (shard store sid) ≡ l)
      → (lookup key (shard store sid) ≡ none) ⊎ (lookup key (shard store sid) ≡ l)
      → lookup key (shard (take_shards sids reply store) sid) ≡ l
unfolding take_shards
lookup-take_shards [] reply store sid key h (inl m) o = cc
lookup-take_shards [] reply store sid key h (inr m) o = m
lookup-take_shards (s ∷ sids) reply store sid key h m o =
    let new = copy_map (shard reply.store s) (shard store s) in
    let c = lookup-copy_map (shard reply.store s) (shard store s) key in
    let e : shard (set store s new) sid ≡ (if eqb s sid then new else shard store sid) =
      shard-set_at store s sid new h in
    let m' : (has sid sids ≡ true)
        ⊎ (lookup key (shard (set store s new) sid) ≡ lookup key (shard reply.store sid)) =
      ground (arith, c, e, m, o) in
    let o' : (lookup key (shard (set store s new) sid) ≡ none)
        ⊎ (lookup key (shard (set store s new) sid) ≡ lookup key (shard reply.store sid)) =
      ground (arith, c, e, o) in
    let h' : sid < length (set store s new) = omega (arith, length-set store s new) in
    lookup-take_shards sids reply (set store s new) sid key h' m' o'

shard-map :
    (store : Store) (f : Assoc Text Text → Assoc Text Text) (sid : ℕ)
    → f [] ≡ []
    → shard (map f store) sid ≡ f (shard store sid)
shard-map [] f sid h = sym h
shard-map (m ∷ store) f zero h = refl
shard-map (m ∷ store) f (suc sid) h = shard-map store f sid h

lookup-transfer :
    (old : ShardKv) (args : TransferArgs) (sid : ℕ) (key : Text)
    → (transfer old args).err ≡ ok
    → lookup key (shard (transfer old args).store sid) ≡ lookup key (shard old.store sid)
unfolding transfer copy_map lookup
lookup-transfer old args sid key t = ground (
  arith,
  shard-map old.store (λ m. copy_map m []) sid refl,
  lookup-copy_map (shard old.store sid) [] key,
)

pub shard-replicate : (n sid : ℕ) → shard (replicate n []) sid ≡ []
shard-replicate zero sid = refl
shard-replicate (suc n) zero = refl
shard-replicate (suc n) (suc sid) = shard-replicate n sid

-- A transfer that is answered without an error hands over the old group's values: when the change
-- to the next configuration is applied whose store was taken from that answer alone, to a group
-- with all ten shards in its store, then each key of a shard that is on the list and was empty
-- before has the value that the old group had.
pub handed_over :
    (old kv : ShardKv) (args : TransferArgs) (op : Op) (sid : ℕ) (key : Text)
    → (transfer old args).err ≡ ok
    → op.command ≡ Kind.change
    → op.config.num ≡ kv.config.num + 1
    → op.store ≡ take_shards args.shard_ids (transfer old args) empty_store
    → has sid args.shard_ids ≡ true
    → length kv.store ≡ n_shards
    → shard kv.store sid ≡ []
    → sid < n_shards
    → lookup key (shard (apply kv op).0.store sid) ≡ lookup key (shard old.store sid)
unfolding apply apply_change lookup
handed_over old kv args op sid key t c n l m k e h =
    let len : length op.store ≡ length kv.store =
      rw l (length-take_shards args.shard_ids (transfer old args) empty_store ∙ sym k) in
    let got : lookup key (shard op.store sid) ≡ lookup key (shard (transfer old args).store sid) =
      rw l (
        lookup-take_shards args.shard_ids (transfer old args) empty_store sid key h (inl m)
          (inl (ap (lookup key) (shard-replicate n_shards sid)))) in
    ground (
      arith,
      shard-copy_stores op.store kv.store sid len,
      got,
      lookup-copy_map (shard op.store sid) [] key,
      lookup-transfer old args sid key t,
    )

-- A deletion empties no shard that the group has, and no other one than that of its request.
pub delete_keeps :
    (kv : ShardKv) (op : Op) (sid : ℕ)
    → op.command ≡ Kind.delete
    → (owner kv.config sid ≡ kv.gid) ⊎ (op.shard_id ≢ sid)
    → shard (apply kv op).0.store sid ≡ shard kv.store sid
unfolding apply apply_delete
delete_keeps kv op sid c h = ground (arith, get_elem?-set_ne kv.store op.shard_id sid [])

-- For a configuration number from 1 up to the group's own: the proposer of a deletion does not
-- recognize the result of its own operation, and the reply of the handler on a leader has no error
-- also when no result came.
pub deletion_never_confirmed :
    (kv : ShardKv) (args : DeleteArgs)
    → 0 < args.num
    → args.num ≤ kv.config.num
    → ((propose (delete_op args) true (some (apply kv (delete_op args)).1)).err ≡ try_again)
      × (delete kv true args none ≡ ok)
unfolding apply apply_delete propose delete expected
deletion_never_confirmed kv args p h = ground arith
