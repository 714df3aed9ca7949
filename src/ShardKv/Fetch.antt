-- ===== src/ShardKv/Fetch.antt =====
-- a3b-sharding/shardkv/reconf.go: `getChangeOp` fetches the shards that arrive, from their old groups.
use omni_paxos_kv.Prelude.{
  subst, length-set, sym, ◌∙◌, ap, Bool-cases, Option-cases, nat_eq, int_eq, list_eq, ℕ, ◌+◌, ◌<◌,
  ◌≡◌, ◌⊎◌, inl, inr, refl, true, false, Option, none, some, List, [], ◌∷◌, length, arith, eqb,
  if◌then◌else◌, set, lookup, Assoc, range,
}
use omni_paxos_kv.ShardCtrler.Types.{Text, Config, n_shards}
use omni_paxos_kv.ShardKv.Types.{
  Kind, Op, Store, PrevReq, ShardKv, TransferReply, owner, shard, empty_store,
}
use omni_paxos_kv.ShardKv.Maps.{copy_map, lookup-copy_map, merge_prev}
use omni_paxos_kv.ShardKv.Apply.{copy_stores, apply_change, apply}
use omni_paxos_kv.ShardKv.Reconf.{
  arrives, collect, shards_to_transfer, first_ok, take_shards, fetch_all, get_change_op,
}
use omni_paxos_kv.ShardKv.Handover.{
  has, length-take_shards, lookup-take_shards, shard-copy_stores, shard-replicate, shard-set_at,
}
use omni_paxos_kv.ShardKv.Arrivals.{owned, listed, has-range, collect-owned, collect-listed}

pub take_shards-others :
    (sids : List ℕ) (reply : TransferReply) (store : Store) (sid : ℕ)
    → sid < length store
    → has sid sids ≡ false
    → shard (take_shards sids reply store) sid ≡ shard store sid
unfolding take_shards
take_shards-others [] reply store sid h n = refl
take_shards-others (s ∷ sids) reply store sid h n =
    let new = copy_map (shard reply.store s) (shard store s) in
    let e : shard (set store s new) sid ≡ (if eqb s sid then new else shard store sid) =
      shard-set_at store s sid new h in
    let f : shard (set store s new) sid ≡ shard store sid = ground (arith, e) in
    let h' : sid < length (set store s new) = omega (arith, length-set store s new) in
    take_shards-others sids reply (set store s new) sid h' (ground arith) ∙ f

-- A fetch that succeeds got an answer from the group of each shard on the lists.
fetch_all-answers :
    (answers : ℕ → List (Option TransferReply)) (o sid : ℕ) (all : Assoc ℕ (List ℕ))
    (acc acc' : Store × PrevReq)
    → fetch_all answers all acc ≡ some acc'
    → owned o sid all ≡ true
    → listed sid all ≡ true
    → (reply : TransferReply) × (first_ok (answers o) ≡ some reply)
unfolding fetch_all
fetch_all-answers answers o sid [] acc acc' h w l = absurd (ground arith)
fetch_all-answers answers o sid ((g, sids) ∷ all) (store, prev) acc' h w l =
    elim (Option-cases (first_ok (answers g))) [
      | inl e ↦ absurd (ground arith)
      | inr (reply, e) ↦ elim (Bool-cases (has sid sids)) [
        | inl m ↦
            let p : g ≡ o = ground arith in
            (reply, subst (λ x. first_ok (answers x) ≡ some reply) p e)
        | inr m ↦
            fetch_all-answers answers o sid all
              (take_shards sids reply store, merge_prev reply.prev prev) acc' (ground arith)
              (ground arith) (ground arith)
      ]
    ]

fetch_all-values :
    (answers : ℕ → List (Option TransferReply)) (o sid : ℕ) (all : Assoc ℕ (List ℕ))
    (acc acc' : Store × PrevReq) (reply : TransferReply) (key : Text)
    → fetch_all answers all acc ≡ some acc'
    → owned o sid all ≡ true
    → first_ok (answers o) ≡ some reply
    → sid < length acc.0
    → let v = lookup key (shard reply.store sid) in
      (listed sid all ≡ true) ⊎ (lookup key (shard acc.0 sid) ≡ v)
      → (lookup key (shard acc.0 sid) ≡ none) ⊎ (lookup key (shard acc.0 sid) ≡ v)
      → lookup key (shard acc'.0 sid) ≡ v
unfolding fetch_all
fetch_all-values answers o sid [] acc acc' reply key h w f n (inl l) k = absurd (ground arith)
fetch_all-values answers o sid [] acc acc' reply key h w f n (inr l) k = cc
fetch_all-values answers o sid ((g, sids) ∷ all) (store, prev) acc' reply key h w f n l k =
    elim (Option-cases (first_ok (answers g))) [
      | inl e ↦ absurd (ground arith)
      | inr (r, e) ↦
          let next = take_shards sids r store in
          let rest : fetch_all answers all (next, merge_prev r.prev prev) ≡ some acc' = rw e at h in
          let n' : sid < length next = omega (arith, length-take_shards sids r store) in
          elim (Bool-cases (has sid sids)) [
            | inl m ↦
                let p : g ≡ o = ground arith in
                let f' : first_ok (answers g) ≡ some reply = rw p f in
                let same : r ≡ reply = ground arith in
                let k' : (lookup key (shard store sid) ≡ none)
                    ⊎ (lookup key (shard store sid) ≡ lookup key (shard r.store sid)) =
                  subst
                    (λ (x : TransferReply).
                      (lookup key (shard store sid) ≡ none)
                      ⊎ (lookup key (shard store sid) ≡ lookup key (shard x.store sid)))
                    (sym same) k in
                let got : lookup key (shard next sid) ≡ lookup key (shard reply.store sid) =
                  subst
                    (λ (x : TransferReply).
                      lookup key (shard next sid) ≡ lookup key (shard x.store sid))
                    same (lookup-take_shards sids r store sid key n (inl m) k') in
                fetch_all-values answers o sid all (next, merge_prev r.prev prev) acc' reply key
                  rest (ground arith) f n' (inr got) (inr got)
            | inr m ↦
                let l' : (listed sid all ≡ true)
                    ⊎ (lookup key (shard store sid) ≡ lookup key (shard reply.store sid)) =
                  ground arith in
                let q : shard next sid ≡ shard store sid =
                  take_shards-others sids r store sid n m in
                fetch_all-values answers o sid all (next, merge_prev r.prev prev) acc' reply key
                  rest (ground arith) f n' (rw q l') (rw q k)
          ]
    ]

-- When `getChangeOp` succeeds, a group has answered for each shard that arrives, the one that has
-- the shard in the present configuration; and the operation holds for each key of the shard the
-- value in the answer.
pub get_change_op_fetches :
    (kv : ShardKv) (conf : Config) (answers : ℕ → List (Option TransferReply)) (op : Op) (sid : ℕ)
    (key : Text)
    → get_change_op kv conf answers ≡ some op
    → sid < n_shards
    → arrives kv conf sid ≡ true
    → (reply : TransferReply) × (first_ok (answers (owner kv.config sid)) ≡ some reply)
      × (lookup key (shard op.store sid) ≡ lookup key (shard reply.store sid))
unfolding get_change_op shards_to_transfer lookup
get_change_op_fetches kv conf answers op sid key h n a =
    let all = collect kv conf (range n_shards) [] in
    let o = owner kv.config sid in
    let w : owned o sid all ≡ true = collect-owned kv conf sid (range n_shards) [] refl in
    let l : listed sid all ≡ true =
      collect-listed kv conf sid (range n_shards) [] a (inr (has-range sid n_shards n)) in
    elim (Option-cases (fetch_all answers all (empty_store, []))) [
      | inl e ↦ absurd (ground arith)
      | inr (acc, e) ↦
          let (reply, f) = fetch_all-answers answers o sid all (empty_store, []) acc e w l in
          let s : op.store ≡ acc.0 = ground arith in
          let empty : lookup key (shard empty_store sid) ≡ none =
            ap (lookup key) (shard-replicate n_shards sid) in
          (
            reply,
            f,
            rw s (
                fetch_all-values answers o sid all (empty_store, []) acc reply key e w f n (inl l)
                  (inl empty)),
          )
    ]

length-fetch_all :
    (answers : ℕ → List (Option TransferReply)) (all : Assoc ℕ (List ℕ))
    (acc acc' : Store × PrevReq)
    → fetch_all answers all acc ≡ some acc'
    → length acc'.0 ≡ length acc.0
unfolding fetch_all
length-fetch_all answers [] acc acc' h = ground arith
length-fetch_all answers ((g, sids) ∷ all) (store, prev) acc' h =
    elim (Option-cases (first_ok (answers g))) [
      | inl e ↦ absurd (ground arith)
      | inr (r, e) ↦
          length-fetch_all answers all (take_shards sids r store, merge_prev r.prev prev) acc'
            (rw e at h)
          ∙ length-take_shards sids r store
    ]

-- The operation of `getChangeOp`.
pub change_op-fields :
    (kv : ShardKv) (conf : Config) (answers : ℕ → List (Option TransferReply)) (op : Op)
    → get_change_op kv conf answers ≡ some op
    → (op.command ≡ Kind.change) × (op.config ≡ conf) × (length op.store ≡ n_shards)
unfolding get_change_op
change_op-fields kv conf answers op h =
    let all = shards_to_transfer kv conf in
    elim (Option-cases (fetch_all answers all (empty_store, []))) [
      | inl e ↦ absurd (ground arith)
      | inr (acc, e) ↦
          let n : length acc.0 ≡ n_shards = length-fetch_all answers all (empty_store, []) acc e in
          (ground arith, ground arith, ground (arith, n))
    ]

-- A change of the configuration brings the values: when `getChangeOp` succeeds for the next
-- configuration and its operation is applied, in a group with all ten shards in its store, then
-- for each shard that arrives and that was empty, the group that had the shard has answered, and
-- each key of the shard has the value in that answer.
pub change_brings_values :
    (kv : ShardKv) (conf : Config) (answers : ℕ → List (Option TransferReply)) (op : Op) (sid : ℕ)
    (key : Text)
    → get_change_op kv conf answers ≡ some op
    → conf.num ≡ kv.config.num + 1
    → length kv.store ≡ n_shards
    → shard kv.store sid ≡ []
    → sid < n_shards
    → arrives kv conf sid ≡ true
    → (reply : TransferReply) × (first_ok (answers (owner kv.config sid)) ≡ some reply)
      × (lookup key (shard (apply kv op).0.store sid) ≡ lookup key (shard reply.store sid))
unfolding apply apply_change lookup
change_brings_values kv conf answers op sid key h c len none_yet n a =
    let (command, config, size) = change_op-fields kv conf answers op h in
    let (reply, f, v) = get_change_op_fetches kv conf answers op sid key h n a in
    let s : shard (copy_stores op.store kv.store) sid
        ≡ copy_map (shard op.store sid) (shard kv.store sid) =
      shard-copy_stores op.store kv.store sid (size ∙ sym len) in
    let l : lookup key (copy_map (shard op.store sid) [])
        ≡ (elim (lookup key (shard op.store sid)) [ some v ↦ some v | none ↦ none ]) =
      lookup-copy_map (shard op.store sid) [] key in
    (reply, f, ground (arith, s, l, v))
