-- ===== src/ShardKv/Others.antt =====
-- a3b-sharding/shardkv/reconf.go and apply.go: a change of the configuration leaves alone the shards
-- that do not arrive.
use omni_paxos_kv.Prelude.{
  nat_eq, int_eq, list_eq, ℕ, ◌<◌, ◌≡◌, refl, ap, sym, ◌∙◌, inl, inr, true, false, Option, some,
  List, [], ◌∷◌, ◌++◌, length, arith, eqb, if◌then◌else◌, Bool-cases, Option-cases, lookup,
  lookup_or, insert, Assoc, range,
}
use omni_paxos_kv.ShardCtrler.Types.{Config, n_shards}
use omni_paxos_kv.ShardKv.Types.{
  Op, Store, PrevReq, ShardKv, TransferReply, owner, shard, empty_store,
}
use omni_paxos_kv.ShardKv.Maps.{copy_map, merge_prev}
use omni_paxos_kv.ShardKv.Apply.{copy_stores, apply_change, apply}
use omni_paxos_kv.ShardKv.Reconf.{
  arrives, collect, shards_to_transfer, first_ok, take_shards, fetch_all, get_change_op,
}
use omni_paxos_kv.ShardKv.Handover.{has, length-take_shards, shard-copy_stores, shard-replicate}
use omni_paxos_kv.ShardKv.Arrivals.{listed, has-append}
use omni_paxos_kv.ShardKv.Fetch.{take_shards-others, change_op-fields}

unlisted-lookup :
    (sid g : ℕ) (m : Assoc ℕ (List ℕ)) → listed sid m ≡ false → has sid (lookup_or [] g m) ≡ false
unfolding lookup
unlisted-lookup sid g [] h = refl
unlisted-lookup sid g ((j, sids) ∷ m) h = ground (arith, unlisted-lookup sid g m)

unlisted-insert :
    (sid g : ℕ) (l : List ℕ) (m : Assoc ℕ (List ℕ))
    → listed sid m ≡ false
    → has sid l ≡ false
    → listed sid (insert g l m) ≡ false
unfolding insert
unlisted-insert sid g l [] h k = ground arith
unlisted-insert sid g l ((j, sids) ∷ m) h k = ground (arith, unlisted-insert sid g l m)

collect-unlisted :
    (kv : ShardKv) (conf : Config) (sid : ℕ) (is : List ℕ) (m : Assoc ℕ (List ℕ))
    → arrives kv conf sid ≡ false
    → listed sid m ≡ false
    → listed sid (collect kv conf is m) ≡ false
unfolding collect
collect-unlisted kv conf sid [] m a h = h
collect-unlisted kv conf sid (i ∷ is) m a h =
    let g = owner kv.config i in
    let l = lookup_or [] g m ++ i ∷ [] in
    collect-unlisted kv conf sid is (if arrives kv conf i then insert g l m else m) a
      (elim (Bool-cases (arrives kv conf i)) [
        | inl e ↦
            let n = has-append sid i (lookup_or [] g m) in
            let apart : eqb sid i ≡ false = elim (Bool-cases (eqb sid i)) [
              | inl q ↦
                  let same : sid ≡ i = ground arith in
                  let e' : arrives kv conf sid ≡ true = rw same e in absurd (ground arith)
              | inr q ↦ q
            ] in
            let new : has sid l ≡ false = ground (arith, n, unlisted-lookup sid g m h) in
            rw e (unlisted-insert sid g l m h new)
        | inr e ↦ rw e h
      ])

fetch_all-others :
    (answers : ℕ → List (Option TransferReply)) (sid : ℕ) (all : Assoc ℕ (List ℕ))
    (acc acc' : Store × PrevReq)
    → fetch_all answers all acc ≡ some acc'
    → sid < length acc.0
    → listed sid all ≡ false
    → shard acc'.0 sid ≡ shard acc.0 sid
unfolding fetch_all
fetch_all-others answers sid [] acc acc' h n l =
    let same : acc ≡ acc' = ground arith in ap (λ (a : Store × PrevReq). shard a.0 sid) (sym same)
fetch_all-others answers sid ((g, sids) ∷ all) (store, prev) acc' h n l =
    elim (Option-cases (first_ok (answers g))) [
      | inl e ↦ absurd (ground arith)
      | inr (r, e) ↦
          let next = take_shards sids r store in
          fetch_all-others answers sid all (next, merge_prev r.prev prev) acc' (rw e at h)
            (omega (arith, n, length-take_shards sids r store)) (ground arith)
          ∙ take_shards-others sids r store sid n (ground arith)
    ]

change_op-others :
    (kv : ShardKv) (conf : Config) (answers : ℕ → List (Option TransferReply)) (op : Op) (sid : ℕ)
    → get_change_op kv conf answers ≡ some op
    → sid < n_shards
    → arrives kv conf sid ≡ false
    → shard op.store sid ≡ []
unfolding get_change_op shards_to_transfer
change_op-others kv conf answers op sid h n a =
    let all = collect kv conf (range n_shards) [] in
    elim (Option-cases (fetch_all answers all (empty_store, []))) [
      | inl e ↦ absurd (ground arith)
      | inr (acc, e) ↦
          let s : op.store ≡ acc.0 = ground arith in
          ap (λ (x : Store). shard x sid) s
          ∙ fetch_all-others answers sid all (empty_store, []) acc e n
              (collect-unlisted kv conf sid (range n_shards) [] a refl)
          ∙ shard-replicate n_shards sid
    ]

-- A change of the configuration leaves each other shard alone: when `getChangeOp` succeeds for a
-- configuration and its operation is applied, in a group with all ten shards in its store, then a
-- shard that does not arrive is what it was, whatever the other groups answered.
pub change_keeps_others :
    (kv : ShardKv) (conf : Config) (answers : ℕ → List (Option TransferReply)) (op : Op) (sid : ℕ)
    → get_change_op kv conf answers ≡ some op
    → length kv.store ≡ n_shards
    → sid < n_shards
    → arrives kv conf sid ≡ false
    → shard (apply kv op).0.store sid ≡ shard kv.store sid
unfolding apply apply_change copy_map
change_keeps_others kv conf answers op sid h len n a =
    let (command, config, size) = change_op-fields kv conf answers op h in
    let s : shard (copy_stores op.store kv.store) sid
        ≡ copy_map (shard op.store sid) (shard kv.store sid) =
      shard-copy_stores op.store kv.store sid (size ∙ sym len) in
    let kept : copy_map (shard op.store sid) (shard kv.store sid) ≡ shard kv.store sid =
      ap (λ (m : Assoc _ _). copy_map m (shard kv.store sid))
        (change_op-others kv conf answers op sid h n a) in
    ground (arith, s, kept)
