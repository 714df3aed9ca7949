-- ===== src/ShardCtrler/Leaves.antt =====
-- a3b-sharding/shardctrler/server.go: a Leave gives the shards of the groups that leave to others.
use omni_paxos_kv.Prelude.{
  nat_eq, ℕ, zero, suc, ◌+◌, ◌≤◌, ◌<◌, ◌≡◌, ◌≢◌, refl, subst, inl, inr, true, false, not, ◌||◌,
  ◌&&◌, some, List, [], ◌∷◌, ◌++◌, arith, eqb, Bool-cases, length, length-append, lookup, lookup_or,
  insert, erase, get_elem?, Assoc,
}
use omni_paxos_kv.ShardCtrler.Types.{
  Config, ControllerCommand, Result, ShardCtrler, Owners, n_shards,
}
use omni_paxos_kv.ShardCtrler.Balance.{size_of, min_group, max_uint32}
use omni_paxos_kv.ShardCtrler.Balance.Sizes.{has_key, has_key-insert, size_of-insert}
use omni_paxos_kv.ShardCtrler.Balance.Extremes.{member, min_group-smallest, min_group-has_key}
use omni_paxos_kv.ShardCtrler.Apply.{
  get_conf, result_of, erase_all, shards_of, remaining, remove, reassign, assing_to_min,
  apply_leave,
}
use omni_paxos_kv.ShardCtrler.History.{IsNumbered}
use omni_paxos_kv.ShardCtrler.Joins.{append_conf-latest}

has_key-erase :
    (j k : ℕ) (groups : Assoc ℕ (List (List ℕ)))
    → has_key j (erase k groups) ≡ (not (eqb k j) && has_key j groups)
unfolding erase
has_key-erase j k [] = ground arith
has_key-erase j k ((i, v) ∷ groups) = ground (arith, has_key-erase j k groups)

has_key-erase_all :
    (j : ℕ) (gids : List ℕ) (groups : Assoc ℕ (List (List ℕ)))
    → has_key j (erase_all gids groups) ≡ (not (member j gids) && has_key j groups)
unfolding erase_all
has_key-erase_all j [] groups = ground arith
has_key-erase_all j (gid ∷ gids) groups =
    ground (arith, has_key-erase_all j gids (erase gid groups), has_key-erase j gid groups)

has_key-remaining :
    (j : ℕ) (groups : Assoc ℕ (List (List ℕ))) (shards : List ℕ) (all : Owners)
    → has_key j (remaining groups shards all) ≡ (has_key j groups || has_key j all)
unfolding remaining
has_key-remaining j [] shards all = ground arith
has_key-remaining j ((gid, v) ∷ groups) shards all =
    let l = shards_of gid 0 shards in
    ground (arith, has_key-remaining j groups shards (insert gid l all), has_key-insert j gid l all)

length-shards_of : (gid i : ℕ) (shards : List ℕ) → length (shards_of gid i shards) ≤ length shards
unfolding shards_of
length-shards_of gid i [] = omega arith
length-shards_of gid i (g ∷ shards) = ground (arith, length-shards_of gid (i + 1) shards)

size_of-remaining :
    (j : ℕ) (groups : Assoc ℕ (List (List ℕ))) (shards : List ℕ) (all : Owners)
    → size_of all j ≤ length shards
    → size_of (remaining groups shards all) j ≤ length shards
unfolding remaining
size_of-remaining j [] shards all h = h
size_of-remaining j ((gid, v) ∷ groups) shards all h =
    let l = shards_of gid 0 shards in
    size_of-remaining j groups shards (insert gid l all)
      (ground (arith, size_of-insert gid j l all, length-shards_of gid 0 shards))

-- The owners while the shards of the groups `gids` are given away: the keys are groups that stay,
-- `k` is one of them, and no group has more than `b` shards.
record Leaving (gids : List ℕ) (groups : Assoc ℕ (List (List ℕ))) (k b : ℕ) (all : Owners)
    : Type 0 where
  stay : (g : ℕ) → has_key g all ≡ true → (member g gids ≡ false) × (has_key g groups ≡ true)
  found : has_key k all ≡ true
  sizes : (g : ℕ) → size_of all g ≤ b

-- The new owner of a shard whose owner leaves.
reassign_kept :
    (i now : ℕ) (gids : List ℕ) (all : Owners)
    → member now gids ≡ false
    → reassign i now gids all ≡ (now, all)
unfolding reassign
reassign_kept i now [] all h = refl
reassign_kept i now (gid ∷ gids) all h = ground (arith, reassign_kept i now gids all)

module _ (gids : List ℕ) (groups : Assoc ℕ (List (List ℕ))) (k : ℕ) (nonzero : k ≢ 0) where
  abbrev given : ℕ → Owners → Owners
  given i all = insert (min_group all) (lookup_or [] (min_group all) all ++ i ∷ []) all

  smallest_stays :
      (b : ℕ) (all : Owners)
      → Leaving gids groups k b all
      → b < max_uint32
      → (min_group all ≢ 0)
        × (member (min_group all) gids ≡ false)
        × (has_key (min_group all) groups ≡ true)
  smallest_stays b all v lt =
      let (n, _) = min_group-smallest all k v.found nonzero (omega (arith, v.sizes k, lt)) in
      elim (min_group-has_key all) [
        | inl e ↦ absurd (n e)
        | inr e ↦ let (a, c) = v.stay (min_group all) e in (n, a, c)
      ]

  given-Leaving :
      (i b : ℕ) (all : Owners)
      → Leaving gids groups k b all
      → b < max_uint32
      → Leaving gids groups k (b + 1) (given i all)
  given-Leaving i b all v lt =
      let min = min_group all in
      let l = lookup_or [] min all ++ i ∷ [] in
      let (n, a, c) = smallest_stays b all v lt in
      record {
        stay = λ g h. elim (Bool-cases (eqb min g)) [
          | inl e ↦
              let p : min ≡ g = ground arith in
              (subst (λ x. member x gids ≡ false) p a, subst (λ x. has_key x groups ≡ true) p c)
          | inr e ↦ v.stay g (ground (arith, has_key-insert g min l all))
        ];
        found = ground (arith, has_key-insert k min l all, v.found);
        sizes = λ g. ground (
          arith,
          size_of-insert min g l all,
          v.sizes g,
          v.sizes min,
          length-append (lookup_or [] min all) (i ∷ []),
        );
      }

  reassign_moved :
      (i now b : ℕ) (left : List ℕ) (all : Owners)
      → Leaving gids groups k b all
      → b < max_uint32
      → ((g : ℕ) → member g left ≡ true → member g gids ≡ true)
      → member now left ≡ true
      → reassign i now left all ≡ (min_group all, given i all)
  unfolding reassign
  reassign_moved i now b [] all v lt sub h = absurd (ground arith)
  reassign_moved i now b (gid ∷ left) all v lt sub h =
      let (n, a, c) = smallest_stays b all v lt in
      elim (Bool-cases (eqb gid now)) [
        | inl e ↦
            let out : member (min_group all) left ≡ false =
              ground (arith, sub (min_group all), a) in
            let kept = reassign_kept i (min_group all) left (given i all) out in
            ground (arith, kept, n)
        | inr e ↦
            let sub' = λ (g : ℕ) (q : member g left ≡ true). sub g (ground (arith, q)) in
            ground (arith, reassign_moved i now b left all v lt sub' (ground arith))
      ]

  -- What becomes of the owner of a shard.
  abbrev Follows : ℕ → ℕ → Type 0
  Follows o o' =
      (member o gids ≡ false → o' ≡ o)
      × (member o gids ≡ true → (o' ≢ 0) × (member o' gids ≡ false) × (has_key o' groups ≡ true))

  assing_to_min-Follows :
      (i b : ℕ) (shards : List ℕ) (all : Owners) (j o : ℕ)
      → Leaving gids groups k b all
      → b + length shards < max_uint32
      → get_elem? shards j ≡ some o
      → (o' : ℕ) × (get_elem? (assing_to_min i gids shards all) j ≡ some o') × Follows o o'
  unfolding assing_to_min
  assing_to_min-Follows i b [] all j o v lt h = absurd (ground arith)
  assing_to_min-Follows i b (now ∷ shards) all zero o v lt h = elim (Bool-cases (member now gids)) [
    | inl e ↦
        let (n, a, c) = smallest_stays b all v (omega (arith, lt)) in
        let r = reassign_moved i now b gids all v (omega (arith, lt)) (λ g q. q) e in
        (min_group all, rw r refl, ((λ q. ground arith), λ q. (n, a, c)))
    | inr e ↦
        let r = reassign_kept i now gids all e in
        (now, rw r refl, ((λ q. ground arith), λ q. absurd (ground arith)))
  ]
  assing_to_min-Follows i b (now ∷ shards) all (suc j) o v lt h =
      elim (Bool-cases (member now gids)) [
        | inl e ↦
            let r = reassign_moved i now b gids all v (omega (arith, lt)) (λ g q. q) e in
            rw r (
              assing_to_min-Follows (i + 1) (b + 1) shards (given i all) j o
                (given-Leaving i b all v (omega (arith, lt))) (omega (arith, lt)) h)
        | inr e ↦
            let r = reassign_kept i now gids all e in
            rw r (assing_to_min-Follows (i + 1) b shards all j o v (omega (arith, lt)) h)
      ]

no_owners :
    (groups : Assoc ℕ (List (List ℕ))) (shards : List ℕ) (g : ℕ)
    → size_of (remaining groups shards []) g ≤ length shards
unfolding lookup
no_owners groups shards g = size_of-remaining g groups shards [] (omega arith)

remaining-Leaving :
    (gids : List ℕ) (groups : Assoc ℕ (List (List ℕ))) (shards : List ℕ) (k : ℕ)
    → has_key k groups ≡ true
    → member k gids ≡ false
    → Leaving gids groups k (length shards) (remaining (erase_all gids groups) shards [])
remaining-Leaving gids groups shards k h out =
    let left = erase_all gids groups in
    record {
      stay = λ g q.
          let a = has_key-remaining g left shards [] in
          let b = has_key-erase_all g gids groups in (ground (arith, a, b), ground (arith, a, b));
      found = ground (arith, has_key-remaining k left shards [], has_key-erase_all k gids groups);
      sizes = no_owners left shards;
    }

-- A Leave after which a group `k` is left, in a controller whose configurations are numbered in
-- order and whose current one has all ten shards, ends without a panic. The next configuration gives
-- each shard of a group that leaves to a group that was there and stays, and leaves every other
-- shard where it was.
pub leave_reassigns :
    (op : ControllerCommand) (sc : ShardCtrler) (c : Config) (k : ℕ)
    → IsNumbered sc
    → get_elem? sc.all_confs sc.cur_num ≡ some c
    → length c.shards ≡ n_shards
    → has_key k c.groups ≡ true
    → member k op.gids ≡ false
    → k ≢ 0
    → (sc' : ShardCtrler) × (r : Result) × (apply_leave op sc ≡ some (sc', r))
      × (r.config.num ≡ sc.cur_num + 1)
      × ((i o : ℕ)
          → get_elem? c.shards i ≡ some o
          → (o' : ℕ) × (get_elem? r.config.shards i ≡ some o')
            × (member o op.gids ≡ false → o' ≡ o)
            × (member o op.gids ≡ true
                → (o' ≢ 0) × (member o' op.gids ≡ false) × (has_key o' c.groups ≡ true)))
unfolding apply_leave get_conf remove
leave_reassigns op sc c k v now ten h out n =
    let left = erase_all op.gids c.groups in
    let all = remaining left c.shards [] in
    let shards' = assing_to_min 0 op.gids c.shards all in
    let c' : Config = record { num = sc.cur_num + 1; shards = shards'; groups = left } in
    let sc₁ = record sc { cur_num = sc.cur_num + 1 } in
    (
      record sc₁ { all_confs = sc₁.all_confs ++ c' ∷ [] },
      result_of op c',
      rw now (append_conf-latest op c' sc₁ v.current),
      refl,
      λ i o e.
          let (o', p, (q, r)) =
            assing_to_min-Follows op.gids c.groups k n 0 (length c.shards) c.shards all i o
              (remaining-Leaving op.gids c.groups c.shards k h out) (omega (arith, ten)) e in
          (o', p, q, r),
    )
