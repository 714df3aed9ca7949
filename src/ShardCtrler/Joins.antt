-- ===== src/ShardCtrler/Joins.antt =====
-- a3b-sharding/shardctrler/server.go: a Join ends, and leaves the shards evenly spread.
use omni_paxos_kv.Prelude.{
  nat_eq, ℕ, zero, suc, ◌+◌, ◌≤◌, ◌<◌, ◌≡◌, ◌≢◌, ◌⊎◌, refl, ap, ◌∙◌, inl, inr, true, none, some,
  List, [], ◌∷◌, ◌++◌, append_assoc, append-nil, arith, eqb, if◌then◌else◌, length, length-append,
  lookup, lookup_or, lookup-insert, insert, get_elem?, get_elem?-append_self, Assoc,
}
use omni_paxos_kv.ShardCtrler.Types.{
  Config, ControllerCommand, Result, ShardCtrler, Owners, n_shards,
}
use omni_paxos_kv.ShardCtrler.Balance.{size_of, done, balance}
use omni_paxos_kv.ShardCtrler.Balance.Sizes.{
  has_key, has_key-insert, total, total-insert, size_of-insert, measure_bound,
}
use omni_paxos_kv.ShardCtrler.Balance.Ends.{count, count-append, owns, IsEven, balance-IsEven}
use omni_paxos_kv.ShardCtrler.Apply.{
  get_conf, append_conf, result_of, add_servers, add_shards, finish_join, apply_join,
}
use omni_paxos_kv.ShardCtrler.History.{IsNumbered, num-add_servers}

-- The lists of the groups while the shards are put under their owners.
record Placed (all : Owners) (shards : List ℕ) : Type 0 where
  all_counted : total all ≡ length shards
  placed : (g i : ℕ) → count i (lookup_or [] g all) ≡ (if owns shards i g then 1 else 0)
  counted : (g : ℕ) → size_of all g ≡ count g shards

get_elem?-snoc :
    (xs : List ℕ) (x i : ℕ)
    → get_elem? (xs ++ x ∷ []) i ≡ (if eqb (length xs) i then some x else get_elem? xs i)
get_elem?-snoc [] x zero = refl
get_elem?-snoc [] x (suc i) = ground arith
get_elem?-snoc (y ∷ xs) x zero = ground arith
get_elem?-snoc (y ∷ xs) x (suc i) = ground (arith, get_elem?-snoc xs x i)

get_elem?_beyond : (xs : List ℕ) → get_elem? xs (length xs) ≡ none
get_elem?_beyond [] = refl
get_elem?_beyond (x ∷ xs) = get_elem?_beyond xs

one_more-Placed :
    (all : Owners) (pre : List ℕ) (gid : ℕ)
    → Placed all pre
    → Placed (insert gid (lookup_or [] gid all ++ length pre ∷ []) all) (pre ++ gid ∷ [])
one_more-Placed all pre gid v =
    let i = length pre in
    let l = lookup_or [] gid all ++ i ∷ [] in
    let size : length l ≡ size_of all gid + 1 = length-append (lookup_or [] gid all) (i ∷ []) in
    record {
      all_counted =
          omega (arith, total-insert gid l all, size, length-append pre (gid ∷ []), v.all_counted);
      placed = λ g j. ground (
        arith,
        lookup-insert gid g l all,
        count-append j i (lookup_or [] gid all),
        v.placed g j,
        get_elem?-snoc pre gid j,
        get_elem?_beyond pre,
      );
      counted = λ g.
          ground (arith, size_of-insert gid g l all, size, v.counted g, count-append g gid pre);
    }

add_shards-Placed :
    (all : Owners) (pre rest : List ℕ)
    → Placed all pre
    → Placed (add_shards (length pre) rest all) (pre ++ rest)
unfolding add_shards
add_shards-Placed all pre [] v = rw append-nil v
add_shards-Placed all pre (gid ∷ rest) v =
    let next =
      add_shards-Placed (insert gid (lookup_or [] gid all ++ length pre ∷ []) all) (pre ++ gid ∷ [])
        rest (one_more-Placed all pre gid v) in
    let size : length (pre ++ gid ∷ []) ≡ length pre + 1 = length-append pre (gid ∷ []) in
    rw (size, append_assoc) at next

has_key-add_shards :
    (i : ℕ) (shards : List ℕ) (all : Owners) (k : ℕ)
    → (has_key k all ≡ true) ⊎ (0 < count k shards)
    → has_key k (add_shards i shards all) ≡ true
unfolding add_shards
has_key-add_shards i [] all k (inl h) = h
has_key-add_shards i [] all k (inr h) = absurd (omega (arith, h))
has_key-add_shards i (gid ∷ shards) all k h =
    let l = lookup_or [] gid all ++ i ∷ [] in
    has_key-add_shards (i + 1) shards (insert gid l all) k
      (ground (arith, has_key-insert k gid l all, h))

pub shards-add_servers :
    (servers : Assoc ℕ (List (List ℕ))) (c : Config) (all : Owners)
    → (add_servers servers c all).0.shards ≡ c.shards
unfolding add_servers
shards-add_servers [] c all = refl
shards-add_servers ((gid, names) ∷ servers) c all =
    shards-add_servers servers (record c { groups = insert gid names c.groups }) (insert gid [] all)

has_key-add_servers :
    (servers : Assoc ℕ (List (List ℕ))) (c : Config) (all : Owners) (k : ℕ)
    → (has_key k servers ≡ true) ⊎ (has_key k all ≡ true)
    → has_key k (add_servers servers c all).1 ≡ true
unfolding add_servers
has_key-add_servers [] c all k (inl h) = absurd (ground arith)
has_key-add_servers [] c all k (inr h) = h
has_key-add_servers ((gid, names) ∷ servers) c all k h =
    has_key-add_servers servers (record c { groups = insert gid names c.groups })
      (insert gid [] all) k (ground (arith, has_key-insert k gid [] all, h))

-- Groups that join have no shards yet.
add_servers-Placed :
    (servers : Assoc ℕ (List (List ℕ))) (c : Config) (all : Owners)
    → Placed all []
    → Placed (add_servers servers c all).1 []
unfolding add_servers
add_servers-Placed [] c all v = v
add_servers-Placed ((gid, names) ∷ servers) c all v =
    add_servers-Placed servers (record c { groups = insert gid names c.groups }) (insert gid [] all)
      (record {
        all_counted = omega (arith, total-insert gid [] all, v.all_counted);
        placed = λ g j. ground (arith, lookup-insert gid g [] all, v.placed g j);
        counted = λ g. ground (arith, size_of-insert gid g [] all, v.counted g);
      })

all_groups-Placed :
    (op : ControllerCommand) (c : Config)
    → Placed (add_shards 0 c.shards (add_servers op.servers c []).1) c.shards
unfolding lookup
all_groups-Placed op c = add_shards-Placed (add_servers op.servers c []).1 [] c.shards (
    add_servers-Placed op.servers c []
      (record { all_counted = refl; placed = λ g i. refl; counted = λ g. refl }))

pub append_conf-latest :
    (op : ControllerCommand) (c : Config) (sc : ShardCtrler)
    → length sc.all_confs ≡ sc.cur_num
    → append_conf op c sc ≡ some (record sc { all_confs = sc.all_confs ++ c ∷ [] }, result_of op c)
unfolding append_conf
append_conf-latest op c sc h =
    ground
      (arith, ap (get_elem? (sc.all_confs ++ c ∷ [])) h, get_elem?-append_self sc.all_confs [] c)

-- The groups that share the shards of a Join: those that join, and those that have shards.
abbrev pub TakesPart : ControllerCommand → Config → ℕ → Type 0
TakesPart op c g = (g ≢ 0) × ((has_key g op.servers ≡ true) ⊎ (0 < count g c.shards))

balanced :
    (fuel : ℕ) (op : ControllerCommand) (c : Config) (k : ℕ)
    → length c.shards ≡ n_shards
    → has_key k op.servers ≡ true
    → k ≢ 0
    → 220 < fuel
    → let all = add_shards 0 c.shards (add_servers op.servers c []).1 in
      (all' : Owners) × (shards' : List ℕ) × (balance fuel all c.shards 1 ≡ done all' shards')
      × (length shards' ≡ length c.shards)
      × IsEven shards' all
balanced fuel op c k ten h n enough =
    let joined = (add_servers op.servers c []).1 in
    let all = add_shards 0 c.shards joined in
    let v = all_groups-Placed op c in
    let few : total all ≤ 10 = omega (arith, v.all_counted, ten) in
    balance-IsEven fuel all all c.shards k
      (record {
        few = few;
        some_shard = omega (arith, ten);
        placed = v.placed;
        counted = v.counted;
      })
      (λ g q. q)
      (has_key-add_shards 0 c.shards joined k (inl (has_key-add_servers op.servers c [] k (inl h))))
      n (omega (arith, measure_bound all few, enough))

takes_part-has_key :
    (op : ControllerCommand) (c : Config) (g : ℕ)
    → (has_key g op.servers ≡ true) ⊎ (0 < count g c.shards)
    → has_key g (add_shards 0 c.shards (add_servers op.servers c []).1) ≡ true
takes_part-has_key op c g (inl h) =
    has_key-add_shards 0 c.shards _ g (inl (has_key-add_servers op.servers c [] g (inl h)))
takes_part-has_key op c g (inr h) = has_key-add_shards 0 c.shards _ g (inr h)

-- A Join of at least one group, in a controller whose configurations are numbered in order and whose
-- current one has all ten shards, ends without a panic, with 221 calls of `balance` or fewer. The
-- next configuration has ten shards, each with a group, and any two of the groups that join or had
-- shards before differ by at most one in the number of their shards.
pub join_balances :
    (fuel : ℕ) (op : ControllerCommand) (sc : ShardCtrler) (c : Config) (k : ℕ)
    → IsNumbered sc
    → get_elem? sc.all_confs sc.cur_num ≡ some c
    → length c.shards ≡ n_shards
    → has_key k op.servers ≡ true
    → k ≢ 0
    → 220 < fuel
    → (sc' : ShardCtrler) × (r : Result) × (apply_join fuel op sc ≡ some (sc', r))
      × (r.config.num ≡ sc.cur_num + 1)
      × (length r.config.shards ≡ n_shards)
      × (count 0 r.config.shards ≡ 0)
      × ((g h : ℕ)
          → TakesPart op c g
          → TakesPart op c h
          → count g r.config.shards ≤ count h r.config.shards + 1)
unfolding apply_join get_conf finish_join
join_balances fuel op sc c k v now ten h n enough =
    let c₁ : Config = record { num = sc.cur_num + 1; shards = c.shards; groups = c.groups } in
    let c₂ = (add_servers op.servers c₁ []).0 in
    let same : c₂.shards ≡ c.shards = shards-add_servers op.servers c₁ [] in
    let (all', shards', b, size, even) = balanced fuel op c₁ k ten h n enough in
    let c₃ = record c₂ { shards = shards' } in
    let sc₁ = record sc { cur_num = sc.cur_num + 1 } in
    let last = append_conf-latest op c₃ sc₁ v.current in
    (
      record sc₁ { all_confs = sc₁.all_confs ++ c₃ ∷ [] },
      result_of op c₃,
      rw (now, same, b) last,
      num-add_servers op.servers c₁ [],
      size ∙ ten,
      even.no_zero,
      λ g i p q.
          even.close g i (takes_part-has_key op c₁ g p.1) (takes_part-has_key op c₁ i q.1) p.0 q.0,
    )
