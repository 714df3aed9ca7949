-- ===== src/ShardCtrler/Apply.antt =====
-- a3b-sharding/shardctrler/server.go: applying a decided command. `none` is a panic, a call of
-- `balance` that goes beyond the fuel, or the early return of `applyCommands` on a command that it
-- does not know, after which nothing is applied any more.
use omni_paxos_kv.Prelude.{
  nat_eq, int_eq, ℕ, ◌+◌, not, ◌&&◌, ◌||◌, Option, none, some, List, [], ◌∷◌, ◌++◌, eqb,
  if◌then◌else◌, ◌>>=◌, get_elem?, store_at, ℤ, pos, negsuc, ltb_ℤ, eqb_ℤ, Assoc, lookup_or, insert,
  erase,
}
use omni_paxos_kv.ShardCtrler.Types.{
  Config, Kind, ControllerCommand, Result, no_error, ShardCtrler, Owners, zero_result,
}
use omni_paxos_kv.ShardCtrler.Balance.{min_group, Balanced, done, panics, unfinished, balance}

-- A copy of configuration `num` under the next number; the counter of the controller goes up.
unfoldable pub get_conf : ℕ → ShardCtrler → Option (Config × ShardCtrler)
get_conf num sc = do
  old ← get_elem? sc.all_confs num
  some (
    record { num = num + 1; shards = old.shards; groups = old.groups },
    record sc { cur_num = sc.cur_num + 1 },
  )

abbrev pub result_of : ControllerCommand → Config → Result
result_of op c = record {
  request_id = op.req_id;
  err = no_error;
  config = c;
  client_id = op.client_id;
}

-- The end of each `apply` that makes a configuration.
unfoldable pub append_conf :
    ControllerCommand → Config → ShardCtrler → Option (ShardCtrler × Result)
append_conf op c sc =
    let sc' = record sc { all_confs = sc.all_confs ++ c ∷ [] } in
    do latest ← get_elem? sc'.all_confs sc'.cur_num; some (sc', result_of op latest)

-- the groups that join, with their servers and with no shards yet
unfoldable pub add_servers : Assoc ℕ (List (List ℕ)) → Config → Owners → Config × Owners
add_servers [] c all = (c, all)
add_servers ((gid, names) ∷ servers) c all =
    add_servers servers (record c { groups = insert gid names c.groups }) (insert gid [] all)

-- each shard under its present group
unfoldable pub add_shards : ℕ → List ℕ → Owners → Owners
add_shards i [] all = all
add_shards i (gid ∷ shards) all =
    add_shards (i + 1) shards (insert gid (lookup_or [] gid all ++ i ∷ []) all)

unfoldable pub finish_join :
    ControllerCommand → Config → ShardCtrler → Balanced → Option (ShardCtrler × Result)
finish_join op c sc (done _ shards) = append_conf op (record c { shards = shards }) sc
finish_join op c sc panics = none
finish_join op c sc unfinished = none

unfoldable pub apply_join : ℕ → ControllerCommand → ShardCtrler → Option (ShardCtrler × Result)
apply_join fuel op sc = do
  (c, sc') ← get_conf sc.cur_num sc
  let (c', joined) = add_servers op.servers c []
  let all = add_shards 0 c'.shards joined
  finish_join op c' sc' (balance fuel all c'.shards 1)

unfoldable pub erase_all : List ℕ → Assoc ℕ (List (List ℕ)) → Assoc ℕ (List (List ℕ))
erase_all [] groups = groups
erase_all (gid ∷ gids) groups = erase_all gids (erase gid groups)

-- the indices of the shards that `gid` has
unfoldable pub shards_of : ℕ → ℕ → List ℕ → List ℕ
shards_of gid i [] = []
shards_of gid i (g ∷ shards) =
    let rest = shards_of gid (i + 1) shards in if eqb gid g then i ∷ rest else rest

unfoldable pub remaining : Assoc ℕ (List (List ℕ)) → List ℕ → Owners → Owners
unfolding shards_of
remaining [] shards all = all
remaining ((gid, _) ∷ groups) shards all =
    remaining groups shards (insert gid (shards_of gid 0 shards) all)

unfoldable pub remove : ControllerCommand → Config → Config × Owners
remove op c =
    let c' = record c { groups = erase_all op.gids c.groups } in
    (c', remaining c'.groups c'.shards [])

-- The two loops of `assingToMin`: shard `i`, whose group is `now`, against each group that leaves.
unfoldable pub reassign : ℕ → ℕ → List ℕ → Owners → ℕ × Owners
reassign i now [] all = (now, all)
reassign i now (gid ∷ gids) all =
    let min = min_group all in
    let t = eqb gid now in
    reassign i (if t then min else now) gids
      (if t && not (eqb min 0) then insert min (lookup_or [] min all ++ i ∷ []) all else all)

unfoldable pub assing_to_min : ℕ → List ℕ → List ℕ → Owners → List ℕ
assing_to_min i gids [] all = []
assing_to_min i gids (now ∷ shards) all =
    let (now', all') = reassign i now gids all in now' ∷ assing_to_min (i + 1) gids shards all'

unfoldable pub apply_leave : ControllerCommand → ShardCtrler → Option (ShardCtrler × Result)
apply_leave op sc = do
  (c, sc') ← get_conf sc.cur_num sc
  let (c', all) = remove op c
  append_conf op (record c' { shards = assing_to_min 0 op.gids c'.shards all }) sc'

unfoldable pub apply_move : ControllerCommand → ShardCtrler → Option (ShardCtrler × Result)
apply_move op sc = do
  (c, sc') ← get_conf sc.cur_num sc
  shards ← elim op.shard [ pos i ↦ store_at c.shards i op.gid | negsuc i ↦ none ]
  append_conf op (record c { shards = shards }) sc'

-- `confs[num]`
abbrev pub conf_at : ℤ → List Config → Option Config
conf_at (pos i) confs = get_elem? confs i
conf_at (negsuc i) confs = none

-- `LatestConfigNum` is -1.
unfoldable pub apply_query : ControllerCommand → ShardCtrler → Option (ShardCtrler × Result)
apply_query op sc =
    let num =
      if eqb_ℤ op.num (negsuc 0) || ltb_ℤ (pos sc.cur_num) op.num then pos sc.cur_num else op.num in
    do c ← conf_at num sc.all_confs; some (sc, result_of op c)

unfoldable pub dispatch : ℕ → Kind → ControllerCommand → ShardCtrler → Option (ShardCtrler × Result)
dispatch fuel Kind.leave c sc = apply_leave c sc
dispatch fuel Kind.join c sc = apply_join fuel c sc
dispatch fuel Kind.query c sc = apply_query c sc
dispatch fuel Kind.move c sc = apply_move c sc
dispatch fuel Kind.unknown c sc = none

-- One turn of the loop of `applyCommands`, up to the result for a waiting clerk.
unfoldable pub apply_command : ℕ → ControllerCommand → ShardCtrler → Option (ShardCtrler × Result)
apply_command fuel c sc =
    if ltb_ℤ (lookup_or (pos 0) c.client_id sc.prev_req) c.req_id
    then dispatch fuel c.command c
        (record sc { prev_req = insert c.client_id c.req_id sc.prev_req })
    else some (sc, record zero_result { request_id = c.req_id; client_id = c.client_id })
