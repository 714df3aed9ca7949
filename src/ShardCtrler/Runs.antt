-- ===== src/ShardCtrler/Runs.antt =====
-- a3b-sharding/shardctrler/server.go: what holds after every run of `applyCommands`.
use omni_paxos_kv.Prelude.{
  nat_eq, int_eq, ℕ, zero, suc, ◌+◌, ◌≡◌, refl, ap, subst, ◌∙◌, inl, inr, Option, none, some, List,
  [], ◌∷◌, ◌++◌, ◌>>=◌, arith, Option-cases, Bool-cases, length, store_at, length-store_at,
  get_elem?, ℤ, pos, negsuc, ltb_ℤ, lookup_or, insert,
}
use omni_paxos_kv.ShardCtrler.Types.{
  Config, Kind, ControllerCommand, Result, ShardCtrler, Owners, n_shards, start_server,
}
use omni_paxos_kv.ShardCtrler.Balance.{Balanced, done, panics, unfinished, balance}
use omni_paxos_kv.ShardCtrler.Balance.Lengths.{Keeps, balance-Keeps}
use omni_paxos_kv.ShardCtrler.Apply.{
  get_conf, result_of, append_conf, add_servers, add_shards, finish_join, remove, reassign,
  assing_to_min, apply_join, apply_leave, apply_move, apply_query, conf_at, dispatch, apply_command,
}
use omni_paxos_kv.ShardCtrler.History.{IsNumbered, apply_command-Extends, start_server-IsNumbered}
use omni_paxos_kv.ShardCtrler.Joins.{shards-add_servers}

-- The commands in the order in which they come; `none` where one does not come back.
unfoldable pub apply_commands : ℕ → List ControllerCommand → ShardCtrler → Option ShardCtrler
apply_commands fuel [] sc = some sc
apply_commands fuel (c ∷ cs) sc = do (sc', _) ← apply_command fuel c sc; apply_commands fuel cs sc'

abbrev pub AllTen : List Config → Type 0
AllTen [] = Unit
AllTen (c ∷ confs) = (length c.shards ≡ n_shards) × AllTen confs

AllTen-append :
    (confs : List Config) (c : Config)
    → AllTen confs
    → length c.shards ≡ n_shards
    → AllTen (confs ++ c ∷ [])
AllTen-append [] c h e = (e, tt)
AllTen-append (x ∷ confs) c (a, h) e = (a, AllTen-append confs c h e)

AllTen-get :
    (confs : List Config) (i : ℕ) (c : Config)
    → AllTen confs
    → get_elem? confs i ≡ some c
    → length c.shards ≡ n_shards
AllTen-get [] i c h e = absurd (ground arith)
AllTen-get (x ∷ confs) zero c (a, h) e = ground arith
AllTen-get (x ∷ confs) (suc i) c (a, h) e = AllTen-get confs i c h e

abbrev Ten : Option (ShardCtrler × Result) → Type 0
Ten none = Unit
Ten (some (sc, _)) = AllTen sc.all_confs

append_conf-Ten :
    (op : ControllerCommand) (c : Config) (sc : ShardCtrler)
    → AllTen sc.all_confs
    → length c.shards ≡ n_shards
    → Ten (append_conf op c sc)
unfolding append_conf
append_conf-Ten op c sc h e = elim (Option-cases (get_elem? (sc.all_confs ++ c ∷ []) sc.cur_num)) [
  | inl q ↦ rw q tt
  | inr (latest, q) ↦ rw q (AllTen-append sc.all_confs c h e)
]

finish_join-Ten :
    (op : ControllerCommand) (c : Config) (sc : ShardCtrler) (b : Balanced)
    → AllTen sc.all_confs
    → length c.shards ≡ n_shards
    → Keeps c.shards b
    → Ten (finish_join op c sc b)
unfolding finish_join
finish_join-Ten op c sc (done all shards) h e k =
    append_conf-Ten op (record c { shards = shards }) sc h (k ∙ e)
finish_join-Ten op c sc panics h e k = tt
finish_join-Ten op c sc unfinished h e k = tt

apply_join-Ten :
    (fuel : ℕ) (op : ControllerCommand) (sc : ShardCtrler)
    → AllTen sc.all_confs
    → Ten (apply_join fuel op sc)
unfolding apply_join get_conf
apply_join-Ten fuel op sc h = elim (Option-cases (get_elem? sc.all_confs sc.cur_num)) [
  | inl q ↦ rw q tt
  | inr (old, q) ↦
      let c : Config = record { num = sc.cur_num + 1; shards = old.shards; groups = old.groups } in
      let c' = (add_servers op.servers c []).0 in
      let all = add_shards 0 c'.shards (add_servers op.servers c []).1 in
      let ten : length c'.shards ≡ n_shards =
        ap length (shards-add_servers op.servers c [])
        ∙ AllTen-get sc.all_confs sc.cur_num old h q in
      rw q (
        finish_join-Ten op c' (record sc { cur_num = sc.cur_num + 1 })
          (balance fuel all c'.shards 1) h ten (balance-Keeps fuel all c'.shards 1))
]

length-assing_to_min :
    (i : ℕ) (gids shards : List ℕ) (all : Owners)
    → length (assing_to_min i gids shards all) ≡ length shards
unfolding assing_to_min
length-assing_to_min i gids [] all = refl
length-assing_to_min i gids (now ∷ shards) all =
    ap suc (length-assing_to_min (i + 1) gids shards (reassign i now gids all).1)

apply_leave-Ten :
    (op : ControllerCommand) (sc : ShardCtrler) → AllTen sc.all_confs → Ten (apply_leave op sc)
unfolding apply_leave get_conf remove
apply_leave-Ten op sc h = elim (Option-cases (get_elem? sc.all_confs sc.cur_num)) [
  | inl q ↦ rw q tt
  | inr (old, q) ↦
      let c : Config = record { num = sc.cur_num + 1; shards = old.shards; groups = old.groups } in
      let (c', all) = remove op c in
      rw q (
        append_conf-Ten op (record c' { shards = assing_to_min 0 op.gids c'.shards all })
          (record sc { cur_num = sc.cur_num + 1 }) h
          (length-assing_to_min 0 op.gids old.shards all
            ∙ AllTen-get sc.all_confs sc.cur_num old h q))
]

apply_move-Ten :
    (op : ControllerCommand) (sc : ShardCtrler) → AllTen sc.all_confs → Ten (apply_move op sc)
unfolding apply_move get_conf
apply_move-Ten op sc h = elim (Option-cases (get_elem? sc.all_confs sc.cur_num)) [
  | inl q ↦ rw q tt
  | inr (old, q) ↦ rw q (stored op old sc h (AllTen-get sc.all_confs sc.cur_num old h q) op.shard)
]
  where
    stored :
        (op : ControllerCommand) (old : Config) (sc : ShardCtrler)
        → AllTen sc.all_confs
        → length old.shards ≡ n_shards
        → (shard : ℤ)
        → Ten (do
          shards ← elim shard [ pos i ↦ store_at old.shards i op.gid | negsuc i ↦ none ]
          append_conf op
              (record { num = sc.cur_num + 1; shards = shards; groups = old.groups })
              (record sc { cur_num = sc.cur_num + 1 }))
    stored op old sc h e (pos i) = elim (Option-cases (store_at old.shards i op.gid)) [
      | inl q ↦ rw q tt
      | inr (shards, q) ↦ rw q (
          append_conf-Ten op (record { num = sc.cur_num + 1; shards = shards; groups = old.groups })
            (record sc { cur_num = sc.cur_num + 1 }) h
            (length-store_at old.shards i op.gid shards q ∙ e))
    ]
    stored op old sc h e (negsuc i) = tt

apply_query-Ten :
    (op : ControllerCommand) (sc : ShardCtrler) → AllTen sc.all_confs → Ten (apply_query op sc)
unfolding apply_query
apply_query-Ten op sc h = found (conf_at _ sc.all_confs)
  where
    found : (q : Option Config) → Ten (do c ← q; some (sc, result_of op c))
    found none = tt
    found (some c) = h

dispatch-Ten :
    (fuel : ℕ) (k : Kind) (c : ControllerCommand) (sc : ShardCtrler)
    → AllTen sc.all_confs
    → Ten (dispatch fuel k c sc)
unfolding dispatch
dispatch-Ten fuel Kind.leave c sc h = apply_leave-Ten c sc h
dispatch-Ten fuel Kind.join c sc h = apply_join-Ten fuel c sc h
dispatch-Ten fuel Kind.query c sc h = apply_query-Ten c sc h
dispatch-Ten fuel Kind.move c sc h = apply_move-Ten c sc h
dispatch-Ten fuel Kind.unknown c sc h = tt

apply_command-Ten :
    (fuel : ℕ) (c : ControllerCommand) (sc : ShardCtrler)
    → AllTen sc.all_confs
    → Ten (apply_command fuel c sc)
unfolding apply_command
apply_command-Ten fuel c sc h =
    let sc₁ = record sc { prev_req = insert c.client_id c.req_id sc.prev_req } in
    elim (Bool-cases (ltb_ℤ (lookup_or (pos 0) c.client_id sc.prev_req) c.req_id)) [
      | inl e ↦ rw e (dispatch-Ten fuel c.command c sc₁ h)
      | inr e ↦ rw e h
    ]

runs :
    (fuel : ℕ) (cs : List ControllerCommand) (sc sc' : ShardCtrler)
    → IsNumbered sc
    → AllTen sc.all_confs
    → apply_commands fuel cs sc ≡ some sc'
    → IsNumbered sc' × AllTen sc'.all_confs
unfolding apply_commands
runs fuel [] sc sc' v h e =
    let same : sc ≡ sc' = ground arith in subst (λ s. IsNumbered s × AllTen s.all_confs) same (v, h)
runs fuel (c ∷ cs) sc sc' v h e = elim (Option-cases (apply_command fuel c sc)) [
  | inl q ↦ absurd (ground arith)
  | inr ((sc₁, r), q) ↦
      let ten : AllTen sc₁.all_confs = rw q at (apply_command-Ten fuel c sc h) in
      runs fuel cs sc₁ sc' (apply_command-Extends fuel c sc sc₁ r v q).numbered ten (ground arith)
]

-- After any run of commands from the start, the configurations of the controller are numbered 0, 1
-- and so on, with the current one last, and each of them has ten shards.
pub runs_keep_ten :
    (fuel : ℕ) (cs : List ControllerCommand) (sc : ShardCtrler)
    → apply_commands fuel cs start_server ≡ some sc
    → IsNumbered sc × AllTen sc.all_confs
unfolding start_server
runs_keep_ten fuel cs sc h = runs fuel cs start_server sc start_server-IsNumbered (refl, tt) h
