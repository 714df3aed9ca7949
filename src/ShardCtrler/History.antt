-- ===== src/ShardCtrler/History.antt =====
-- The history of configurations: how each command extends it, and what a query finds.
use omni_paxos_kv.Prelude.{
  nat_eq, int_eq, ℕ, suc, ◌+◌, ◌≡◌, ◌⊎◌, refl, ◌∙◌, inl, inr, Option, none, some, List, [], ◌∷◌,
  ◌++◌, ◌||◌, eqb_ℤ, arith, if◌then◌else◌, ◌>>=◌, Option-cases, Bool-cases, length, length-append,
  map, map-append, range, pos, negsuc, Assoc, ltb_ℤ, lookup_or, insert,
}
use omni_paxos_kv.ShardCtrler.Types.{
  Config, Kind, ControllerCommand, Result, ShardCtrler, Owners, start_server,
}
use omni_paxos_kv.ShardCtrler.Balance.{Balanced, done, panics, unfinished}
use omni_paxos_kv.ShardCtrler.Apply.{
  get_conf, append_conf, add_servers, finish_join, remove, apply_join, apply_leave, apply_move,
  apply_query, conf_at, dispatch, apply_command,
}

abbrev pub nums : List Config → List ℕ
nums = map (λ c. c.num)

-- The configurations are numbered 0, 1, and so on, and the last one is the current one.
pub record IsNumbered (sc : ShardCtrler) : Type 0 where
  pub numbers : nums sc.all_confs ≡ range (length sc.all_confs)
  pub current : length sc.all_confs ≡ sc.cur_num + 1

-- `sc'` has the history of `sc`, with at most one more configuration.
pub record Extends (sc sc' : ShardCtrler) : Type 0 where
  pub numbered : IsNumbered sc'
  pub history :
      (sc'.all_confs ≡ sc.all_confs) ⊎ ((c : Config) × (sc'.all_confs ≡ sc.all_confs ++ c ∷ []))

pub start_server-IsNumbered : IsNumbered start_server
unfolding start_server
start_server-IsNumbered = record { numbers = refl; current = refl }

pub get_conf-some :
    (n : ℕ) (sc sc' : ShardCtrler) (c : Config)
    → get_conf n sc ≡ some (c, sc')
    → (c.num ≡ n + 1) × (sc'.all_confs ≡ sc.all_confs) × (sc'.cur_num ≡ sc.cur_num + 1)
unfolding get_conf
get_conf-some n sc sc' c h = ground arith

append_conf-Extends :
    (op : ControllerCommand) (c : Config) (sc sc' sc'' : ShardCtrler) (r : Result)
    → IsNumbered sc
    → sc'.all_confs ≡ sc.all_confs
    → sc'.cur_num ≡ sc.cur_num + 1
    → c.num ≡ sc.cur_num + 1
    → append_conf op c sc' ≡ some (sc'', r)
    → Extends sc sc''
unfolding append_conf
append_conf-Extends op c sc sc' sc'' r v same up num h =
    let confs : sc''.all_confs ≡ sc.all_confs ++ c ∷ [] = ground arith in
    let cur : sc''.cur_num ≡ sc.cur_num + 1 = ground arith in
    let n = length sc.all_confs in
    let size : length (sc.all_confs ++ c ∷ []) ≡ suc n =
      omega (arith, length-append sc.all_confs (c ∷ [])) in
    let last : c.num ≡ n = omega (arith, v.current) in
    record {
      numbered = record {
        numbers = rw (confs, size, map-append, v.numbers, last);
        current = rw (confs, size, cur) (omega (arith, v.current));
      };
      history = inr (c, confs);
    }

-- What is said of the state that a command leaves, if it does not panic.
abbrev Ends : ShardCtrler → Option (ShardCtrler × Result) → Type 0
Ends sc none = Unit
Ends sc (some (sc', r)) = Extends sc sc'

append_conf-Ends :
    (op : ControllerCommand) (c : Config) (sc sc' : ShardCtrler)
    → IsNumbered sc
    → sc'.all_confs ≡ sc.all_confs
    → sc'.cur_num ≡ sc.cur_num + 1
    → c.num ≡ sc.cur_num + 1
    → Ends sc (append_conf op c sc')
append_conf-Ends op c sc sc' v same up num = elim (Option-cases (append_conf op c sc')) [
  | inl e ↦ rw e tt
  | inr ((sc'', r), e) ↦ rw e (append_conf-Extends op c sc sc' sc'' r v same up num e)
]

with_shards :
    (op : ControllerCommand) (c : Config) (sc sc' : ShardCtrler) (shards : Option (List ℕ))
    → IsNumbered sc
    → sc'.all_confs ≡ sc.all_confs
    → sc'.cur_num ≡ sc.cur_num + 1
    → c.num ≡ sc.cur_num + 1
    → Ends sc (shards >>= λ xs. append_conf op (record c { shards = xs }) sc')
with_shards op c sc sc' none v same up num = tt
with_shards op c sc sc' (some xs) v same up num =
    append_conf-Ends op (record c { shards = xs }) sc sc' v same up num

pub num-add_servers :
    (servers : Assoc ℕ (List (List ℕ))) (c : Config) (all : Owners)
    → (add_servers servers c all).0.num ≡ c.num
unfolding add_servers
num-add_servers [] c all = refl
num-add_servers ((gid, names) ∷ servers) c all =
    num-add_servers servers (record c { groups = insert gid names c.groups }) (insert gid [] all)

finish_join-Ends :
    (op : ControllerCommand) (c : Config) (sc sc' : ShardCtrler) (b : Balanced)
    → IsNumbered sc
    → sc'.all_confs ≡ sc.all_confs
    → sc'.cur_num ≡ sc.cur_num + 1
    → c.num ≡ sc.cur_num + 1
    → Ends sc (finish_join op c sc' b)
unfolding finish_join
finish_join-Ends op c sc sc' (done all shards) v same up num =
    append_conf-Ends op (record c { shards = shards }) sc sc' v same up num
finish_join-Ends op c sc sc' panics v same up num = tt
finish_join-Ends op c sc sc' unfinished v same up num = tt

apply_join-Ends :
    (fuel : ℕ) (op : ControllerCommand) (sc : ShardCtrler)
    → IsNumbered sc
    → Ends sc (apply_join fuel op sc)
unfolding apply_join
apply_join-Ends fuel op sc v = elim (Option-cases (get_conf sc.cur_num sc)) [
  | inl e ↦ rw e tt
  | inr ((c, sc'), e) ↦
      let (num, same, up) = get_conf-some sc.cur_num sc sc' c e in
      rw e (
        finish_join-Ends op (add_servers op.servers c []).0 sc sc' _ v same up
          (num-add_servers op.servers c [] ∙ num))
]

apply_leave-Ends :
    (op : ControllerCommand) (sc : ShardCtrler) → IsNumbered sc → Ends sc (apply_leave op sc)
unfolding apply_leave remove
apply_leave-Ends op sc v = elim (Option-cases (get_conf sc.cur_num sc)) [
  | inl e ↦ rw e tt
  | inr ((c, sc'), e) ↦
      let (num, same, up) = get_conf-some sc.cur_num sc sc' c e in
      rw e (append_conf-Ends op _ sc sc' v same up num)
]

apply_move-Ends :
    (op : ControllerCommand) (sc : ShardCtrler) → IsNumbered sc → Ends sc (apply_move op sc)
unfolding apply_move
apply_move-Ends op sc v = elim (Option-cases (get_conf sc.cur_num sc)) [
  | inl e ↦ rw e tt
  | inr ((c, sc'), e) ↦
      let (num, same, up) = get_conf-some sc.cur_num sc sc' c e in
      rw e (with_shards op c sc sc' _ v same up num)
]

apply_query-Ends :
    (op : ControllerCommand) (sc : ShardCtrler) → IsNumbered sc → Ends sc (apply_query op sc)
unfolding apply_query
apply_query-Ends op sc v =
    let latest = eqb_ℤ op.num (negsuc 0) || ltb_ℤ (pos sc.cur_num) op.num in
    elim (Option-cases (conf_at (if latest then pos sc.cur_num else op.num) sc.all_confs)) [
      | inl e ↦ rw e tt
      | inr (c, e) ↦ rw e (record { numbered = v; history = inl refl })
    ]

dispatch-Ends :
    (fuel : ℕ) (k : Kind) (c : ControllerCommand) (sc : ShardCtrler)
    → IsNumbered sc
    → Ends sc (dispatch fuel k c sc)
unfolding dispatch
dispatch-Ends fuel Kind.leave c sc v = apply_leave-Ends c sc v
dispatch-Ends fuel Kind.join c sc v = apply_join-Ends fuel c sc v
dispatch-Ends fuel Kind.query c sc v = apply_query-Ends c sc v
dispatch-Ends fuel Kind.move c sc v = apply_move-Ends c sc v
dispatch-Ends fuel Kind.unknown c sc v = tt

Ends-same :
    (s t : ShardCtrler) (o : Option (ShardCtrler × Result))
    → t.all_confs ≡ s.all_confs
    → Ends t o
    → Ends s o
Ends-same s t none e h = tt
Ends-same s t (some (q, r)) e h = record { numbered = h.numbered; history = rw (← e) h.history }

-- When a command is applied with a result to a controller whose configurations are numbered 0, 1
-- and so on, with the current one last, they are so afterwards, and no configuration that is there
-- changes: at most one is added.
pub apply_command-Extends :
    (fuel : ℕ) (c : ControllerCommand) (sc sc' : ShardCtrler) (r : Result)
    → IsNumbered sc
    → apply_command fuel c sc ≡ some (sc', r)
    → Extends sc sc'
unfolding apply_command
apply_command-Extends fuel c sc sc' r v h =
    let sc₁ = record sc { prev_req = insert c.client_id c.req_id sc.prev_req } in
    let v₁ : IsNumbered sc₁ = record { numbers = v.numbers; current = v.current } in
    elim (Bool-cases (ltb_ℤ (lookup_or (pos 0) c.client_id sc.prev_req) c.req_id)) [
      | inl e ↦
          let step : dispatch fuel c.command c sc₁ ≡ some (sc', r) = ground arith in
          rw step at (
            Ends-same sc sc₁ (dispatch fuel c.command c sc₁) refl
              (dispatch-Ends fuel c.command c sc₁ v₁))
      | inr e ↦
          let same : sc ≡ sc' = ground arith in
          rw (← same) (record { numbered = v; history = inl refl })
    ]
