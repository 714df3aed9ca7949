-- ===== src/ShardKv/Follow.antt =====
-- a3b-sharding: a group follows the configurations of a controller.
use omni_paxos_kv.Prelude.{
  int_eq, ℕ, ◌+◌, ◌≤◌, ◌<◌, ◌≡◌, ◌≢◌, sym, ap, ◌∙◌, Bool, true, Option, none, some, List, arith,
  get_elem?, get_elem?-some, length, pos, range', range'-zero,
}
use omni_paxos_kv.ShardCtrler.Types
use omni_paxos_kv.ShardCtrler.Types.{Config, ControllerCommand, ShardCtrler, zero_config}
use omni_paxos_kv.ShardCtrler.Apply.{apply_query}
use omni_paxos_kv.ShardCtrler.Propose.{query_command}
use omni_paxos_kv.ShardCtrler.History.{IsNumbered, nums}
use omni_paxos_kv.ShardCtrler.Queries.{numbered_from}
use omni_paxos_kv.ShardCtrler.Runs.{apply_commands, runs_keep_ten}
use omni_paxos_kv.ShardKv.Types.{Op, Result, ShardKv, TransferReply, start_server}
use omni_paxos_kv.ShardKv.Apply.{apply}
use omni_paxos_kv.ShardKv.Reconf.{first_ok}
use omni_paxos_kv.ShardKv.CatchUp.{Outside, Undisturbed, catch_up_rounds, catches_up}

-- What a query for a number brings, of a clerk whose request is new.
unfoldable pub query_answer : ShardCtrler → ℕ → Config
query_answer sc n = elim (apply_query (query_command (pos 0) (pos 1) (pos n)) sc) [
  | some (_, r) ↦ r.config
  | none ↦ zero_config
]

query_answer-finds :
    (sc : ShardCtrler) (n : ℕ)
    → IsNumbered sc
    → n ≤ sc.cur_num
    → (get_elem? sc.all_confs n ≡ some (query_answer sc n)) × ((query_answer sc n).num ≡ n)
unfolding query_answer apply_query query_command
query_answer-finds sc n v h =
    let (c, e) = get_elem?-some sc.all_confs n (omega (arith, v.current)) in
    let from : nums sc.all_confs ≡ range' 0 (length sc.all_confs) =
      v.numbers ∙ sym (range'-zero (length sc.all_confs)) in
    let num : c.num ≡ n = omega (arith, numbered_from 0 n sc.all_confs c from e) in
    let found : query_answer sc n ≡ c = ground arith in
    (e ∙ ap some (sym found), ap (λ (x : Config). x.num) found ∙ num)

-- A new group reaches the latest configuration of a controller after any run of commands that made
-- one, in as many rounds of `catchUp` as there are configurations after the first one, when nothing
-- disturbs its leader: all groups answer, and its proposals are decided and applied at once.
pub follows_controller :
    (fuel gid : ℕ) (cs : List ControllerCommand) (sc : ShardCtrler)
    (answers : ℕ → ℕ → List (Option TransferReply))
    (decided : ℕ → ShardKv → Op → Bool × Option Result × ShardKv)
    → apply_commands fuel cs Types.start_server ≡ some sc
    → 0 < sc.cur_num
    → ((i g : ℕ) → first_ok (answers i g) ≢ none)
    → ((i : ℕ) (kv : ShardKv) (op : Op)
        → decided i kv op ≡ (true, some (apply kv op).1, (apply kv op).0))
    → let out : Outside = record {
      query = query_answer sc;
      answers = answers;
      decided = decided;
    } in
      get_elem? sc.all_confs sc.cur_num
      ≡ some (catch_up_rounds out sc.cur_num sc.cur_num (start_server gid)).config
unfolding start_server
follows_controller fuel gid cs sc answers decided run some_made answered applied =
    let v = (runs_keep_ten fuel cs sc run).0 in
    let out : Outside = record { query = query_answer sc; answers = answers; decided = decided } in
    let calm : Undisturbed out sc.cur_num = record {
      numbered = λ n h. (query_answer-finds sc n v h).1;
      answered = answered;
      applied = applied;
    } in
    let (e, _) =
      catches_up out sc.cur_num sc.cur_num (start_server gid) calm some_made (omega arith) in
    let all : sc.cur_num ≡ (start_server gid).config.num + sc.cur_num = omega arith in
    (query_answer-finds sc sc.cur_num v (omega arith)).0
    ∙ ap some (ap (query_answer sc) all ∙ sym e)
