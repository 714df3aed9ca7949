-- ===== src/ShardCtrler/Queries.antt =====
-- What a query finds, and what a repeated request gets.
use omni_paxos_kv.Prelude.{
  int_eq, ℕ, zero, suc, ◌+◌, ◌≤◌, ◌≡◌, ◌⊎◌, refl, sym, ◌∙◌, inl, inr, Bool, false, ◌||◌, Option,
  none, some, List, [], ◌∷◌, arith, ltb, if◌then◌else◌, Option-cases, Bool-cases, length, get_elem?,
  get_elem?-some, range', range'-zero, ℤ, pos, negsuc, ◌<ℤ◌, ◌+ℤ◌, eqb_ℤ, ltb_ℤ, lookup, lookup_or,
  lookup-insert_self,
}
use omni_paxos_kv.ShardCtrler.Types.{
  Config, ControllerCommand, Result, zero_config, zero_result, ShardCtrler,
}
use omni_paxos_kv.ShardCtrler.Apply.{apply_query, result_of, dispatch, apply_command}
use omni_paxos_kv.ShardCtrler.Propose.{propose, query_command}
use omni_paxos_kv.ShardCtrler.Clerk.{Clerk, ask}
use omni_paxos_kv.ShardCtrler.History.{IsNumbered, nums}

pub numbered_from :
    (k i : ℕ) (confs : List Config) (c : Config)
    → nums confs ≡ range' k (length confs)
    → get_elem? confs i ≡ some c
    → c.num ≡ k + i
numbered_from k i [] c h e = cc
numbered_from k zero (x ∷ xs) c h e = ground arith
numbered_from k (suc i) (x ∷ xs) c h e =
    let rest : nums xs ≡ range' (k + 1) (length xs) = ground arith in
    omega (arith, numbered_from (k + 1) i xs c rest e)

-- Which configuration a query is for.
abbrev pub wanted : ShardCtrler → ControllerCommand → ℕ
wanted sc op = elim op.num [
  | pos n ↦ if ltb sc.cur_num n then sc.cur_num else n
  | negsuc n ↦ sc.cur_num
]

asked_for :
    (op : ControllerCommand) (sc : ShardCtrler)
    → (op.num ≡ negsuc 0) ⊎ ((n : ℕ) × (op.num ≡ pos n))
    → (if eqb_ℤ op.num (negsuc 0) || ltb_ℤ (pos sc.cur_num) op.num then pos sc.cur_num else op.num)
      ≡ pos (wanted sc op)
asked_for op sc (inl e) = ground arith
asked_for op sc (inr (n, e)) = ground arith

-- A query for a number from 0 on, or for -1, never panics. It leaves the controller as it is and
-- finds the configuration with that number, or the latest one for -1 and for a number that is too
-- large.
pub query_finds :
    (op : ControllerCommand) (sc : ShardCtrler)
    → IsNumbered sc
    → (op.num ≡ negsuc 0) ⊎ ((n : ℕ) × (op.num ≡ pos n))
    → (c : Config) × (apply_query op sc ≡ some (sc, result_of op c))
      × (c.num ≡ wanted sc op)
      × (wanted sc op ≤ sc.cur_num)
unfolding apply_query
query_finds op sc v ok =
    let le : wanted sc op ≤ sc.cur_num = elim ok [
      | inl e ↦ ground arith
      | inr (n, e) ↦ ground arith
    ] in
    let (c, e) = get_elem?-some sc.all_confs (wanted sc op) (omega (arith, v.current)) in
    let from : nums sc.all_confs ≡ range' 0 (length sc.all_confs) =
      v.numbers ∙ sym (range'-zero (length sc.all_confs)) in
    (
      c,
      rw (asked_for op sc ok) (rw e refl),
      omega (arith, numbered_from 0 (wanted sc op) sc.all_confs c from e),
      le,
    )

-- A request whose number is not above the last applied one of its client changes nothing when it is
-- applied, and its result holds the empty configuration.
pub old_request_ignored :
    (fuel : ℕ) (c : ControllerCommand) (sc : ShardCtrler)
    → ltb_ℤ (lookup_or (pos 0) c.client_id sc.prev_req) c.req_id ≡ false
    → apply_command fuel c sc
      ≡ some (sc, record zero_result { request_id = c.req_id; client_id = c.client_id })
unfolding apply_command
old_request_ignored fuel c sc old = ground arith

query_remembered :
    (fuel : ℕ) (client request num : ℤ) (sc sc' : ShardCtrler) (r : Result)
    → pos 0 <ℤ request
    → apply_command fuel (query_command client request num) sc ≡ some (sc', r)
    → (prev : ℤ) × (lookup client sc'.prev_req ≡ some prev) × (ltb_ℤ prev request ≡ false)
unfolding apply_command dispatch apply_query query_command
query_remembered fuel client request num sc sc' r high h =
    elim (Bool-cases (ltb_ℤ (lookup_or (pos 0) client sc.prev_req) request)) [
      | inl e ↦
          (request, ground (arith, lookup-insert_self client request sc.prev_req), ground arith)
      | inr e ↦ elim (Option-cases (lookup client sc.prev_req)) [
        | inl gone ↦ absurd (ground arith)
        | inr (prev, there) ↦ (prev, ground arith, ground arith)
      ]
    ]

-- A clerk whose query, with a number above 0, was applied, and whose answer was lost, asks again
-- and is told, without an error, the empty configuration, whatever configurations there are.
pub repeated_query_empty :
    (fuel : ℕ) (ck : Clerk) (num : ℤ) (sc sc' : ShardCtrler) (r : Result) (is_leader : Bool)
    (received : Option Result)
    → pos 0 <ℤ ck.request_id
    → apply_command fuel (query_command ck.client_id ck.request_id num) sc ≡ some (sc', r)
    → let again = propose (query_command ck.client_id ck.request_id num) sc' is_leader received in
      ask ck (none ∷ some again ∷ [])
      ≡ some (record ck { request_id = ck.request_id +ℤ pos 1 }, zero_config)
unfolding propose ask
repeated_query_empty fuel ck num sc sc' r is_leader received high h =
    let (prev, there, old) = query_remembered fuel ck.client_id ck.request_id num sc sc' r high h in
    let again : propose (query_command ck.client_id ck.request_id num) sc' is_leader received
        ≡ zero_result =
      unfold query_command in rw (there, old) refl in
    rw again refl
