-- ===== src/KvPaxos/Handlers.antt =====
-- a3-kvpaxos/server.go: the RPC handlers `Get` and `PutAppend`. They propose a command and look at
-- `kv.response` six times; what stands there at each look is an argument, since `readApply` runs
-- beside them.
use omni_paxos_kv.Prelude.{
  list_eq, nat_eq, ℕ, zero, suc, ◌+◌, Bool, true, false, not, ◌&&◌, ◌||◌, none, some, List, [],
  if◌then◌else◌, ◌==◌, get_elem?, ℤ, pos, negsuc, eqb_ℤ,
}
use omni_paxos_kv.KvPaxos.Ids.{Text}
use omni_paxos_kv.KvPaxos.Server.{
  GetArgs, PutAppendArgs, OpKind, put, append, gets, writes, Response,
}

-- `no_error` is the empty text.
pub data Err : Type 0 where
  no_error not_leader try_again timeout : Err

pub record GetReply : Type 0 where
  pub err : Err
  pub value : Text

pub record PutAppendReply : Type 0 where
  pub err : Err

abbrev pub op_beq : OpKind → OpKind → Bool
op_beq put put = true
op_beq put append = false
op_beq append put = false
op_beq append append = true

unfoldable pub get_answer : GetArgs → Response → GetReply
get_answer args r = elim r.command.command [
  | gets c ↦
      if c.key == args.key
      then record { err = no_error; value = r.value }
      else record { err = try_again; value = [] }
  | writes c ↦ record { err = try_again; value = [] }
]

unfoldable pub put_append_answer : PutAppendArgs → Response → PutAppendReply
put_append_answer args r = elim r.command.command [
  | gets c ↦ record { err = try_again }
  | writes c ↦
      if c.key == args.key && c.value == args.value && op_beq c.op args.op
      then record { err = no_error }
      else record { err = try_again }
]

-- The looks that are left, the number of the next one, and what a look finds.
unfoldable pub await {ℓ} : {A : Type ℓ} → (Response → A) → A → (ℕ → List Response) → ℕ → ℕ → ℕ → A
await answer late looks index zero k = late
await answer late looks index (suc left) k =
    let again = await answer late looks index left (k + 1) in
    elim (get_elem? (looks k) index) [ some r ↦ answer r | none ↦ again ]

-- `count` goes up to 5 before the timeout.
abbrev pub look_limit : ℕ
look_limit = 6

-- What `Proposal` returned, with -1 for no index.
abbrev rejected : ℤ → Bool → Bool
rejected index is_leader = eqb_ℤ index (negsuc 0) || not is_leader

abbrev pub place : ℤ → ℕ
place (pos i) = i
place (negsuc i) = 0

unfoldable pub get : GetArgs → ℤ → Bool → (ℕ → List Response) → GetReply
get args index is_leader looks =
    if rejected index is_leader
    then record { err = not_leader; value = [] }
    else await (get_answer args) (record { err = timeout; value = [] }) looks (place index)
        look_limit 0

unfoldable pub put_append : PutAppendArgs → ℤ → Bool → (ℕ → List Response) → PutAppendReply
put_append args index is_leader looks =
    if rejected index is_leader
    then record { err = not_leader }
    else await (put_append_answer args) (record { err = timeout }) looks (place index) look_limit 0
