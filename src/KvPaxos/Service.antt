-- ===== src/KvPaxos/Service.antt =====
-- a3-kvpaxos: what a clerk is told, through its loop, a server's handler and the applied commands.
use omni_paxos_kv.Prelude.{
  list_eq, nat_eq, int_eq, ℕ, suc, ◌≡◌, ◌⊎◌, refl, ap, ◌∙◌, inl, inr, Bool, true, Option, none,
  some, List, [], ◌∷◌, arith, ◌==◌, get_elem?, take, Bool-cases, ℤ, zero-add,
}
use omni_paxos_kv.KvPaxos.Ids.{Text, Clerk, get_id}
use omni_paxos_kv.KvPaxos.Server.{
  OpKind, put, append, GetArgs, PutAppendArgs, Request, gets, writes, KvCommand, Response,
}
use omni_paxos_kv.KvPaxos.Handlers.{
  timeout, GetReply, PutAppendReply, op_beq, get_answer, put_append_answer, await, place,
  look_limit, get, put_append,
}
use omni_paxos_kv.KvPaxos.Replies.{await_answers}
use omni_paxos_kv.KvPaxos.Client.{is_ok, get_loop, clerk_get, put_append_loop, clerk_put_append}
use omni_paxos_kv.KvPaxos.Refinement.{value_in, decided_after, HaveIds}
use omni_paxos_kv.KvPaxos.Looks.{answered, Sees, Sees-at}

-- The answer of a server's handler for a Get, at whatever index and with whatever looks.
abbrev pub GetFrom : List KvCommand → GetArgs → GetReply → Type 0
GetFrom log args reply =
    (index : ℤ) × (leads : Bool) × (looks : ℕ → List Response) × ((k : ℕ) → Sees log (looks k))
    × (reply ≡ get args index leads looks)

abbrev pub PutAppendFrom : List KvCommand → PutAppendArgs → PutAppendReply → Type 0
PutAppendFrom log args reply =
    (index : ℤ) × (leads : Bool) × (looks : ℕ → List Response) × ((k : ℕ) → Sees log (looks k))
    × (reply ≡ put_append args index leads looks)

-- A Get of `key` that was decided, and the value of the key at its time.
abbrev pub Reads : List KvCommand → Text → Text → Type 0
Reads log key value =
    (i : ℕ) × (msg : KvCommand) × (arg : GetArgs) × (get_elem? log i ≡ some msg)
    × (msg.command ≡ gets arg)
    × (arg.key ≡ key)
    × (value ≡ value_in (decided_after (take i log) []) key)

-- A write that was decided, with the key, the value and the operation of `args`.
abbrev pub Writes : List KvCommand → PutAppendArgs → Type 0
Writes log args =
    (i : ℕ) × (msg : KvCommand) × (arg : PutAppendArgs) × (get_elem? log i ≡ some msg)
    × (msg.command ≡ writes arg)
    × (arg.key ≡ args.key)
    × (arg.value ≡ args.value)
    × (arg.op ≡ args.op)

Request-cases :
    (q : Request) → ((arg : GetArgs) × (q ≡ gets arg)) ⊎ ((arg : PutAppendArgs) × (q ≡ writes arg))
Request-cases (gets arg) = inl (arg, refl)
Request-cases (writes arg) = inr (arg, refl)

get_answer-Reads :
    (log : List KvCommand) (args : GetArgs) (i : ℕ) (r : Response)
    → get_elem? log i ≡ some r.command
    → r ≡ answered (decided_after (take i log) []) r.command
    → is_ok (get_answer args r).err ≡ true
    → Reads log args.key (get_answer args r).value
unfolding get_answer
get_answer-Reads log args i r e v h = elim (Request-cases r.command.command) [
  | inl (arg, q) ↦
      let t : (arg.key == args.key) ≡ true = ground arith in
      let key : arg.key ≡ args.key = (list_eq.beq_iff arg.key args.key).0 t in
      let value : r.value ≡ value_in (decided_after (take i log) []) arg.key =
        ap (λ (x : Response). x.value) v ∙ rw q refl in
      (i, r.command, arg, e, q, key, rw (q, t) (rw key at value))
  | inr (arg, q) ↦ absurd (ground arith)
]

op_beq-eq : (a b : OpKind) → op_beq a b ≡ true → a ≡ b
op_beq-eq put put h = refl
op_beq-eq put append h = absurd (ground arith)
op_beq-eq append put h = absurd (ground arith)
op_beq-eq append append h = refl

put_append_answer-Writes :
    (log : List KvCommand) (args : PutAppendArgs) (i : ℕ) (r : Response)
    → get_elem? log i ≡ some r.command
    → is_ok (put_append_answer args r).err ≡ true
    → Writes log args
unfolding put_append_answer
put_append_answer-Writes log args i r e h = elim (Request-cases r.command.command) [
  | inl (arg, q) ↦ absurd (ground arith)
  | inr (arg, q) ↦
      let key : (arg.key == args.key) ≡ true = ground arith in
      let value : (arg.value == args.value) ≡ true = ground arith in
      (
        i,
        r.command,
        arg,
        e,
        q,
        (list_eq.beq_iff arg.key args.key).0 key,
        (list_eq.beq_iff arg.value args.value).0 value,
        op_beq-eq arg.op args.op (ground arith),
      )
]

get-waits :
    (args : GetArgs) (index : ℤ) (leads : Bool) (looks : ℕ → List Response)
    → is_ok (get args index leads looks).err ≡ true
    → get args index leads looks
      ≡ await
          (get_answer args)
          (record { err = timeout; value = [] })
          looks
          (place index)
          look_limit
          0
unfolding get
get-waits args index leads looks h = ground arith

put_append-waits :
    (args : PutAppendArgs) (index : ℤ) (leads : Bool) (looks : ℕ → List Response)
    → is_ok (put_append args index leads looks).err ≡ true
    → put_append args index leads looks
      ≡ await (put_append_answer args) (record { err = timeout }) looks (place index) look_limit 0
unfolding put_append
put_append-waits args index leads looks h = ground arith

get-Reads :
    (log : List KvCommand) (args : GetArgs) (reply : GetReply)
    → HaveIds log
    → GetFrom log args reply
    → is_ok reply.err ≡ true
    → Reads log args.key reply.value
get-Reads log args reply ids (index, leads, looks, sees, e) h =
    let all = e ∙ get-waits args index leads looks (rw e at h) in
    elim (await_answers (get_answer args) (record { err = timeout; value = [] }) looks (place index)
      look_limit 0) [
        | inl (k, r, lt, found, ans) ↦
            let same : reply ≡ get_answer args r = all ∙ ans in
            let (there, value) =
              Sees-at log (looks k) (place index) r ids (sees k) (rw zero-add at found) in
            rw same (get_answer-Reads log args (place index) r there value (rw same at h))
        | inr (none_found, ans) ↦
            let late : reply ≡ record { err = timeout; value = [] } = all ∙ ans in
            absurd (ground arith)
      ]

put_append-Writes :
    (log : List KvCommand) (args : PutAppendArgs) (reply : PutAppendReply)
    → HaveIds log
    → PutAppendFrom log args reply
    → is_ok reply.err ≡ true
    → Writes log args
put_append-Writes log args reply ids (index, leads, looks, sees, e) h =
    let all = e ∙ put_append-waits args index leads looks (rw e at h) in
    elim (await_answers (put_append_answer args) (record { err = timeout }) looks (place index)
      look_limit 0) [
        | inl (k, r, lt, found, ans) ↦
            let same : reply ≡ put_append_answer args r = all ∙ ans in
            let (there, _) =
              Sees-at log (looks k) (place index) r ids (sees k) (rw zero-add at found) in
            put_append_answer-Writes log args (place index) r there (rw same at h)
        | inr (none_found, ans) ↦
            let late : reply ≡ record { err = timeout } = all ∙ ans in absurd (ground arith)
      ]

get_loop-found :
    (calls : List (Option GetReply)) (value : Text)
    → get_loop calls ≡ some value
    → (j : ℕ) × (reply : GetReply) × (get_elem? calls j ≡ some (some reply))
      × (is_ok reply.err ≡ true)
      × (reply.value ≡ value)
unfolding get_loop
get_loop-found [] value h = absurd (ground arith)
get_loop-found (none ∷ calls) value h =
    let (j, reply, e, f, g) = get_loop-found calls value h in (suc j, reply, e, f, g)
get_loop-found (some reply ∷ calls) value h = elim (Bool-cases (is_ok reply.err)) [
  | inl e ↦ (0, reply, refl, e, ground arith)
  | inr e ↦ let (j, r, f, g, k) = get_loop-found calls value (ground arith) in (suc j, r, f, g, k)
]

put_append_loop-found :
    (calls : List (Option PutAppendReply))
    → put_append_loop calls ≡ true
    → (j : ℕ) × (reply : PutAppendReply) × (get_elem? calls j ≡ some (some reply))
      × (is_ok reply.err ≡ true)
unfolding put_append_loop
put_append_loop-found [] h = absurd (ground arith)
put_append_loop-found (none ∷ calls) h =
    let (j, reply, e, f) = put_append_loop-found calls h in (suc j, reply, e, f)
put_append_loop-found (some reply ∷ calls) h = elim (Bool-cases (is_ok reply.err)) [
  | inl e ↦ (0, reply, refl, e)
  | inr e ↦ let (j, r, f, g) = put_append_loop-found calls (ground arith) in (suc j, r, f, g)
]

-- A clerk's Get that comes back tells the value that its key had in the service when a Get of this
-- key was decided, if each answer it got came from the handler of a server whose looks find the
-- responses to some first commands of one log of commands with ids.
pub clerk_get-Reads :
    (log : List KvCommand) (key : Text) (calls : GetArgs → List (Option GetReply)) (ck : Clerk)
    (value : Text)
    → HaveIds log
    → ((args : GetArgs) (j : ℕ) (reply : GetReply)
        → get_elem? (calls args) j ≡ some (some reply)
        → GetFrom log args reply)
    → (clerk_get key calls ck).1 ≡ some value
    → Reads log key value
unfolding clerk_get
clerk_get-Reads log key calls ck value ids from h =
    let args : GetArgs = record { key = key; id = (get_id ck).1 } in
    let (j, reply, e, good, v) = get_loop-found (calls args) value h in
    rw v at (get-Reads log args reply ids (from args j reply e) good)

-- A clerk's PutAppend that comes back was told so because a write with its key, value and operation
-- was decided, under the same conditions.
pub clerk_put_append-Writes :
    (log : List KvCommand) (key value : Text) (op : OpKind)
    (calls : PutAppendArgs → List (Option PutAppendReply)) (ck : Clerk)
    → HaveIds log
    → ((args : PutAppendArgs) (j : ℕ) (reply : PutAppendReply)
        → get_elem? (calls args) j ≡ some (some reply)
        → PutAppendFrom log args reply)
    → (clerk_put_append key value op calls ck).1 ≡ true
    → Writes log (record { key = key; value = value; op = op; id = (get_id ck).1 })
unfolding clerk_put_append
clerk_put_append-Writes log key value op calls ck ids from h =
    let args : PutAppendArgs = record { key = key; value = value; op = op; id = (get_id ck).1 } in
    let (j, reply, e, good) = put_append_loop-found (calls args) h in
    put_append-Writes log args reply ids (from args j reply e) good
