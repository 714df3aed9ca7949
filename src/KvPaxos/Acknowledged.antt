-- ===== src/KvPaxos/Acknowledged.antt =====
-- a3-kvpaxos/server.go: how `PutAppend` recognizes a write.
use omni_paxos_kv.Prelude.{
  list_eq, nat_eq, int_eq, ℕ, ◌≡◌, refl, ap, ◌∙◌, true, some, List, [], ◌∷◌, arith, ◌==◌, get_elem?,
  take, pos,
}
use omni_paxos_kv.KvPaxos.Ids.{Text, Clerk, get_id}
use omni_paxos_kv.KvPaxos.Server.{
  OpKind, put, append, PutAppendArgs, writes, KvCommand, KvServer, init, read_apply_all,
}
use omni_paxos_kv.KvPaxos.Handlers.{no_error, op_beq, put_append_answer, await, put_append}
use omni_paxos_kv.KvPaxos.Client.{put_append_loop, clerk_put_append}
use omni_paxos_kv.KvPaxos.Refinement.{History, decided_after, HaveIds}
use omni_paxos_kv.KvPaxos.Looks.{answered, answers_from_found, responses_of}

op_beq_self : (a : OpKind) → op_beq a a ≡ true
op_beq_self put = refl
op_beq_self append = refl

put_append_answer_equal :
    (arg : PutAppendArgs) (id : Text) (older : History) (msg : KvCommand)
    → msg.command ≡ writes arg
    → put_append_answer (record arg { id = id }) (answered older msg) ≡ record { err = no_error }
unfolding put_append_answer
put_append_answer_equal arg id older msg h =
    let key : (arg.key == arg.key) ≡ true = (list_eq.beq_iff arg.key arg.key).1 refl in
    let value : (arg.value == arg.value) ≡ true = (list_eq.beq_iff arg.value arg.value).1 refl in
    rw (h, key, value, op_beq_self arg.op) refl

-- A clerk is told that its write succeeded, whatever its id is, when the index of its proposal went
-- to a write with the same key, value and operation: its own command need not be in the log.
pub equal_write_acknowledged :
    (me i : ℕ) (log : List KvCommand) (kv : KvServer) (msg : KvCommand) (arg : PutAppendArgs)
    (ck : Clerk)
    → HaveIds log
    → read_apply_all (init me) log ≡ some kv
    → get_elem? log i ≡ some msg
    → msg.command ≡ writes arg
    → (clerk_put_append arg.key arg.value arg.op
        (λ args. some (put_append args (pos i) true (λ k. kv.response)) ∷ [])
        ck).1
      ≡ true
unfolding clerk_put_append put_append_loop put_append await
equal_write_acknowledged me i log kv msg arg ck ids run there writes_it =
    let found =
      ap (λ l. get_elem? l i) (responses_of me log kv ids run)
      ∙ answers_from_found [] log i msg there in
    let ok =
      put_append_answer_equal arg (get_id ck).1 (decided_after (take i log) []) msg writes_it in
    let all : put_append (record arg { id = (get_id ck).1 }) (pos i) true (λ k. kv.response)
        ≡ record { err = no_error } =
      ground (arith, found, ok) in
    rw all refl
