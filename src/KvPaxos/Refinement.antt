-- ===== src/KvPaxos/Refinement.antt =====
-- a3-kvpaxos/server.go as a service: what clients get is a function of the order of decided
-- commands alone, which knows no table of requests and no map.
use omni_paxos_kv.Prelude.{
  list_eq, nat_eq, int_eq, ℕ, ◌≡◌, refl, ap, inl, inr, Bool, false, not, ◌&&◌, ◌||◌, none, some,
  List, [], ◌∷◌, ◌++◌, arith, if◌then◌else◌, ◌==◌, ltb_ℤ, Bool-cases, ℤ, pos, lookup, lookup-insert,
}
use omni_paxos_kv.KvPaxos.Ids.{Text, parse_id}
use omni_paxos_kv.KvPaxos.Server.{
  PutAppendArgs, put, append, Request, gets, writes, KvCommand, Response, KvServer, init, is_new,
  apply_get, apply_put_append, read_apply, read_apply_all,
}
use omni_paxos_kv.KvPaxos.Replies.{value_of, value_after, id_of, applied}

-- The commands so far, the newest one first.
abbrev pub History : Type 0
History = List KvCommand

-- A request number is fresh if it is positive and above all numbers of its client so far.
abbrev pub fresh : History → ℤ → ℤ → Bool
fresh [] cid n = ltb_ℤ (pos 0) n
fresh (msg ∷ older) cid n = elim (parse_id (id_of msg.command)) [
  | some (c, m) ↦ (not (c == cid) || ltb_ℤ m n) && fresh older cid n
  | none ↦ fresh older cid n
]

abbrev pub is_fresh : History → KvCommand → Bool
is_fresh older msg = elim (parse_id (id_of msg.command)) [
  | some (c, m) ↦ fresh older c m
  | none ↦ false
]

-- The value of a key: fresh Puts replace it, and fresh Appends extend it.
abbrev pub value_in : History → Text → Text
value_in [] key = []
value_in (msg ∷ older) key = elim msg.command [
  | gets arg ↦ value_in older key
  | writes arg ↦
      if is_fresh older msg && (arg.key == key)
      then elim arg.op [ put ↦ arg.value | append ↦ value_in older key ++ arg.value ]
      else value_in older key
]

-- The answers in the order of the commands: a Get is answered with the value at its time.
abbrev pub answers_in : History → List Response
answers_in [] = []
answers_in (msg ∷ older) =
    answers_in older
    ++ record {
      command = msg;
      value = elim msg.command [ gets arg ↦ value_in older arg.key | writes arg ↦ [] ];
    }
      ∷ []

-- The server's state stands for a history.
pub record Stands (older : History) (kv : KvServer) : Type 0 where
  pub values : (key : Text) → value_of kv key ≡ value_in older key
  pub numbers : (cid n : ℤ) → is_new kv cid n ≡ fresh older cid n
  pub answers : kv.response ≡ answers_in older

init-Stands : (me : ℕ) → Stands [] (init me)
unfolding lookup
init-Stands me = record { values = λ key. refl; numbers = λ cid n. refl; answers = refl }

numbers_after :
    (older : History) (kv : KvServer) (msg : KvCommand) (r : Request) (c m cid n : ℤ)
    → Stands older kv
    → is_new (applied kv msg r c m) cid n ≡ ((not (c == cid) || ltb_ℤ m n) && fresh older cid n)
unfolding apply_get apply_put_append
numbers_after older kv msg (gets arg) c m cid n v =
    ground (arith, v.numbers cid n, lookup-insert c cid m kv.seq, int_eq.beq_iff c cid)
numbers_after older kv msg (writes arg) c m cid n v =
    ground (arith, v.numbers cid n, lookup-insert c cid m kv.seq, int_eq.beq_iff c cid)

fresh_after :
    (older : History) (msg : KvCommand) (c m cid n : ℤ)
    → parse_id (id_of msg.command) ≡ some (c, m)
    → fresh (msg ∷ older) cid n ≡ ((not (c == cid) || ltb_ℤ m n) && fresh older cid n)
fresh_after older msg c m cid n p = ground arith

values_after :
    (older : History) (kv : KvServer) (msg : KvCommand) (arg : PutAppendArgs) (c m : ℤ) (key : Text)
    → Stands older kv
    → msg.command ≡ writes arg
    → parse_id (id_of msg.command) ≡ some (c, m)
    → value_of (apply_put_append kv msg arg c m) key ≡ value_in (msg ∷ older) key
unfolding apply_put_append
values_after older kv msg arg c m key v e p =
    let f : is_fresh older msg ≡ is_new kv c m = ground (arith, v.numbers c m) in
    let a = value_after arg kv.m key in
    elim (Bool-cases (arg.key == key)) [
      | inl t ↦
          let same : value_in older arg.key ≡ value_in older key =
            ap (value_in older) ((list_eq.beq_iff arg.key key).0 t) in
          ground (arith, f, a, same, v.values arg.key, v.values key)
      | inr t ↦ ground (arith, f, a, v.values key)
    ]

applied-Stands :
    (older : History) (kv : KvServer) (msg : KvCommand) (r : Request) (c m : ℤ)
    → Stands older kv
    → msg.command ≡ r
    → parse_id (id_of msg.command) ≡ some (c, m)
    → Stands (msg ∷ older) (applied kv msg r c m)
unfolding apply_get apply_put_append
applied-Stands older kv msg (gets arg) c m v e p = record {
  values = λ key. ground (arith, v.values key);
  numbers = λ cid n.
      rw (fresh_after older msg c m cid n p) (numbers_after older kv msg (gets arg) c m cid n v);
  answers = ground (arith, v.answers, v.values arg.key);
}
applied-Stands older kv msg (writes arg) c m v e p = record {
  values = λ key. values_after older kv msg arg c m key v e p;
  numbers = λ cid n.
      rw (fresh_after older msg c m cid n p) (numbers_after older kv msg (writes arg) c m cid n v);
  answers = ground (arith, v.answers);
}

-- The commands `msgs`, decided after those of `older`.
abbrev pub decided_after : List KvCommand → History → History
decided_after [] older = older
decided_after (msg ∷ msgs) older = decided_after msgs (msg ∷ older)

-- Each command carries an id that a clerk may have made.
abbrev pub HaveIds : List KvCommand → Type 0
HaveIds [] = Unit
HaveIds (msg ∷ msgs) = ((p : ℤ × ℤ) × (parse_id (id_of msg.command) ≡ some p)) × HaveIds msgs

read_apply-reads :
    (kv : KvServer) (msg : KvCommand) (c m : ℤ)
    → parse_id (id_of msg.command) ≡ some (c, m)
    → read_apply kv msg ≡ some (applied kv msg msg.command c m)
unfolding read_apply
read_apply-reads kv msg c m p = ground arith

read_apply_all-Stands :
    (older : History) (kv : KvServer) (msgs : List KvCommand)
    → HaveIds msgs
    → Stands older kv
    → (kv' : KvServer) × (read_apply_all kv msgs ≡ some kv') × Stands (decided_after msgs older) kv'
unfolding read_apply_all
read_apply_all-Stands older kv [] ids v = (kv, refl, v)
read_apply_all-Stands older kv (msg ∷ msgs) (((c, m), p), ids) v =
    let kv₁ = applied kv msg msg.command c m in
    let (kv', e, w) =
      read_apply_all-Stands (msg ∷ older) kv₁ msgs ids
        (applied-Stands older kv msg msg.command c m v refl p) in
    (kv', rw (read_apply-reads kv msg c m p) e, w)

-- A server that applies decided commands with ids never panics, and implements the service: after
-- them each key has the value that the fresh writes give it, a request number is new exactly if it
-- is fresh, and there is one answer for each command, for a Get the value of its key at its time.
pub server_refines_service :
    (me : ℕ) (msgs : List KvCommand)
    → HaveIds msgs
    → (kv : KvServer) × (read_apply_all (init me) msgs ≡ some kv)
      × Stands (decided_after msgs []) kv
server_refines_service me msgs ids = read_apply_all-Stands [] (init me) msgs ids (init-Stands me)
