-- ===== src/KvPaxos/Replies.antt =====
-- What the clients of the service see: writes happen once, reads see the writes before them, and
-- every replica gives the same answers.
use omni_paxos_kv.Prelude.{
  list_eq, nat_eq, int_eq, ℕ, zero, suc, ◌+◌, ◌<◌, ◌≡◌, ◌⊎◌, refl, ap, ◌∙◌, inl, inr, true, false,
  none, some, List, [], ◌∷◌, ◌++◌, append_assoc, append-nil, map, arith, if◌then◌else◌, ◌==◌,
  Option-cases, length, add-zero, zero-add, get_elem?, ℤ, pos, lookup_or, lookup-insert,
  lookup-insert_self, get_elem?-append_self, Assoc,
}
use omni_paxos_kv.KvPaxos.Ids.{Text, parse_id}
use omni_paxos_kv.KvPaxos.Server.{
  GetArgs, PutAppendArgs, put, append, Request, gets, writes, KvCommand, Response, KvServer, is_new,
  write, apply_get, apply_put_append, read_apply, read_apply_all,
}
use omni_paxos_kv.KvPaxos.Handlers.{GetReply, timeout, await, get_answer, get}

-- The value of a key, with the empty text for a missing one.
abbrev pub value_of : KvServer → Text → Text
value_of kv key = lookup_or [] key kv.m

pub value_after :
    (arg : PutAppendArgs) (m : Assoc Text Text) (key : Text)
    → lookup_or [] key (write arg.op arg.key arg.value m) ≡ (
        if arg.key == key
        then elim arg.op [ put ↦ arg.value | append ↦ lookup_or [] arg.key m ++ arg.value ]
        else lookup_or [] key m)
unfolding write
value_after arg m key = ground (
  arith,
  lookup-insert arg.key key arg.value m,
  lookup-insert arg.key key (lookup_or [] arg.key m ++ arg.value) m,
)

-- A write whose number is above its client's last one changes the value of its own key, as Put and
-- Append say, and of no other; the client's last number is then that of the write.
pub new_write_applied :
    (kv : KvServer) (msg : KvCommand) (arg : PutAppendArgs) (cid seq_no : ℤ) (key : Text)
    → is_new kv cid seq_no ≡ true
    → let kv' = apply_put_append kv msg arg cid seq_no in
      (value_of kv' key ≡ (
        if arg.key == key
        then elim arg.op [ put ↦ arg.value | append ↦ value_of kv arg.key ++ arg.value ]
        else value_of kv key))
      × (is_new kv' cid seq_no ≡ false)
unfolding apply_put_append
new_write_applied kv msg arg cid seq_no key new =
    ground (arith, value_after arg kv.m key, lookup-insert_self cid seq_no kv.seq)

-- The id that a command carries, and what the command does once the id is read.
abbrev pub id_of : Request → Text
id_of (gets arg) = arg.id
id_of (writes arg) = arg.id

abbrev pub applied : KvServer → KvCommand → Request → ℤ → ℤ → KvServer
applied kv msg (gets arg) cid seq_no = apply_get kv msg arg cid seq_no
applied kv msg (writes arg) cid seq_no = apply_put_append kv msg arg cid seq_no

pub read_apply-some :
    (kv kv' : KvServer) (msg : KvCommand)
    → read_apply kv msg ≡ some kv'
    → (cid : ℤ) × (seq_no : ℤ) × (parse_id (id_of msg.command) ≡ some (cid, seq_no))
      × (kv' ≡ applied kv msg msg.command cid seq_no)
unfolding read_apply
read_apply-some kv kv' msg h = elim (Option-cases (parse_id (id_of msg.command))) [
  | inl e ↦ absurd (ground arith)
  | inr ((cid, seq_no), e) ↦ (cid, seq_no, e, ground arith)
]

-- A number that is old stays old.
applied_old :
    (kv : KvServer) (msg : KvCommand) (r : Request) (cid seq_no cid' seq_no' : ℤ)
    → is_new kv cid seq_no ≡ false
    → is_new (applied kv msg r cid' seq_no') cid seq_no ≡ false
unfolding apply_get apply_put_append
applied_old kv msg (gets arg) cid n cid' n' old =
    ground (arith, lookup-insert cid' cid n' kv.seq, int_eq.beq_iff cid' cid)
applied_old kv msg (writes arg) cid n cid' n' old =
    ground (arith, lookup-insert cid' cid n' kv.seq, int_eq.beq_iff cid' cid)

read_apply_all-old :
    (kv kv' : KvServer) (msgs : List KvCommand) (cid seq_no : ℤ)
    → is_new kv cid seq_no ≡ false
    → read_apply_all kv msgs ≡ some kv'
    → is_new kv' cid seq_no ≡ false
unfolding read_apply_all
read_apply_all-old kv kv' [] cid n old h = ground arith
read_apply_all-old kv kv' (msg ∷ msgs) cid n old h = elim (Option-cases (read_apply kv msg)) [
  | inl e ↦ ground arith
  | inr (q, e) ↦
      let (cid', n', _, same) = read_apply-some kv q msg e in
      read_apply_all-old q kv' msgs cid n
        (rw same (applied_old kv msg msg.command cid n cid' n' old)) (ground arith)
]

-- Its own number is old as soon as a command is applied.
applied_once :
    (kv : KvServer) (msg : KvCommand) (r : Request) (cid seq_no : ℤ)
    → is_new (applied kv msg r cid seq_no) cid seq_no ≡ false
unfolding apply_get apply_put_append
applied_once kv msg (gets arg) cid n = ground (arith, lookup-insert_self cid n kv.seq)
applied_once kv msg (writes arg) cid n = ground (arith, lookup-insert_self cid n kv.seq)

applied_again :
    (kv : KvServer) (msg : KvCommand) (r : Request) (cid seq_no : ℤ)
    → is_new kv cid seq_no ≡ false
    → ((applied kv msg r cid seq_no).m ≡ kv.m) × ((applied kv msg r cid seq_no).seq ≡ kv.seq)
unfolding apply_get apply_put_append
applied_again kv msg (gets arg) cid n old = ground arith
applied_again kv msg (writes arg) cid n old = ground arith

-- What a command makes of the value of a key: a Get leaves it, a Put or Append changes its own key's.
abbrev pub effect : Request → KvServer → Text → Text
effect (gets arg) kv key = value_of kv key
effect (writes arg) kv key =
    if arg.key == key
    then elim arg.op [ put ↦ arg.value | append ↦ value_of kv arg.key ++ arg.value ]
    else value_of kv key

applied-effect :
    (kv : KvServer) (msg : KvCommand) (r : Request) (cid seq_no : ℤ) (key : Text)
    → value_of (applied kv msg r cid seq_no) key
      ≡ (if is_new kv cid seq_no then effect r kv key else value_of kv key)
unfolding apply_get apply_put_append
applied-effect kv msg (gets arg) cid n key = ground arith
applied-effect kv msg (writes arg) cid n key = ground (arith, value_after arg kv.m key)

-- A command that is decided twice takes effect at its first application at most: there it has its
-- effect on the value of every key if its number is above its client's last one, and none otherwise;
-- whatever is applied between the two applications, the second one leaves all values and all
-- clients' numbers as they are.
pub applied_exactly_once :
    (kv first later last : KvServer) (msg : KvCommand) (between : List KvCommand)
    → read_apply kv msg ≡ some first
    → read_apply_all first between ≡ some later
    → read_apply later msg ≡ some last
    → (cid : ℤ) × (seq_no : ℤ) × (parse_id (id_of msg.command) ≡ some (cid, seq_no))
      × ((key : Text)
          → value_of first key
            ≡ (if is_new kv cid seq_no then effect msg.command kv key else value_of kv key))
      × (last.m ≡ later.m)
      × (last.seq ≡ later.seq)
applied_exactly_once kv first later last msg between h₁ h₂ h₃ =
    let (cid, n, p, e) = read_apply-some kv first msg h₁ in
    let (cid', n', p', e') = read_apply-some later last msg h₃ in
    let same : (cid ≡ cid') × (n ≡ n') = ground arith in
    let old : is_new first cid n ≡ false = rw e (applied_once kv msg msg.command cid n) in
    let still : is_new later cid n ≡ false = read_apply_all-old first later between cid n old h₂ in
    let still' : is_new later cid' n' ≡ false = rw (← same.0, ← same.1) still in
    let (values, numbers) = applied_again later msg msg.command cid' n' still' in
    (
      cid,
      n,
      p,
      λ key. ap (λ q. value_of q key) e ∙ applied-effect kv msg msg.command cid n key,
      ap (λ (q : KvServer). q.m) e' ∙ values,
      ap (λ (q : KvServer). q.seq) e' ∙ numbers,
    )

response-applied :
    (kv : KvServer) (msg : KvCommand) (r : Request) (cid seq_no : ℤ)
    → (v : Text) × ((applied kv msg r cid seq_no).response
        ≡ kv.response ++ record { command = msg; value = v } ∷ [])
unfolding apply_get apply_put_append
response-applied kv msg (gets arg) cid n = (lookup_or [] arg.key kv.m, refl)
response-applied kv msg (writes arg) cid n = ([], ground arith)

-- Applying more commands adds an answer for each of them, in order, and changes no answer that is
-- there.
pub answers_agree :
    (kv kv' : KvServer) (msgs : List KvCommand)
    → read_apply_all kv msgs ≡ some kv'
    → (more : List Response) × (kv'.response ≡ kv.response ++ more)
      × (map (λ r. r.command) more ≡ msgs)
unfolding read_apply_all
answers_agree kv kv' [] h = ([], ground (arith, append-nil kv.response), refl)
answers_agree kv kv' (msg ∷ msgs) h = elim (Option-cases (read_apply kv msg)) [
  | inl e ↦ absurd (ground arith)
  | inr (q, e) ↦
      let (cid, n, _, same) = read_apply-some kv q msg e in
      let (v, one) = response-applied kv msg msg.command cid n in
      let (more, rest, names) = answers_agree q kv' msgs (ground arith) in
      let r : Response = record { command = msg; value = v } in
      let here : q.response ≡ kv.response ++ r ∷ [] = rw same one in
      (r ∷ more, rw (rest, here, append_assoc), ap (◌∷◌ msg) names)
]

-- A read sees the writes before it: a `Get` that is applied gets the value that its key has then.
pub get_reads_value :
    (kv kv' : KvServer) (msg : KvCommand) (arg : GetArgs)
    → msg.command ≡ gets arg
    → read_apply kv msg ≡ some kv'
    → (get_elem? kv'.response (length kv.response)
        ≡ some (record { command = msg; value = value_of kv arg.key }))
      × (kv'.m ≡ kv.m)
unfolding read_apply apply_get
get_reads_value kv kv' msg arg is_get h = elim (Option-cases (parse_id arg.id)) [
  | inl e ↦ absurd (ground arith)
  | inr ((cid, n), e) ↦
      let r : Response = record { command = msg; value = value_of kv arg.key } in
      ground (arith, get_elem?-append_self kv.response [] r)
]

shift : (k i : ℕ) → k + suc i ≡ k + 1 + i
shift k i = omega arith

missed :
    (looks : ℕ → List Response) (index left k : ℕ)
    → get_elem? (looks k) index ≡ none
    → ((i : ℕ) → i < left → get_elem? (looks (k + 1 + i)) index ≡ none)
    → (i : ℕ) → i < suc left
    → get_elem? (looks (k + i)) index ≡ none
missed looks index left k e all zero lt = rw add-zero e
missed looks index left k e all (suc i) lt = rw (shift k i) (all i (omega arith))

-- The wait ends with an answer exactly when one of the looks that are left finds the entry.
pub await_answers {ℓ} :
    {A : Type ℓ} (answer : Response → A) (late : A) (looks : ℕ → List Response) (index left k : ℕ)
    → ((i : ℕ) × (r : Response) × (i < left)
        × (get_elem? (looks (k + i)) index ≡ some r)
        × (await answer late looks index left k ≡ answer r))
      ⊎ (((i : ℕ) → i < left → get_elem? (looks (k + i)) index ≡ none)
          × (await answer late looks index left k ≡ late))
unfolding await
await_answers answer late looks index zero k = inr (λ i h. absurd (omega arith), refl)
await_answers answer late looks index (suc left) k =
    elim (Option-cases (get_elem? (looks k) index)) [
      | inr (r, e) ↦ inl (0, r, omega arith, rw add-zero e, rw (e, await) refl)
      | inl e ↦ elim (await_answers answer late looks index left (k + 1)) [
        | inl (i, r, lt, found, ans) ↦
            inl (suc i, r, omega arith, rw (shift k i) found, rw (e, await) ans)
        | inr (all, ans) ↦ inr (missed looks index left k e all, rw (e, await) ans)
      ]
    ]

-- A `Get` on a leader answers in one of two ways. If none of its six looks finds the entry, it
-- reports a timeout. Otherwise it answers from an entry that a look found at the proposed index:
-- with its value if that is a `Get` of the same key, and with "try again" if not.
pub get_waits :
    (args : GetArgs) (index : ℕ) (looks : ℕ → List Response)
    → ((i : ℕ) × (r : Response) × (i < 6)
        × (get_elem? (looks i) index ≡ some r)
        × (get args (pos index) true looks ≡ get_answer args r))
      ⊎ (((i : ℕ) → i < 6 → get_elem? (looks i) index ≡ none)
          × (get args (pos index) true looks ≡ record { err = timeout; value = [] }))
unfolding get
get_waits args index looks =
    let late : GetReply = record { err = timeout; value = [] } in
    let leads : get args (pos index) true looks ≡ await (get_answer args) late looks index 6 0 =
      ground arith in
    elim (await_answers (get_answer args) (record { err = timeout; value = [] }) looks index 6 0) [
      | inl (i, r, lt, found, ans) ↦ inl (i, r, lt, rw zero-add at found, leads ∙ ans)
      | inr (all, ans) ↦ inr (λ i lt. let h = all i lt in rw zero-add at h, leads ∙ ans)
    ]
