-- ===== src/KvPaxos/Looks.antt =====
-- a3-kvpaxos/server.go: what a handler's look at the responses finds.
use omni_paxos_kv.Prelude.{
  list_eq, nat_eq, int_eq, ℕ, zero, suc, ◌≡◌, refl, ap, sym, subst, ◌∙◌, some, List, [], ◌∷◌, ◌++◌,
  append-nil, append_assoc, arith, get_elem?, take,
}
use omni_paxos_kv.KvPaxos.Server.{gets, writes, KvCommand, Response, KvServer, init, read_apply_all}
use omni_paxos_kv.KvPaxos.Refinement.{
  History, value_in, answers_in, decided_after, HaveIds, server_refines_service,
}

abbrev pub answered : History → KvCommand → Response
answered older msg = record {
  command = msg;
  value = elim msg.command [ gets arg ↦ value_in older arg.key | writes arg ↦ [] ];
}

-- The answers to the commands `msgs`, decided after `older`.
abbrev pub answers_from : History → List KvCommand → List Response
answers_from older [] = []
answers_from older (msg ∷ msgs) = answered older msg ∷ answers_from (msg ∷ older) msgs

answers_in-decided_after :
    (older : History) (msgs : List KvCommand)
    → answers_in (decided_after msgs older) ≡ answers_in older ++ answers_from older msgs
answers_in-decided_after older [] = rw append-nil refl
answers_in-decided_after older (msg ∷ msgs) =
    answers_in-decided_after (msg ∷ older) msgs
    ∙ append_assoc (answers_in older) (answered older msg ∷ []) (answers_from (msg ∷ older) msgs)

answers_from_prefix :
    (older : History) (msgs rest : List KvCommand) (i : ℕ) (r : Response)
    → get_elem? (answers_from older msgs) i ≡ some r
    → get_elem? (answers_from older (msgs ++ rest)) i ≡ some r
answers_from_prefix older [] rest i r h = absurd (ground arith)
answers_from_prefix older (msg ∷ msgs) rest zero r h = h
answers_from_prefix older (msg ∷ msgs) rest (suc i) r h =
    answers_from_prefix (msg ∷ older) msgs rest i r h

answers_from_at :
    (older : History) (msgs : List KvCommand) (i : ℕ) (r : Response)
    → get_elem? (answers_from older msgs) i ≡ some r
    → (get_elem? msgs i ≡ some r.command)
      × (r ≡ answered (decided_after (take i msgs) older) r.command)
answers_from_at older [] i r h = absurd (ground arith)
answers_from_at older (msg ∷ msgs) zero r h =
    let e : answered older msg ≡ r = ground arith in
    subst (λ (x : Response). (some msg ≡ some x.command) × (x ≡ answered older x.command)) e
      (refl, refl)
answers_from_at older (msg ∷ msgs) (suc i) r h = answers_from_at (msg ∷ older) msgs i r h

pub answers_from_found :
    (older : History) (msgs : List KvCommand) (i : ℕ) (msg : KvCommand)
    → get_elem? msgs i ≡ some msg
    → get_elem? (answers_from older msgs) i
      ≡ some (answered (decided_after (take i msgs) older) msg)
answers_from_found older [] i msg h = absurd (ground arith)
answers_from_found older (m ∷ msgs) zero msg h =
    let e : m ≡ msg = ground arith in ap (λ x. some (answered older x)) e
answers_from_found older (m ∷ msgs) (suc i) msg h = answers_from_found (m ∷ older) msgs i msg h

HaveIds-prefix : (msgs rest : List KvCommand) → HaveIds (msgs ++ rest) → HaveIds msgs
HaveIds-prefix [] rest h = tt
HaveIds-prefix (msg ∷ msgs) rest (p, h) = (p, HaveIds-prefix msgs rest h)

-- A look at the responses of a server that has applied the first commands of the log.
abbrev pub Sees : List KvCommand → List Response → Type 0
Sees log looked =
    (me : ℕ) × (msgs : List KvCommand) × (rest : List KvCommand) × (kv : KvServer) × (msgs ++ rest
      ≡ log)
    × (read_apply_all (init me) msgs ≡ some kv)
    × (looked ≡ kv.response)

pub responses_of :
    (me : ℕ) (msgs : List KvCommand) (kv : KvServer)
    → HaveIds msgs
    → read_apply_all (init me) msgs ≡ some kv
    → kv.response ≡ answers_from [] msgs
responses_of me msgs kv ids h =
    let (kv', e, v) = server_refines_service me msgs ids in
    let same : kv' ≡ kv = ground arith in
    ap (λ (s : KvServer). s.response) (sym same) ∙ v.answers ∙ answers_in-decided_after [] msgs

pub Sees-at :
    (log : List KvCommand) (looked : List Response) (i : ℕ) (r : Response)
    → HaveIds log
    → Sees log looked
    → get_elem? looked i ≡ some r
    → (get_elem? log i ≡ some r.command) × (r ≡ answered (decided_after (take i log) []) r.command)
Sees-at log looked i r ids (me, msgs, rest, kv, all, run, same) h =
    let ids' : HaveIds (msgs ++ rest) = subst HaveIds (sym all) ids in
    let e = same ∙ responses_of me msgs kv (HaveIds-prefix msgs rest ids') run in
    let found = answers_from_prefix [] msgs rest i r (rw e at h) in
    subst
      (λ (l : List KvCommand).
        (get_elem? l i ≡ some r.command) × (r ≡ answered (decided_after (take i l) []) r.command))
      all (answers_from_at [] (msgs ++ rest) i r found)
