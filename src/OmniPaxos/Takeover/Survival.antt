-- ===== src/OmniPaxos/Takeover/Survival.antt =====
-- What a majority has accepted outlives a change of the leader.
use omni_paxos_kv.Prelude.{
  nat_eq, ℕ, zero, suc, ◌+◌, ◌%◌, ◌≤◌, ◌<◌, ◌≡◌, ◌≢◌, ◌⊎◌, refl, sym, ap, subst, ◌∙◌, inl, inr,
  true, false, some, List, [], ◌∷◌, ◌++◌, arith, eqb, leb, Bool-cases, Option-cases, length, take,
  take-append_left, insert, store_at, Assoc,
}
use omni_paxos_kv.OmniPaxos.Ballot.{compare, positive, Ballot, ballot_beq, ballot_beq_iff}
use omni_paxos_kv.OmniPaxos.Ballot.Order.{AtMost, AtMost-antisymm}
use omni_paxos_kv.OmniPaxos.Types.{PromiseRequest, Message, OmniPaxos, Promise, Outbox, Codec}
use omni_paxos_kv.OmniPaxos.Log.{quorum, persist}
use omni_paxos_kv.OmniPaxos.Prepare.{prepare_handler}
use omni_paxos_kv.OmniPaxos.Election.{own_promise}
use omni_paxos_kv.OmniPaxos.Promise.{record_promise, no_promise, max_promise, adopt, start_accept}
use omni_paxos_kv.OmniPaxos.Cluster.Round.{entries}
use omni_paxos_kv.OmniPaxos.Cluster.Holders.{count_holders, count_holders-grows}
use omni_paxos_kv.OmniPaxos.Takeover.{
  asked, Given, max_promise_from_best, promised_by, Agrees, has_all, adopt_promised,
}

both_hold :
    (g h : ℕ → ℕ) (a b k m : ℕ)
    → m < count_holders g a k m + count_holders h b k m
    → (j : ℕ) × (a ≤ g j) × (b ≤ h j)
both_hold g h a b k zero lt = absurd (omega arith)
both_hold g h a b k (suc m) lt = elim (Bool-cases (leb a (g k))) [
  | inl e ↦ elim (Bool-cases (leb b (h k))) [
    | inl f ↦ (k, ground arith, ground arith)
    | inr f ↦ both_hold g h a b (k + 1) m (ground arith)
  ]
  | inr e ↦ both_hold g h a b (k + 1) m (ground arith)
]

-- One more peer reaches the bound.
count_holders-one_more :
    (g h : ℕ → ℕ) (a i k m : ℕ)
    → k ≤ i
    → i < k + m
    → g i < a
    → a ≤ h i
    → ((j : ℕ) → g j ≤ h j)
    → count_holders g a k m < count_holders h a k m
count_holders-one_more g h a i k zero le lt low high up = absurd (omega arith)
count_holders-one_more g h a i k (suc m) le lt low high up = elim (Bool-cases (eqb k i)) [
  | inl e ↦
      let s : k ≡ i = ground arith in
      let low' : g k < a = rw s low in
      let high' : a ≤ h k = rw s high in
      ground (arith, count_holders-grows g h a (k + 1) m up, low', high')
  | inr e ↦
      let ne : k ≢ i = ground arith in
      let more =
        count_holders-one_more g h a i (k + 1) m (omega (arith, ne)) (omega arith) low high up in
      ground (arith, more, up k)
]

module _ {C : Type 0} where
  Given-entries :
      (j : ℕ) (ps : Assoc ℕ (Promise C))
      → 1 ≤ entries j ps
      → (p : Promise C) × Given p ps × (p.f ≡ j)
  Given-entries j [] h = absurd (omega arith)
  Given-entries j ((k, p) ∷ ps) h = elim (Bool-cases (eqb p.f j)) [
    | inl e ↦ (p, inl refl, ground arith)
    | inr e ↦ let (q, g, s) = Given-entries j ps (ground arith) in (q, inr g, s)
  ]

  -- As many peers have promised as there are promises.
  length-entries :
      (m : ℕ) (ps : Assoc ℕ (Promise C))
      → ((j : ℕ) → entries j ps ≤ 1)
      → ((p : Promise C) → Given p ps → p.f < m)
      → length ps ≤ count_holders (λ j. entries j ps) 1 0 m
  length-entries m [] once inside = omega arith
  length-entries m ((k, p) ∷ ps) once inside =
      let at : entries p.f ((k, p) ∷ ps) ≡ suc (entries p.f ps) = ground arith in
      let grows : (j : ℕ) → entries j ps ≤ entries j ((k, p) ∷ ps) = λ j. ground arith in
      let rest =
        length-entries m ps (λ j. let u = grows j in let o = once j in omega (arith, u, o))
          (λ q g. inside q (inr g)) in
      let more =
        count_holders-one_more (λ j. entries j ps) (λ j. entries j ((k, p) ∷ ps)) 1 p.f 0 m
          (omega arith) (let i = inside p (inl refl) in omega (arith, i))
          (omega (arith, at, once p.f)) (omega (arith, at)) grows in
      omega (arith, rest, more)

module _ {C : Type 0} ⦃codec : Codec C⦄ where
  nothing_needed : (v xs : List C) → length v ≤ 0 → take (length v) xs ≡ v
  nothing_needed [] xs h = refl
  nothing_needed (x ∷ v) xs h = absurd (omega arith)

  -- The best promise is one of round `n` with all of `v`.
  adopt_keeps :
      (op : OmniPaxos C) (n : Ballot) (v : List C)
      → Agrees n v op
      → AtMost (no_promise {C = C}).acc_rnd n
      → op.os.decided_idx ≤ length op.os.log
      → take (length v) (take op.os.decided_idx op.os.log) ≡ take op.os.decided_idx v
      → ((p : Promise C)
          → Given p op.promises
          → (p ≡ own_promise op) ⊎ ((q : OmniPaxos C) × Agrees n v q × (p ≡ promised_by op q)))
      → (p : Promise C) → Given p op.promises
      → p.acc_rnd ≡ n
      → length v ≤ p.log_idx
      → take (length v) (adopt op (max_promise op)) ≡ v
  unfolding max_promise own_promise adopt
  adopt_keeps op n v own low inside part from p given at long =
      let top = max_promise op in
      let (up, above, source) = max_promise_from_best no_promise op.promises in
      let (le, longer) = above p given in
      let reaches : AtMost n top.acc_rnd = rw at at le in
      elim source [
        | inl e ↦
            let back : AtMost n (no_promise {C = C}).acc_rnd =
              subst (λ (t : Promise C). AtMost n t.acc_rnd) e reaches in
            let same : p.acc_rnd ≡ top.acc_rnd =
              at
              ∙ AtMost-antisymm n (no_promise {C = C}).acc_rnd back low
              ∙ ap (λ (t : Promise C). t.acc_rnd) (sym e) in
            let z : top.log_idx ≡ 0 = ap (λ (t : Promise C). t.log_idx) e in
            nothing_needed v (adopt op top) (omega (arith, longer same, z, long))
        | inr g ↦ elim (from top g) [
          | inl e ↦
              let acc : top.acc_rnd ≡ op.os.accepted_rnd = ap (λ (t : Promise C). t.acc_rnd) e in
              let same : op.os.accepted_rnd ≡ n =
                AtMost-antisymm op.os.accepted_rnd n own.newest (subst (AtMost n) acc reaches) in
              let size : top.log_idx ≡ length op.os.log = ap (λ (t : Promise C). t.log_idx) e in
              let all : length v ≤ length op.os.log =
                omega (arith, longer (at ∙ sym same ∙ sym acc), size, long) in
              let ours : ballot_beq top.acc_rnd op.os.accepted_rnd ≡ true =
                (ballot_beq_iff top.acc_rnd op.os.accepted_rnd).1 acc in
              rw ours (
                take-append_left (length v) op.os.log (top.log ++ op.buffer) all
                ∙ has_all n v op own same all)
          | inr (q, agrees, e) ↦
              let same : q.os.accepted_rnd ≡ n =
                AtMost-antisymm q.os.accepted_rnd n agrees.newest
                  (subst (λ (t : Promise C). AtMost n t.acc_rnd) e reaches) in
              let acc : top.acc_rnd ≡ q.os.accepted_rnd = ap (λ (t : Promise C). t.acc_rnd) e in
              let size : top.log_idx ≡ length q.os.log = ap (λ (t : Promise C). t.log_idx) e in
              let all : length v ≤ length q.os.log =
                omega (arith, longer (at ∙ sym same ∙ sym acc), size, long) in
              subst (λ t. take (length v) (adopt op t) ≡ v) (sym e)
                (adopt_promised op q n v own inside part same (has_all n v q agrees same all))
        ]
      ]

  -- A promise says which round the peer accepted, and how long its log was.
  as_promised :
      (op q : OmniPaxos C) (p : Promise C)
      → ((p ≡ own_promise op) × (q ≡ op)) ⊎ (p ≡ promised_by op q)
      → (p.acc_rnd ≡ q.os.accepted_rnd) × (p.log_idx ≡ length q.os.log)
  unfolding own_promise
  as_promised op q p (inl (e, s)) = rw (e, s) (refl, refl)
  as_promised op q p (inr e) = rw e (refl, refl)

  log-start_accept :
      (op op' : OmniPaxos C) (m : Ballot) (out : Outbox C)
      → start_accept op m ≡ some (op', out)
      → op'.os.log ≡ adopt op (max_promise op)
  unfolding start_accept persist
  log-start_accept op op' m out h =
      elim (Option-cases (store_at op.accepted op.me (length (adopt op (max_promise op))))) [
        | inl e ↦ absurd (ground arith)
        | inr (accepted, e) ↦ ground arith
      ]

  -- What a peer answers to a Prepare, and what the leader makes of it.
  pub promises-prepare_handler :
      (op q : OmniPaxos C)
      → positive (compare q.os.promised_rnd op.current_rnd) ≡ false
      → (r : PromiseRequest C) × ((prepare_handler q (asked op)).1
          ≡ (op.me, Message.promise r) ∷ [])
        × ((record_promise op r).promises ≡ insert q.me (promised_by op q) op.promises)
  unfolding prepare_handler record_promise
  promises-prepare_handler op q h =
      let p = promised_by op q in
      rw h (
        record {
          f = p.f;
          n = op.current_rnd;
          acc_rnd = p.acc_rnd;
          log_idx = p.log_idx;
          dec_idx = p.dec_idx;
          sfx = p.log;
        },
        refl,
        refl,
      )

-- The leader `op` has collected its promises, each of a peer as it was when it promised; `v` is what a
-- majority had accepted in round `n` at that time.
pub record TakesOver {C : Type 0} ⦃codec : Codec C⦄ (op : OmniPaxos C) (peers : ℕ → OmniPaxos C)
    (n : Ballot) (v : List C) : Type 0 where
  -- each promise is of another peer, and it is the leader's own or an answer to its Prepare
  pub once : (j : ℕ) → entries j op.promises ≤ 1
  pub from :
      (p : Promise C)
      → Given p op.promises
      → (p.f < op.peers)
        × (((p ≡ own_promise op) × (peers p.f ≡ op)) ⊎ (p ≡ promised_by op (peers p.f)))
  -- what the leader itself has decided
  pub inside : op.os.decided_idx ≤ length op.os.log
  pub decided : take (length v) (take op.os.decided_idx op.os.log) ≡ take op.os.decided_idx v

-- What a majority has accepted outlives a change of the leader: a new leader that has promises from a
-- majority, as the handler of promises tests it, starts with a log that begins with `v`, which a
-- majority had accepted in round `n`. The conditions are that the leader and those that promised have
-- accepted no later round than `n`, and that the log of each of them that has accepted round `n`
-- agrees with `v`: it begins with `v` or is a part of it. The code does not see to the last one, since
-- a follower can miss an Accept. Each promise is the leader's own or answers its Prepare, one for each
-- peer; what the leader has decided agrees with `v`; the number of peers is odd; and `n` is not below
-- the ballot from which the search for the best promise starts.
pub accepted_survives :
    {C : Type 0} ⦃codec : Codec C⦄ (op : OmniPaxos C) (peers : ℕ → OmniPaxos C) (n m : Ballot)
    (v : List C) (h : ℕ → ℕ) (op' : OmniPaxos C) (out : Outbox C)
    → op.peers % 2 ≡ 1
    → AtMost (no_promise {C = C}).acc_rnd n
    → TakesOver op peers n v
    → Agrees n v op
    → ((p : Promise C) → Given p op.promises → Agrees n v (peers p.f))
    → quorum op.peers ≤ count_holders h (length v) 0 op.peers
    → ((j : ℕ)
        → length v ≤ h j
        → ((peers j).os.accepted_rnd ≡ n) × (length v ≤ length (peers j).os.log))
    → quorum op.peers ≤ length op.promises
    → start_accept op m ≡ some (op', out)
    → take (length v) op'.os.log ≡ v
accepted_survives {C} op peers n m v h op' out odd low w own agree enough holds promised start =
    let counted = length-entries op.peers op.promises w.once (λ p g. (w.from p g).0) in
    let (j, given, has) =
      both_hold (λ j. entries j op.promises) h 1 (length v) 0 op.peers
        (omega (arith, odd, enough, promised, counted)) in
    let (p, g, at) = Given-entries j op.promises given in
    let (acc, long) = holds j has in
    let (round, size) = as_promised op (peers p.f) p (w.from p g).1 in
    let voter : peers p.f ≡ peers j = ap peers at in
    let long' : length v ≤ p.log_idx =
      omega (arith, size, ap (λ (q : OmniPaxos C). length q.os.log) voter, long) in
    let sources : (p : Promise C)
        → Given p op.promises
        → (p ≡ own_promise op) ⊎ ((q : OmniPaxos C) × Agrees n v q × (p ≡ promised_by op q)) =
      λ p g. elim (w.from p g).1 [ inl (e, _) ↦ inl e | inr e ↦ inr (peers p.f, agree p g, e) ] in
    ap (take (length v)) (log-start_accept op op' m out start)
    ∙ adopt_keeps op n v own low w.inside w.decided sources p g
        (round ∙ ap (λ (q : OmniPaxos C). q.os.accepted_rnd) voter ∙ acc) long'
