-- ===== src/OmniPaxos/Cluster/Successor.antt =====
-- From one leader to the next.
use omni_paxos_kv.Prelude.{
  ℕ, zero, suc, ◌%◌, ◌≤◌, ◌<◌, ◌≡◌, ◌≢◌, ◌⊎◌, refl, sym, ap, subst, ◌∙◌, inl, inr, some, List, [],
  ◌∷◌, arith, eqb, Bool-cases, length, take, take_of_le, length-take, replicate, Assoc,
}
use omni_paxos_kv.OmniPaxos.Ballot.{Ballot}
use omni_paxos_kv.OmniPaxos.Ballot.Order.{AtMost, AtMost-refl}
use omni_paxos_kv.OmniPaxos.Types.{OmniPaxos, Promise, Phase, Outbox, Codec}
use omni_paxos_kv.OmniPaxos.Log.{quorum}
use omni_paxos_kv.OmniPaxos.Election.{own_promise}
use omni_paxos_kv.OmniPaxos.Promise.{no_promise, start_accept}
use omni_paxos_kv.OmniPaxos.Takeover.{Given, promised_by, Agrees}
use omni_paxos_kv.OmniPaxos.Takeover.Survival.{TakesOver, accepted_survives}
use omni_paxos_kv.OmniPaxos.Cluster.{Cluster, Reach, update}
use omni_paxos_kv.OmniPaxos.Cluster.Round.{entries, Ready-holds, Ready-keeps}
use omni_paxos_kv.OmniPaxos.Cluster.Steady.{TakesPart, Inv, update_all}
use omni_paxos_kv.OmniPaxos.Cluster.Begins.{
  LogsAgree, Begins, Begins-Inv, Begins-waits, Begins-accepted,
}
use omni_paxos_kv.OmniPaxos.Cluster.Holders.{count_holders, held}
use omni_paxos_kv.OmniPaxos.Cluster.Accepted.{AllMarked, Reach-AllMarked}
use omni_paxos_kv.OmniPaxos.Cluster.Decided.{Begins-Kept}
use omni_paxos_kv.OmniPaxos.Cluster.Held.{Reach-Kept}

take-take_comm : {A : Type 0} (a b : ℕ) (xs : List A) → take a (take b xs) ≡ take b (take a xs)
take-take_comm zero zero xs = refl
take-take_comm zero (suc b) xs = refl
take-take_comm (suc a) zero xs = refl
take-take_comm (suc a) (suc b) [] = refl
take-take_comm (suc a) (suc b) (x ∷ xs) = ap (◌∷◌ x) (take-take_comm a b xs)

-- What holds of the logs at the end of a round; `d` entries are decided.
module _ {C : Type 0} ⦃codec : Codec C⦄ (n : Ballot) (l : ℕ) (ps : Assoc ℕ (Promise C))
    (t : Cluster C) (v : Inv n l ps t) (k : AllMarked n l ps t) where
  -- A log of the round is a part of the leader's.
  log_inside :
      (j : ℕ)
      → TakesPart l ps j
      → (t.peers j).state.phase ≡ Phase.accept
      → take (length (t.peers j).os.log) (t.peers l).os.log ≡ (t.peers j).os.log
  log_inside j (inl e) phase =
      rw e (take_of_le (length (t.peers l).os.log) (t.peers l).os.log (omega arith))
  log_inside j (inr (ne, one)) phase =
      let f = v.members j ne one in
      let size = length (t.peers j).os.log in
      ap (take size) (sym f.replays)
      ∙ Ready-holds n l (t.peers j) (t.queues j) size f.ready phase (omega arith)
      ∙ take_of_le size (t.peers j).os.log (omega arith)

  Reach-Agrees :
      (d j : ℕ) → d ≤ length (t.peers l).os.log → Agrees n (take d (t.peers l).os.log) (t.peers j)
  Reach-Agrees d j le =
      let log = (t.peers l).os.log in
      let size : length (take d log) ≡ d = omega (arith, length-take d log, le) in
      elim (k j) [
        | inl (a, phase, part) ↦ record {
          newest = rw a (AtMost-refl n);
          same = λ e.
              ap (λ i. take i (t.peers j).os.log) size
              ∙ ap (take d) (sym (log_inside j part phase))
              ∙ take-take_comm d (length (t.peers j).os.log) log;
        }
        | inr (ne, low, apart, w) ↦ record { newest = low; same = λ e. absurd (apart e) }
      ]

  held-Marked :
      (d j : ℕ)
      → 1 ≤ d
      → d ≤ held l ps t.peers j
      → ((t.peers j).os.accepted_rnd ≡ n) × (d ≤ length (t.peers j).os.log)
  held-Marked d j some_of h = elim (k j) [
    | inl (a, phase, part) ↦ (a, ground arith)
    | inr (ne, low, apart, inl z) ↦ absurd (ground arith)
    | inr (ne, low, apart, inr p) ↦ absurd (ground arith)
  ]

  decided_part :
      (i : ℕ)
      → TakesPart l ps i
      → ((t.peers i).os.decided_idx ≤ length (t.peers i).os.log)
        × (take (t.peers i).os.decided_idx (t.peers i).os.log
            ≡ take (t.peers i).os.decided_idx (t.peers l).os.log)
  decided_part i (inl e) = rw e (v.leads.delivered.inside, refl)
  decided_part i (inr (ne, one)) =
      let f = v.members i ne one in
      (
        f.delivered.inside,
        sym (Ready-keeps n l (t.peers i) (t.queues i) f.ready f.delivered.inside)
            ∙ ap (take (t.peers i).os.decided_idx) f.replays,
      )

length-take_le : {A : Type 0} (d : ℕ) (xs : List A) → d ≤ length xs → length (take d xs) ≡ d
length-take_le d xs le = omega (arith, length-take d xs, le)

module _ {C : Type 0} ⦃codec : Codec C⦄ (n : Ballot) (l : ℕ) (ps : Assoc ℕ (Promise C)) where
  Begins-AllMarked :
      (s : Cluster C)
      → (b : Begins n l ps s) → LogsAgree n l ps s b
      → ((j : ℕ) → j ≢ l → AtMost (s.peers j).os.accepted_rnd n × ((s.peers j).os.accepted_rnd ≢ n))
      → AllMarked n l ps s
  Begins-AllMarked s b agrees older j = elim (Bool-cases (eqb j l)) [
    | inl e ↦
        let same : j ≡ l = ground arith in
        let v = Begins-Inv n l ps s b agrees in
        inl (rw same (Begins-accepted n l ps s b), rw same v.leads.phase, inl same)
    | inr e ↦
        let ne : j ≢ l = ground arith in
        let (low, apart) = older j ne in
        elim (b.once j ne) [
          | inl z ↦ inr (ne, low, apart, inl z)
          | inr one ↦ inr (ne, low, apart, inr (Begins-waits n l ps s j b ne one))
        ]
  ]

-- The next leader `op` stands for peer `i`.
module _ {C : Type 0} ⦃codec : Codec C⦄ (n : Ballot) (l : ℕ) (ps : Assoc ℕ (Promise C))
    (t : Cluster C) (v : Inv n l ps t) (k : AllMarked n l ps t) (i d : ℕ) (op : OmniPaxos C) where
  taken :
      d ≤ length (t.peers l).os.log
      → TakesPart l ps i
      → op.os.log ≡ (t.peers i).os.log
      → op.os.accepted_rnd ≡ (t.peers i).os.accepted_rnd
      → op.os.decided_idx ≡ (t.peers i).os.decided_idx
      → ((j : ℕ) → entries j op.promises ≤ 1)
      → ((p : Promise C)
          → Given p op.promises
          → (p.f < op.peers)
            × (((p ≡ own_promise op) × (p.f ≡ i))
                ⊎ ((p ≡ promised_by op (t.peers p.f)) × (p.f ≢ i))))
      → TakesOver op (update t.peers i op) n (take d (t.peers l).os.log)
        × Agrees n (take d (t.peers l).os.log) op
        × ((j : ℕ) → Agrees n (take d (t.peers l).os.log) (update t.peers i op j))
  taken inside part log acc dec once from =
      let old = (t.peers l).os.log in
      let size = length-take_le d old inside in
      let agrees : (j : ℕ) → Agrees n (take d old) (t.peers j) =
        λ j. Reach-Agrees n l ps t v k d j inside in
      let same = agrees i in
      let own : Agrees n (take d old) op = record {
        newest = subst (λ b. AtMost b n) (sym acc) same.newest;
        same = λ e. let x = same.same (sym acc ∙ e) in rw log x;
      } in
      let (le, part_of) = decided_part n l ps t v k i part in
      (
        record {
          once = once;
          from = λ p g.
              let (lt, w) = from p g in
              (
                lt,
                elim w [
                  | inl (e, f) ↦ let at : update t.peers i op p.f ≡ op = ground arith in inl (e, at)
                  | inr (e, ne) ↦
                      let at : update t.peers i op p.f ≡ t.peers p.f = ground arith in
                      inr (e ∙ ap (promised_by op) (sym at))
                ],
              );
          inside = rw (dec, log) le;
          decided =
              rw (dec, log, size)
                (ap (take d) part_of ∙ take-take_comm d (t.peers i).os.decided_idx old);
        },
        own,
        update_all (λ j x. Agrees n (take d old) x) t.peers i op own agrees,
      )

  voters_hold :
      op.os.log ≡ (t.peers i).os.log
      → op.os.accepted_rnd ≡ (t.peers i).os.accepted_rnd
      → 1 ≤ d
      → (j : ℕ) → d ≤ held l ps t.peers j
      → ((update t.peers i op j).os.accepted_rnd ≡ n)
        × (length (take d (t.peers l).os.log) ≤ length (update t.peers i op j).os.log)
  voters_hold log acc some_of j le =
      let small : length (take d (t.peers l).os.log) ≤ d =
        omega (arith, length-take d (t.peers l).os.log) in
      let (a, b) =
        update_all
          (λ j x. d ≤ held l ps t.peers j → (x.os.accepted_rnd ≡ n) × (d ≤ length x.os.log)) t.peers
          i op (λ le. let (a, b) = held-Marked n l ps t v k d i some_of le in (acc ∙ a, rw log b))
          (λ j le. held-Marked n l ps t v k d j some_of le) j le in
      (a, omega (arith, b, small))

-- A decision outlives its leader: what the leader of round `n` has decided since the round began
-- stands at the beginning of the log of the next leader `op`. This is peer `i`, the leader of round `n`
-- or one that promised it, with promises from a majority of an odd number of peers, all of which were
-- given as the peers are at the end of the round. Round `n` begins with `Accepted` all zero at its
-- leader, with nothing but the AcceptSyncs under way, with the log of each peer that promised agreeing
-- with the leader's up to the index of its AcceptSync, to which the code does not see, and with no peer
-- but the leader having accepted round `n` or a later one. While it lasts, the AcceptSyncs and Accepts
-- to a peer arrive in order, each once, no promise comes late, no other leader is chosen, no link is
-- taken for broken and no peer restarts.
pub decision_survives :
    {C : Type 0} ⦃codec : Codec C⦄ (n m : Ballot) (l i : ℕ) (ps : Assoc ℕ (Promise C))
    (s t : Cluster C) (op op' : OmniPaxos C) (out : Outbox C) (b : Begins n l ps s)
    → LogsAgree n l ps s b
    → b.before.accepted ≡ replicate b.before.peers 0
    → ((j : ℕ) → j ≢ l → AtMost (s.peers j).os.accepted_rnd n × ((s.peers j).os.accepted_rnd ≢ n))
    → AtMost (no_promise {C = C}).acc_rnd n
    → Reach s t
    → (t.peers l).os.decided_idx ≢ (s.peers l).os.decided_idx
    → TakesPart l ps i
    → op.os.log ≡ (t.peers i).os.log
    → op.os.accepted_rnd ≡ (t.peers i).os.accepted_rnd
    → op.os.decided_idx ≡ (t.peers i).os.decided_idx
    → op.peers ≡ (t.peers l).peers
    → op.peers % 2 ≡ 1
    → ((j : ℕ) → entries j op.promises ≤ 1)
    → ((p : Promise C)
        → Given p op.promises
        → (p.f < op.peers)
          × (((p ≡ own_promise op) × (p.f ≡ i)) ⊎ ((p ≡ promised_by op (t.peers p.f)) × (p.f ≢ i))))
    → quorum op.peers ≤ length op.promises
    → start_accept op m ≡ some (op', out)
    → take (t.peers l).os.decided_idx op'.os.log
      ≡ take (t.peers l).os.decided_idx (t.peers l).os.log
decision_survives {C} n m l i ps s t op op' out b agrees zeros older low r more part log acc dec
      peers odd once from promised start =
    let start_inv = Begins-Inv n l ps s b agrees in
    let (v, k) =
      Reach-AllMarked n l ps b.once start_inv (Begins-AllMarked n l ps s b agrees older) r in
    let (_, kept) =
      Reach-Kept n l ps (s.peers l).os.decided_idx b.once start_inv (Begins-Kept n l ps s b zeros)
        r in
    let d = (t.peers l).os.decided_idx in
    let h = held l ps t.peers in
    let enough : quorum (t.peers l).peers ≤ count_holders h d 0 (t.peers l).peers =
      elim kept.counts.majority [ inl e ↦ absurd (more e) | inr e ↦ e ] in
    elim (Bool-cases (eqb d 0)) [
      | inl e ↦ let none_of : d ≡ 0 = ground arith in rw none_of refl
      | inr e ↦
          let some_of : 1 ≤ d = ground arith in
          let size = length-take_le d (t.peers l).os.log v.leads.delivered.inside in
          let (over, own, agree) =
            taken n l ps t v k i d op v.leads.delivered.inside part log acc dec once from in
          let res =
            accepted_survives op (update t.peers i op) n m (take d (t.peers l).os.log) h op' out odd
              low over own (λ p g. agree p.f) (rw (peers, size) enough)
              (λ j le. voters_hold n l ps t v k i d op log acc some_of j (rw size at le)) promised
              start in
          rw size at res
    ]
