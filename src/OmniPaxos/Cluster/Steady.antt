-- ===== src/OmniPaxos/Cluster/Steady.antt =====
-- The invariant of a round, and the steps that leave the logs alone.
use omni_paxos_kv.Prelude.{
  ℕ, ◌≡◌, ◌≢◌, ◌⊎◌, refl, sym, ap, subst, ◌∙◌, inl, inr, List, [], ◌∷◌, ◌++◌, append-nil, arith,
  eqb, Bool-cases, length, Assoc,
}
use omni_paxos_kv.OmniPaxos.Ballot.{Ballot}
use omni_paxos_kv.OmniPaxos.Types.{OmniPaxos, Promise, Phase, leader, follower, Outbox}
use omni_paxos_kv.OmniPaxos.Cluster.{
  Cluster, Ordered, sync, append, update, ordered_for, unordered, send,
}
use omni_paxos_kv.OmniPaxos.Cluster.Quiet.{Delivered, Quiet}
use omni_paxos_kv.OmniPaxos.Cluster.Loose.{
  ordered_for-AllLoose, unordered-AllLoose, AllLoose-append, AllLoose, AllDecides-AllLoose,
}
use omni_paxos_kv.OmniPaxos.Cluster.Round.{replay, entries, Ready, Follows}

pub update_all :
    {A : Type 0} (P : ℕ → A → Type 0) (f : ℕ → A) (i : ℕ) (a : A)
    → P i a
    → ((j : ℕ) → P j (f j))
    → (j : ℕ) → P j (update f i a j)
update_all P f i a new old j = elim (Bool-cases (eqb i j)) [
  | inl e ↦
      let same : i ≡ j = ground arith in
      let p : P j a = subst (λ k. P k a) same new in
      let u : a ≡ update f i a j = rw e refl in subst (P j) u p
  | inr e ↦ let u : f j ≡ update f i a j = rw e refl in subst (P j) u (old j)
]

-- The leader, and those that promised.
abbrev pub TakesPart : {C : Type 0} → ℕ → Assoc ℕ (Promise C) → ℕ → Type 0
TakesPart l ps i = (i ≡ l) ⊎ ((i ≢ l) × (entries i ps ≡ 1))

-- A round `n` of leader `l` with the promises `ps`.
module _ {C : Type 0} (n : Ballot) (l : ℕ) (ps : Assoc ℕ (Promise C)) where
  pub record Leads (op : OmniPaxos C) : Type 0 where
    pub me : op.me ≡ l
    pub role : op.state.role ≡ leader
    pub phase : op.state.phase ≡ Phase.accept
    pub current : op.current_rnd ≡ n
    pub promises : op.promises ≡ ps
    pub delivered : Delivered op

  -- Those that promised follow the leader, and the others get nothing that would change their log.
  pub record Inv (s : Cluster C) : Type 0 where
    pub leads : Leads (s.peers l)
    pub followers : (j : ℕ) → j ≢ l → (s.peers j).state.role ≡ follower
    pub members :
        (j : ℕ)
        → j ≢ l
        → entries j ps ≡ 1
        → Follows n l j (s.peers j) (s.queues j) (s.peers l).os.log
    pub outsiders : (j : ℕ) → j ≢ l → entries j ps ≡ 0 → s.queues j ≡ []
    pub soup : AllLoose s.soup

  -- The leader is past its prepare phase.
  pub Inv-at_work :
      (s : Cluster C) (i : ℕ)
      → Inv s
      → (s.peers i).state.role ≡ leader
      → (s.peers i).state.phase ≡ Phase.accept
  Inv-at_work s i v lead = elim (Bool-cases (eqb i l)) [
    | inl e ↦
        let same : i ≡ l = ground arith in ap (λ j. (s.peers j).state.phase) same ∙ v.leads.phase
    | inr e ↦ let ne : i ≢ l = ground arith in let other = v.followers i ne in absurd (ground arith)
  ]

  Ready-Quiet :
      {op op' : OmniPaxos C} {out : Outbox C} (q : List (Ordered C))
      → Quiet op op' out
      → Ready n l op q
      → Ready n l op' q
  Ready-Quiet [] k r = ap (λ s. s.phase) k.state ∙ r
  Ready-Quiet (append a ∷ q) k (p, e, f, r) = (ap (λ s. s.phase) k.state ∙ p, e, f, r)
  Ready-Quiet {op} {op'} (sync a ∷ q) k (p, e, f, s, d, r) =
      let size = ap length k.log in
      (ap (λ s. s.phase) k.state ∙ p, e, f, omega (arith, size, s), omega (arith, k.still p, d), r)

  Follows-Quiet :
      {op op' : OmniPaxos C} {out : Outbox C} (j : ℕ) (q : List (Ordered C)) (log : List C)
      → Quiet op op' out
      → Follows n l j op q log
      → Follows n l j op' q log
  Follows-Quiet {op} {op'} j q log k v = record {
    me = k.me ∙ v.me;
    role = ap (λ s. s.role) k.state ∙ v.role;
    promised = k.promised ∙ v.promised;
    ready = Ready-Quiet q k v.ready;
    replays = ap (λ x. replay x q) k.log ∙ v.replays;
    delivered = k.delivered v.delivered;
  }

  Leads-Quiet : {op op' : OmniPaxos C} {out : Outbox C} → Quiet op op' out → Leads op → Leads op'
  Leads-Quiet k v = record {
    me = k.me ∙ v.me;
    role = ap (λ s. s.role) k.state ∙ v.role;
    phase = ap (λ s. s.phase) k.state ∙ v.phase;
    current = k.current ∙ v.current;
    promises = k.promises ∙ v.promises;
    delivered = k.delivered v.delivered;
  }

  -- A quiet step of peer `i`; the leader's own queue may change.
  pub Quiet-Inv :
      (s : Cluster C) (i : ℕ) (op' : OmniPaxos C) {out : Outbox C} (queues : ℕ → List (Ordered C))
      (soup : Outbox C)
      → Inv s
      → Quiet (s.peers i) op' out
      → ((j : ℕ) → j ≢ l → queues j ≡ s.queues j)
      → AllLoose soup
      → Inv (record { peers = update s.peers i op'; queues = queues; soup = soup })
  Quiet-Inv s i op' queues soup v k same loose =
      let log : (update s.peers i op' l).os.log ≡ (s.peers l).os.log =
        update_all (λ j x. x.os.log ≡ (s.peers j).os.log) s.peers i op' k.log (λ j. refl) l in
      record {
        leads =
            update_all (λ j x. j ≡ l → Leads x) s.peers i op'
              (λ e. Leads-Quiet k (subst (λ j. Leads (s.peers j)) (sym e) v.leads))
              (λ j e. subst (λ j. Leads (s.peers j)) (sym e) v.leads) l refl;
        followers =
            update_all (λ j x. j ≢ l → x.state.role ≡ follower) s.peers i op'
              (λ ne. ap (λ s. s.role) k.state ∙ v.followers i ne) v.followers;
        members = λ j ne one.
            let kept =
              update_all
                (λ j x. j ≢ l → entries j ps ≡ 1 → Follows n l j x (s.queues j) (s.peers l).os.log)
                s.peers i op'
                (λ ne one. Follows-Quiet i (s.queues i) (s.peers l).os.log k (v.members i ne one))
                v.members j ne one in
            subst (λ q. Follows n l j (update s.peers i op' j) q (update s.peers i op' l).os.log)
              (sym (same j ne))
              (subst (Follows n l j (update s.peers i op' j) (s.queues j)) (sym log) kept);
        outsiders = λ j ne none_given. same j ne ∙ v.outsiders j ne none_given;
        soup = loose;
      }

  -- The same with what the peer sends.
  pub send-Inv :
      (s : Cluster C) (i : ℕ) (op' : OmniPaxos C) (out : Outbox C) (queues : ℕ → List (Ordered C))
      → Inv s
      → Quiet (s.peers i) op' out
      → ((j : ℕ) → j ≢ l → queues j ≡ s.queues j)
      → Inv (send out (record s { peers = update s.peers i op'; queues = queues }))
  send-Inv s i op' out queues v k same =
      let loose = AllDecides-AllLoose out k.sends in
      Quiet-Inv s i op' (λ j. queues j ++ ordered_for j out) (s.soup ++ unordered out) v k
        (λ j ne. rw (ordered_for-AllLoose j out loose, same j ne) (rw append-nil refl))
        (AllLoose-append s.soup (unordered out) v.soup (unordered-AllLoose out loose))
