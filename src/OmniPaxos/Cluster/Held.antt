-- ===== src/OmniPaxos/Cluster/Held.antt =====
-- While one leader stays, a majority has what it decides.
use omni_paxos_kv.Prelude.{
  ℕ, ◌≤◌, ◌≡◌, ◌≢◌, ◌⊎◌, sym, ap, subst, ◌∙◌, inl, inr, List, [], ◌∷◌, ◌++◌, arith, eqb, Bool-cases,
  length, length-append, Assoc,
}
use omni_paxos_kv.OmniPaxos.Ballot.{Ballot}
use omni_paxos_kv.OmniPaxos.Types.{OmniPaxos, Promise, leader, Outbox, Codec}
use omni_paxos_kv.OmniPaxos.Election.{heart_beat_reply}
use omni_paxos_kv.OmniPaxos.Cluster.{
  Cluster, Ordered, update, ordered_for, unordered, send, Step, Reach, proposes, receives, hears,
  answers, ticks, here, later,
}
use omni_paxos_kv.OmniPaxos.Cluster.Quiet.Steps.{
  Loose-Quiet, leader-Quiet, proposal-Quiet, heart_beat_reply-Quiet,
}
use omni_paxos_kv.OmniPaxos.Links.{timer_round}
use omni_paxos_kv.OmniPaxos.Cluster.Quiet.Timer.{timer_round-Untouched, timer_round-Quiet}
use omni_paxos_kv.OmniPaxos.Cluster.Round.{entries, Follows}
use omni_paxos_kv.OmniPaxos.Cluster.Steady.{Inv-at_work, Leads, Inv}
use omni_paxos_kv.OmniPaxos.Cluster.Loose.{AllLoose-get}
use omni_paxos_kv.OmniPaxos.Cluster.Handlers.{proposal-Proposes}
use omni_paxos_kv.OmniPaxos.Cluster.Agreement.{Step-Inv}
use omni_paxos_kv.OmniPaxos.Cluster.Holders.{
  AllHeld, AllHeld-grows, AllHeld-append, AllHeld-get, unordered-AllHeld, held, held-update,
}
use omni_paxos_kv.OmniPaxos.Cluster.Majority.{
  Counts-same, Counts, Counts-grows, heard-Counts, ignored-Counts, answered-Counts, proposed-Counts,
}
use omni_paxos_kv.OmniPaxos.Cluster.Reports.{
  KeepsLog, Quiet-KeepsLog, received_report, held-leader, held-member, Quiet-AllHeld,
}

module _ {C : Type 0} ⦃codec : Codec C⦄ (l : ℕ) (ps : Assoc ℕ (Promise C)) (d : ℕ) where
  pub record Kept (s : Cluster C) : Type 0 where
    pub counts : Counts d (held l ps s.peers) (s.peers l)
    pub soup : AllHeld (held l ps s.peers) s.soup

  update-Kept :
      (s : Cluster C) (i : ℕ) (op' : OmniPaxos C) (queues : ℕ → List (Ordered C)) (soup : Outbox C)
      → Kept s
      → KeepsLog l i (s.peers i) op'
      → (i ≡ l
          → Counts d (held l ps (update s.peers i op')) (s.peers i)
          → Counts d (held l ps (update s.peers i op')) op')
      → (AllHeld (held l ps (update s.peers i op')) s.soup
          → AllHeld (held l ps (update s.peers i op')) soup)
      → Kept (record { peers = update s.peers i op'; queues = queues; soup = soup })
  update-Kept s i op' queues soup v keeps step sent =
      let h = held l ps s.peers in
      let h' = held l ps (update s.peers i op') in
      let grows : (j : ℕ) → h j ≤ h' j = held-update l ps s.peers i op' keeps in
      record {
        counts = elim (Bool-cases (eqb i l)) [
          | inl e ↦
              let same : i ≡ l = ground arith in
              let at : update s.peers i op' l ≡ op' = ground arith in
              let before = subst (λ j. Counts d h (s.peers j)) (sym same) v.counts in
              subst (Counts d h') (sym at)
                (step same (Counts-grows d h h' (s.peers i) grows before))
          | inr e ↦
              let at : update s.peers i op' l ≡ s.peers l = ground arith in
              subst (Counts d h') (sym at) (Counts-grows d h h' (s.peers l) grows v.counts)
        ];
        soup = sent (AllHeld-grows h h' s.soup grows v.soup);
      }

  -- The same with what the peer sends.
  send-Kept :
      (s : Cluster C) (i : ℕ) (op' : OmniPaxos C) (out : Outbox C) (queues : ℕ → List (Ordered C))
      → Kept s
      → KeepsLog l i (s.peers i) op'
      → (i ≡ l
          → Counts d (held l ps (update s.peers i op')) (s.peers i)
          → Counts d (held l ps (update s.peers i op')) op')
      → AllHeld (held l ps (update s.peers i op')) (unordered out)
      → Kept (send out (record s { peers = update s.peers i op'; queues = queues }))
  send-Kept s i op' out queues v keeps step sent =
      update-Kept s i op' (λ j. queues j ++ ordered_for j out) (s.soup ++ unordered out) v keeps
        step
        (λ old. AllHeld-append (held l ps (update s.peers i op')) s.soup (unordered out) old sent)

module _ {C : Type 0} ⦃codec : Codec C⦄ (n : Ballot) (l : ℕ) (ps : Assoc ℕ (Promise C)) (d : ℕ)
    (once : (j : ℕ) → j ≢ l → (entries j ps ≡ 0) ⊎ (entries j ps ≡ 1)) where
  pub Step-Kept : {s s' : Cluster C} → Inv n l ps s → Kept l ps d s → Step s s' → Kept l ps d s'
  Step-Kept {s} v k (proposes i command op' out p e f) =
      subst (Kept l ps d) f (elim (Bool-cases (eqb i l)) [
        | inl t ↦
            let same : i ≡ l = ground arith in
            let leads : Leads n l ps (s.peers i) =
              subst (λ j. Leads n l ps (s.peers j)) (sym same) v.leads in
            let made = proposal-Proposes n l ps (s.peers i) op' command out p leads e in
            let h' = held l ps (update s.peers i op') in
            let at : length op'.os.log ≤ h' (s.peers i).me =
              rw (leads.me ∙ sym same) (held-leader l ps s.peers i op' same) in
            send-Kept l ps d s i op' out s.queues k
              (inr (
                made.leads.phase ∙ sym leads.phase,
                omega (arith, ap length made.log, length-append (s.peers i).os.log (command ∷ [])),
              ))
              (λ e' c.
                proposed-Counts d h' (s.peers i) op' command out p leads.role leads.phase e at c)
              (subst (AllHeld h') (sym made.quiet) tt)
        | inr t ↦
            let ne : i ≢ l = ground arith in
            let q = proposal-Quiet (s.peers i) op' command out p (v.followers i ne) e in
            send-Kept l ps d s i op' out s.queues k (Quiet-KeepsLog l i q)
              (λ same c. absurd (ne same)) (Quiet-AllHeld (held l ps (update s.peers i op')) q)
      ])
  Step-Kept {s} v k (receives i m rest op' out q e f) =
      subst (Kept l ps d) f (elim (Bool-cases (eqb i l)) [
        | inl t ↦
            let same : i ≡ l = ground arith in
            let role : (s.peers i).state.role ≡ leader =
              ap (λ j. (s.peers j).state.role) same ∙ v.leads.role in
            let h' = held l ps (update s.peers i op') in
            let quiet = leader-Quiet (s.peers i) op' m out role e in
            send-Kept l ps d s i op' out (update s.queues i rest) k (Quiet-KeepsLog l i quiet)
              (λ e' c. ignored-Counts d h' (s.peers i) op' m out role e c) (Quiet-AllHeld h' quiet)
        | inr t ↦
            let ne : i ≢ l = ground arith in
            elim (once i ne) [
              | inl z ↦
                  let none_left : s.queues i ≡ [] = v.outsiders i ne z in absurd (ground arith)
              | inr one ↦
                  let g : Follows n l i (s.peers i) (m ∷ rest) (s.peers l).os.log =
                    subst (λ q. Follows n l i (s.peers i) q (s.peers l).os.log) q
                      (v.members i ne one) in
                  let (keeps, phase, reports) =
                    received_report n l i (s.peers i) op' m rest (s.peers l).os.log out ne g e in
                  send-Kept l ps d s i op' out (update s.queues i rest) k keeps
                    (λ same c. absurd (ne same))
                    (unordered-AllHeld (held l ps (update s.peers i op')) out (
                      reports (held l ps (update s.peers i op'))
                        (rw g.me (held-member l ps s.peers i op' ne one phase))))
            ]
      ])
  Step-Kept {s} v k (hears i at m op' out got e f) =
      let loose = AllLoose-get s.soup at i m v.soup got in
      let quiet = Loose-Quiet (s.peers i) op' m out loose e in
      let h' = held l ps (update s.peers i op') in
      let keeps = Quiet-KeepsLog l i quiet in
      subst (Kept l ps d) f (
        send-Kept l ps d s i op' out s.queues k keeps
          (λ same c.
            let role : (s.peers i).state.role ≡ leader =
              ap (λ j. (s.peers j).state.role) same ∙ v.leads.role in
            let reported =
              AllHeld-get h' s.soup at i m
                (AllHeld-grows (held l ps s.peers) h' s.soup (held-update l ps s.peers i op' keeps)
                  k.soup)
                got in
            heard-Counts d h' (s.peers i) op' m out role loose reported e c)
          (Quiet-AllHeld h' quiet))
  Step-Kept {s} v k (answers i r p reply f) =
      let quiet = heart_beat_reply-Quiet (s.peers i) r p reply in
      let op' = heart_beat_reply (s.peers i) r p reply in
      subst (Kept l ps d) f (
        update-Kept l ps d s i op' s.queues s.soup k (Quiet-KeepsLog l i quiet)
          (λ same c. answered-Counts d (held l ps (update s.peers i op')) (s.peers i) r p reply c)
          (λ old. old))
  Step-Kept {s} v k (ticks i out same f) =
      let op' = (timer_round (s.peers i)).0 in
      let work = Inv-at_work n l ps s i v in
      let quiet = timer_round-Quiet (s.peers i) same work in
      let u = timer_round-Untouched (s.peers i) same work in
      subst (Kept l ps d) f (
        update-Kept l ps d s i op' s.queues s.soup k (Quiet-KeepsLog l i quiet)
          (λ e c.
            Counts-same d (held l ps (update s.peers i op')) (s.peers i) op' u.accepted u.peers
              u.decided c)
          (λ old. old))

  pub Reach-Kept :
      {s t : Cluster C} → Inv n l ps s → Kept l ps d s → Reach s t → Inv n l ps t × Kept l ps d t
  Reach-Kept v k here = (v, k)
  Reach-Kept v k (later r st) =
      let (v', k') = Reach-Kept v k r in (Step-Inv n l ps once v' st, Step-Kept v' k' st)
