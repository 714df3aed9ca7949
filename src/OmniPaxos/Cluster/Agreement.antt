-- ===== src/OmniPaxos/Cluster/Agreement.antt =====
-- While one leader stays, no two peers deliver different commands under one index.
use omni_paxos_kv.Prelude.{
  ℕ, zero, suc, ◌≡◌, ◌≢◌, ◌⊎◌, refl, sym, ap, subst, ◌∙◌, inl, inr, some, List, [], ◌∷◌, ◌++◌,
  append-nil, arith, eqb, Bool-cases, take, replicate, get_elem?, Assoc,
}
use omni_paxos_kv.OmniPaxos.Ballot.{Ballot}
use omni_paxos_kv.OmniPaxos.Types.{OmniPaxos, Promise, follower, Outbox, Codec}
use omni_paxos_kv.OmniPaxos.Delivery.{commands}
use omni_paxos_kv.OmniPaxos.Election.{heart_beat_reply}
use omni_paxos_kv.OmniPaxos.Accept.{proposal}
use omni_paxos_kv.OmniPaxos.Cluster.{
  Cluster, Ordered, append, update, ordered_for, unordered, send, Step, Reach, proposes, receives,
  hears, answers, ticks, here, later,
}
use omni_paxos_kv.OmniPaxos.Cluster.Quiet.Steps.{
  Loose-Quiet, leader-Quiet, proposal-Quiet, heart_beat_reply-Quiet,
}
use omni_paxos_kv.OmniPaxos.Cluster.Loose.{
  AllLoose, unordered-AllLoose, ordered_for-AllLoose, AllLoose-append, AllLoose-get,
}
use omni_paxos_kv.OmniPaxos.Links.{timer_round}
use omni_paxos_kv.OmniPaxos.Cluster.Quiet.Timer.{timer_round-Quiet}
use omni_paxos_kv.OmniPaxos.Cluster.Round.{
  replay-append, entries, Ready-append, Ready-keeps, Follows,
}
use omni_paxos_kv.OmniPaxos.Cluster.Steady.{
  Inv-at_work, TakesPart, Leads, Inv, Quiet-Inv, send-Inv, update_all,
}
use omni_paxos_kv.OmniPaxos.Cluster.Handlers.{Proposes, proposal-Proposes, received-Follows}

module _ {C : Type 0} ⦃codec : Codec C⦄ (n : Ballot) (l : ℕ) (ps : Assoc ℕ (Promise C))
    (once : (j : ℕ) → j ≢ l → (entries j ps ≡ 0) ⊎ (entries j ps ≡ 1)) where
  Proposes-Inv :
      (s : Cluster C) (command : C) (op' : OmniPaxos C) (out : Outbox C)
      → Inv n l ps s
      → Proposes n l ps (s.peers l) op' command out
      → Inv n l ps (send out (record s { peers = update s.peers l op' }))
  Proposes-Inv s command op' out v k =
      let at_l : update s.peers l op' l ≡ op' = ground arith in
      let at_j : (j : ℕ) → j ≢ l → update s.peers l op' j ≡ s.peers j = λ j ne. ground arith in
      record {
        leads = subst (Leads n l ps) (sym at_l) k.leads;
        followers = λ j ne. ap (λ x. x.state.role) (at_j j ne) ∙ v.followers j ne;
        members = λ j ne one.
            let f = v.members j ne one in
            let q = s.queues j ++ append k.request ∷ [] in
            let queue : q ≡ s.queues j ++ ordered_for j out =
              ap (◌++◌ (s.queues j))
                (sym (k.sends j ne ∙ ap (λ e. replicate e (append k.request)) one)) in
            let longer : Follows n l j (s.peers j) q op'.os.log = record {
              me = f.me;
              role = f.role;
              promised = f.promised;
              ready = Ready-append n l (s.peers j) (s.queues j) k.request k.round k.from f.ready;
              replays =
                  replay-append (s.peers j).os.log (s.queues j) k.request
                  ∙ ap (λ xs. xs ++ k.request.c ∷ []) f.replays
                  ∙ ap (λ c. (s.peers l).os.log ++ c ∷ []) k.carries
                  ∙ sym k.log;
              delivered = f.delivered;
            } in
            subst (λ q. Follows n l j (update s.peers l op' j) q (update s.peers l op' l).os.log)
              queue (rw (at_j j ne, at_l) longer);
        outsiders = λ j ne none_given.
            rw (v.outsiders j ne none_given)
              (k.sends j ne ∙ ap (λ e. replicate e (append k.request)) none_given);
        soup = rw (k.quiet) (rw append-nil v.soup);
      }

  clash : {k : ℕ} → k ≡ 1 → k ≢ 0
  clash a b = ground arith

  follower_receives :
      (s : Cluster C) (i : ℕ) (rest : List (Ordered C)) (op' : OmniPaxos C) (out : Outbox C)
      → Inv n l ps s
      → i ≢ l
      → entries i ps ≡ 1
      → Follows n l i op' rest (s.peers l).os.log
      → AllLoose out
      → Inv n l ps
          (send out (record s { peers = update s.peers i op'; queues = update s.queues i rest }))
  follower_receives s i rest op' out v ne one f loose =
      let at_l : update s.peers i op' l ≡ s.peers l = ground arith in
      let nothing = λ (j : ℕ). ordered_for-AllLoose j out loose in
      let goal = λ (j : ℕ) (x : OmniPaxos C) (q : List (Ordered C)).
        Follows n l j x q (update s.peers i op' l).os.log in
      record {
        leads = subst (Leads n l ps) (sym at_l) v.leads;
        followers =
            update_all (λ j x. j ≢ l → x.state.role ≡ follower) s.peers i op' (λ _. f.role)
              v.followers;
        members = λ j ne' one'. elim (Bool-cases (eqb i j)) [
          | inl t ↦
              let same : i ≡ j = ground arith in
              let x : update s.peers i op' j ≡ op' = ground arith in
              let q : update s.queues i rest j ++ ordered_for j out ≡ rest =
                ap (λ o. update s.queues i rest j ++ o) (nothing j) ∙ rw (append-nil, t) refl in
              let g : Follows n l j op' rest (s.peers l).os.log =
                subst (λ k. Follows n l k op' rest (s.peers l).os.log) same f in
              rw (q, x, at_l) g
          | inr t ↦
              let x : update s.peers i op' j ≡ s.peers j = ground arith in
              let q : update s.queues i rest j ++ ordered_for j out ≡ s.queues j =
                ap (λ o. update s.queues i rest j ++ o) (nothing j) ∙ rw (append-nil, t) refl in
              rw (q, x, at_l) (v.members j ne' one')
        ];
        outsiders = λ j ne' none_given.
            let apart : i ≢ j = λ e. absurd (clash one (ap (λ k. entries k ps) e ∙ none_given)) in
            let q : update s.queues i rest j ≡ s.queues j = ground arith in
            rw (nothing j, q, v.outsiders j ne' none_given) refl;
        soup = AllLoose-append s.soup (unordered out) v.soup (unordered-AllLoose out loose);
      }

  pub Step-Inv : {s s' : Cluster C} → Inv n l ps s → Step s s' → Inv n l ps s'
  Step-Inv {s} v (proposes i command op' out p h e) =
      subst (Inv n l ps) e (elim (Bool-cases (eqb i l)) [
        | inl t ↦
            let same : i ≡ l = ground arith in
            let h' : proposal (s.peers l) command ≡ some ((op', out), p) = rw same at h in
            rw same (
              Proposes-Inv s command op' out v
                (proposal-Proposes n l ps (s.peers l) op' command out p v.leads h'))
        | inr t ↦
            send-Inv n l ps s i op' out s.queues v
              (proposal-Quiet (s.peers i) op' command out p (v.followers i (ground arith)) h)
              (λ j ne. refl)
      ])
  Step-Inv {s} v (receives i m rest op' out q h e) =
      subst (Inv n l ps) e (elim (Bool-cases (eqb i l)) [
        | inl t ↦
            let same : i ≡ l = ground arith in
            send-Inv n l ps s i op' out (update s.queues i rest) v
              (leader-Quiet (s.peers i) op' m out
                (ap (λ j. (s.peers j).state.role) same ∙ v.leads.role) h)
              (λ j ne. ground arith)
        | inr t ↦
            let ne : i ≢ l = ground arith in
            elim (once i ne) [
              | inl z ↦ let e : s.queues i ≡ [] = v.outsiders i ne z in absurd (ground arith)
              | inr one ↦
                  let f : Follows n l i (s.peers i) (m ∷ rest) (s.peers l).os.log =
                    subst (λ q. Follows n l i (s.peers i) q (s.peers l).os.log) q
                      (v.members i ne one) in
                  let (g, loose) =
                    received-Follows n l ps i (s.peers i) op' m rest (s.peers l).os.log out f h in
                  follower_receives s i rest op' out v ne one g loose
            ]
      ])
  Step-Inv {s} v (hears i k m op' out at h e) = subst (Inv n l ps) e (
      send-Inv n l ps s i op' out s.queues v
        (Loose-Quiet (s.peers i) op' m out (AllLoose-get s.soup k i m v.soup at) h) (λ j ne. refl))
  Step-Inv {s} v (answers i r p reply e) = subst (Inv n l ps) e (
      Quiet-Inv n l ps s i (heart_beat_reply (s.peers i) r p reply) s.queues s.soup v
        (heart_beat_reply-Quiet (s.peers i) r p reply) (λ j ne. refl) v.soup)
  Step-Inv {s} v (ticks i out same e) = subst (Inv n l ps) e (
      Quiet-Inv n l ps s i (timer_round (s.peers i)).0 s.queues s.soup v
        (timer_round-Quiet (s.peers i) same (Inv-at_work n l ps s i v)) (λ j ne. refl) v.soup)

  pub Reach-Inv : {s t : Cluster C} → Inv n l ps s → Reach s t → Inv n l ps t
  Reach-Inv v here = v
  Reach-Inv v (later r st) = Step-Inv (Reach-Inv v r) st

  delivered_part :
      (s : Cluster C) (i : ℕ)
      → Inv n l ps s
      → TakesPart l ps i
      → commands (s.peers i).applied ≡ take (s.peers i).os.decided_idx (s.peers l).os.log
  delivered_part s i v (inl e) = rw e v.leads.delivered.content
  delivered_part s i v (inr (ne, one)) =
      let f = v.members i ne one in
      f.delivered.content
      ∙ sym (Ready-keeps n l (s.peers i) (s.queues i) f.ready f.delivered.inside)
      ∙ ap (take (s.peers i).os.decided_idx) f.replays

  get_elem?-take :
      (xs : List C) (d k : ℕ) (c : C) → get_elem? (take d xs) k ≡ some c → get_elem? xs k ≡ some c
  get_elem?-take [] zero k c h = h
  get_elem?-take [] (suc d) k c h = h
  get_elem?-take (x ∷ xs) zero k c h = absurd (ground arith)
  get_elem?-take (x ∷ xs) (suc d) zero c h = h
  get_elem?-take (x ∷ xs) (suc d) (suc k) c h = get_elem?-take xs d k c h

  pub agree :
      (s : Cluster C) (i j k : ℕ) (c d : C)
      → Inv n l ps s
      → TakesPart l ps i
      → TakesPart l ps j
      → get_elem? (commands (s.peers i).applied) k ≡ some c
      → get_elem? (commands (s.peers j).applied) k ≡ some d
      → c ≡ d
  agree s i j k c d v a b h h' =
      let log = (s.peers l).os.log in
      let e =
        get_elem?-take log (s.peers i).os.decided_idx k c (rw (delivered_part s i v a) at h) in
      let f =
        get_elem?-take log (s.peers j).os.decided_idx k d (rw (delivered_part s j v b) at h') in
      ground arith
