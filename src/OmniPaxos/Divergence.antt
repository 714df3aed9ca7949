-- ===== src/OmniPaxos/Divergence.antt =====
-- Runs in which the code does not do what the protocol asks for.
use mathlib.Core.Option
use omni_paxos_kv.Prelude.{
  nat_eq, ℕ, ◌+◌, ◌-◌, ◌≤◌, ◌<◌, ◌≡◌, ◌≢◌, refl, ap, true, false, some, List, [], ◌∷◌, ◌++◌, Assoc,
  ◌⊎◌, ◌↔◌, inl, inr, sym, subst, ◌∙◌, append_assoc, replicate, get_elem?, append-nil, arith,
  length, drop, length-replicate, get_elem?-append_self, store_at-some, length-append, pos, lookup,
  insert, lookup-insert_self,
}
use omni_paxos_kv.OmniPaxos.Ballot.{ballot_eq, Ballot, compare, positive}
use omni_paxos_kv.OmniPaxos.Ballot.Order.{AtMost, AtMost-antisymm, compare-eq_zero}
use omni_paxos_kv.OmniPaxos.Types.{
  AcceptRequest, DecideRequest, Outbox, OmniPaxos, Promise, Outcome, Phase, leader, PromiseRequest,
  Codec,
}
use omni_paxos_kv.OmniPaxos.Log.{suffix, persist, apply_msgs, add_to_apply_chan, quorum}
use omni_paxos_kv.OmniPaxos.Election.{
  heart_beat_handler, heart_beat_reply, own_promise, as_leader, trigger_leader,
}
use omni_paxos_kv.OmniPaxos.Promise.{
  no_promise, max_promise, adopt, start_accept, record_promise, on_promise, promise_handler,
}
use omni_paxos_kv.OmniPaxos.Make.{unset_ballot}
use omni_paxos_kv.OmniPaxos.Accept.{
  Proposed, proposal, in_round, follows, accept_handler, decide_handler,
}
use omni_paxos_kv.OmniPaxos.Cluster.{append, ordered_for}
use omni_paxos_kv.OmniPaxos.Cluster.Round.{entries}
use omni_paxos_kv.OmniPaxos.Cluster.Steady.{Leads}
use omni_paxos_kv.OmniPaxos.Cluster.Handlers.{proposal-Proposes}
use omni_paxos_kv.OmniPaxos.Takeover.{Given, max_promise_from_best}

module _ {C : Type 0} where
  -- The round that a heartbeat's reply carries is always the one that it is compared with: the
  -- answer to a heartbeat of any round `r` counts in the round in which it arrives.
  pub late_reply_counts :
      (op q : OmniPaxos C) (r p : ℕ)
      → lookup
          (record { n = q.b.n; pid = pos p })
          (heart_beat_reply op r p (heart_beat_handler q (record { rnd = r }))).ballots
        ≡ some q.qc
  unfolding heart_beat_reply heart_beat_handler
  late_reply_counts op q r p =
      ground (arith, lookup-insert_self (record { n = q.b.n; pid = pos p }) q.qc op.ballots)

module _ {C : Type 0} ⦃codec : Codec C⦄ where
  apply_one :
      (xs ys : List C) (c : C)
      → apply_msgs (xs ++ c ∷ ys) (length xs) 1
        ≡ some (record { command_valid = true; command = c; command_index = length xs } ∷ [])
  unfolding apply_msgs
  apply_one xs ys c = ground (arith, get_elem?-append_self xs ys c)

  -- A follower takes an Accept whatever its index, and delivers it when one entry more is decided.
  takes_next :
      (op : OmniPaxos C) (r : AcceptRequest C) (c : C) (d : DecideRequest) (xs : List C)
      → r.c ≡ c
      → op.os.log ≡ xs
      → op.os.decided_idx ≡ length xs
      → in_round op r.n ≡ true
      → in_round op d.n ≡ true
      → follows op ≡ true
      → d.dec_idx ≡ length xs + 1
      → Option.map (λ (o : Outcome C). o.0.applied) (decide_handler (accept_handler op r).0 d)
        ≡ some (
            op.applied
            ++ record { command_valid = true; command = c; command_index = length xs } ∷ [])
  unfolding accept_handler decide_handler persist add_to_apply_chan
  takes_next op r c d xs same log dec in_r in_d f to =
      let z : length xs + 1 - length xs ≡ 1 = omega arith in
      ground (arith, apply_one xs [] c, z, length-append xs (c ∷ []))

  -- A leader with log `xs` takes the commands `a` and `c`, and sends an Accept of each to follower
  -- `j`, which has `xs`, all of it decided. If the Accept of `a` is lost, then that of `c`, which says
  -- that it brings entry `length xs + 2`, is put into the follower's log as entry `length xs + 1`; and
  -- when the leader decides `a`, the follower delivers `c` under the index at which the leader has `a`.
  pub skipped_accept :
      (n : Ballot) (l j : ℕ) (ps : Assoc ℕ (Promise C)) (lead lead' lead'' op : OmniPaxos C)
      (a c : C) (out out' : Outbox C) (p p' : Proposed)
      → Leads n l ps lead
      → proposal lead a ≡ some ((lead', out), p)
      → proposal lead' c ≡ some ((lead'', out'), p')
      → j ≢ l
      → entries j ps ≡ 1
      → op.os.log ≡ lead.os.log
      → op.os.decided_idx ≡ length lead.os.log
      → in_round op n ≡ true
      → follows op ≡ true
      → (r : AcceptRequest C) × (ordered_for j out' ≡ append r ∷ [])
        × (r.idx ≡ length lead.os.log + 2)
        × (get_elem? lead''.os.log (length lead.os.log) ≡ some a)
        × (get_elem? lead''.os.log (length lead.os.log + 1) ≡ some c)
        × ((accept_handler op r).0.os.log ≡ lead.os.log ++ c ∷ [])
        × (Option.map
              (λ (o : Outcome C). o.0.applied)
              (decide_handler
                (accept_handler op r).0
                (record { l = l; n = n; dec_idx = length lead.os.log + 1 }))
            ≡ some (
                op.applied
                ++ record { command_valid = true; command = c; command_index = length lead.os.log }
                  ∷ []))
  unfolding accept_handler persist
  skipped_accept n l j ps lead lead' lead'' op a c out out' p p' v e e' ne one log dec round f =
      let first = proposal-Proposes n l ps lead lead' a out p v e in
      let second = proposal-Proposes n l ps lead' lead'' c out' p' first.leads e' in
      let xs = lead.os.log in
      let r = second.request in
      let whole : lead''.os.log ≡ xs ++ a ∷ c ∷ [] =
        second.log ∙ ap (λ ys. ys ++ c ∷ []) first.log ∙ append_assoc xs (a ∷ []) (c ∷ []) in
      let size : length (xs ++ a ∷ []) ≡ length xs + 1 = length-append xs (a ∷ []) in
      let in_r : in_round op r.n ≡ true = rw second.round round in
      let told =
        takes_next op r c (record { l = l; n = n; dec_idx = length xs + 1 }) xs second.carries log
          dec in_r round f refl in
      (
        r,
        second.sends j ne ∙ ap (λ k. replicate k (append r)) one,
        omega (arith, second.place, ap length whole, length-append xs (a ∷ c ∷ [])),
        rw whole (get_elem?-append_self xs (c ∷ []) a),
        rw (second.log, first.log, ← size) (get_elem?-append_self (xs ++ a ∷ []) [] c),
        ground (arith, second.carries),
        told,
      )

  -- The own promise is taken, in whatever order the promises are looked at, if all others are of no
  -- later round and of shorter logs.
  own_is_max :
      (op : OmniPaxos C) (own : Promise C)
      → Given own op.promises
      → positive (compare own.acc_rnd unset_ballot) ≡ true
      → ((p : Promise C)
          → Given p op.promises
          → (p ≡ own) ⊎ (AtMost p.acc_rnd own.acc_rnd × (p.log_idx < own.log_idx)))
      → max_promise op ≡ own
  unfolding max_promise
  own_is_max op own given real less =
      let top = max_promise op in
      let (_, above, source) = max_promise_from_best no_promise op.promises in
      let (up, longer) = above own given in
      elim source [
        | inl e ↦
            let low : AtMost own.acc_rnd (no_promise {C = C}).acc_rnd =
              subst (λ (t : Promise C). AtMost own.acc_rnd t.acc_rnd) e up in
            absurd (ground arith)
        | inr g ↦ elim (less top g) [
          | inl e ↦ e
          | inr (low, short) ↦
              let same = AtMost-antisymm own.acc_rnd top.acc_rnd up low in
              absurd (omega (arith, longer same, short))
        ]
      ]

  adopt_own :
      (op : OmniPaxos C) (own : Promise C)
      → own.acc_rnd ≡ op.os.accepted_rnd
      → op.buffer ≡ []
      → adopt op own ≡ op.os.log ++ own.log
  unfolding adopt
  adopt_own op own e none_waiting = ground (arith, append-nil own.log)

  start_with_own :
      (op : OmniPaxos C) (n : Ballot) (own : Promise C)
      → max_promise op ≡ own
      → own.acc_rnd ≡ op.os.accepted_rnd
      → op.buffer ≡ []
      → op.me < length op.accepted
      → Option.map (λ (o : Outcome C). o.0.os.log) (start_accept op n) ≡ some (op.os.log ++ own.log)
  unfolding start_accept persist
  start_with_own op n own top e b fits = ground (
    arith,
    adopt_own op own e b,
    store_at-some op.accepted op.me (length (adopt op (max_promise op))) fits,
  )

  other_is_less :
      (own p : Promise C)
      → AtMost p.acc_rnd own.acc_rnd
      → p.log_idx < own.log_idx
      → (k i : ℕ) (q : Promise C) → Given q ((k, own) ∷ (i, p) ∷ [])
      → (q ≡ own) ⊎ (AtMost q.acc_rnd own.acc_rnd × (q.log_idx < own.log_idx))
  other_is_less own p low short k i q (inl e) = inl e
  other_is_less own p low short k i q (inr (inl e)) = inr (
      subst (λ (x : Promise C). AtMost x.acc_rnd own.acc_rnd × (x.log_idx < own.log_idx)) (sym e)
        (low, short))
  other_is_less own p low short k i q (inr (inr g)) = absurd g

  trigger_leader-wins :
      (op : OmniPaxos C) (n : Ballot)
      → positive (compare n op.os.promised_rnd) ≡ true
      → (trigger_leader op (pos op.me) n).0 ≡ persist (as_leader op n)
  unfolding trigger_leader
  trigger_leader-wins op n win = ground arith

  majority_of_two :
      (won : OmniPaxos C) (req : PromiseRequest C)
      → req.n ≡ won.current_rnd
      → won.state ≡ record { role = leader; phase = Phase.prepare }
      → quorum won.peers ≡ 2
      → length (record_promise won req).promises ≡ 2
      → promise_handler won req ≡ start_accept (record_promise won req) req.n
  unfolding promise_handler on_promise record_promise
  majority_of_two won req same st two both =
      ground (arith, (compare-eq_zero req.n won.current_rnd).1 same)

  -- A peer of three or four that has accepted a round, wins another one, and gets the first other
  -- promise from a peer that accepted no later round and has a shorter log, appends its own tail to
  -- its log a second time: what it has beyond the decided index stands there twice. The order in which
  -- it looks at the two promises does not matter.
  pub own_tail_twice :
      (op : OmniPaxos C) (req : PromiseRequest C) (ps : Assoc ℕ (Promise C))
      → positive (compare req.n op.os.promised_rnd) ≡ true
      → quorum op.peers ≡ 2
      → req.f ≢ op.me
      → op.me < length op.accepted
      → positive (compare op.os.accepted_rnd unset_ballot) ≡ true
      → positive (compare req.acc_rnd op.os.accepted_rnd) ≡ false
      → req.log_idx < length op.os.log
      → op.os.decided_idx ≤ length op.os.log
      → ((p : Promise C)
          → Given p ps
            ↔ Given p (record_promise (trigger_leader op (pos op.me) req.n).0 req).promises)
      → let op' = record_promise (trigger_leader op (pos op.me) req.n).0 req in
        (promise_handler (trigger_leader op (pos op.me) req.n).0 req ≡ start_accept op' req.n)
        × (Option.map
              (λ (o : Outcome C). o.0.os.log)
              (start_accept (record op' { promises = ps }) req.n)
            ≡ some (op.os.log ++ drop op.os.decided_idx op.os.log))
  unfolding record_promise as_leader own_promise suffix insert persist
  own_tail_twice op req ps win two ne fits real low short decided order =
      let own = own_promise op in
      let won = persist (as_leader op req.n) in
      let op' = record_promise won req in
      let p : Promise C = record {
        f = req.f;
        acc_rnd = req.acc_rnd;
        log_idx = req.log_idx;
        dec_idx = req.dec_idx;
        log = req.sfx;
      } in
      let wins = trigger_leader-wins op req.n win in
      let order' : (q : Promise C) → Given q ps ↔ Given q op'.promises =
        subst
          (λ (w : OmniPaxos C).
            (q : Promise C) → Given q ps ↔ Given q (record_promise w req).promises)
          wins order in
      let both : op'.promises ≡ (op.me, own) ∷ (req.f, p) ∷ [] = ground arith in
      let tail : own.log ≡ drop op.os.decided_idx op.os.log = ground arith in
      let visited = record op' { promises = ps } in
      let has_own : Given own ps = (order' own).1 (rw both (inl refl)) in
      let less : (q : Promise C)
          → Given q ps
          → (q ≡ own) ⊎ (AtMost q.acc_rnd own.acc_rnd × (q.log_idx < own.log_idx)) =
        λ q g. other_is_less own p low short op.me req.f q (rw both at ((order' q).0 g)) in
      let top : max_promise visited ≡ own = own_is_max visited own has_own real less in
      let room : op'.me < length op'.accepted =
        omega (arith, length-replicate {A = ℕ} (length op.accepted) 0) in
      rw wins (
        majority_of_two won req refl refl two (ap length both),
        rw (start_with_own visited req.n own top refl refl room, tail) refl,
      )
