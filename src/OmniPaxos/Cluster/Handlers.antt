-- ===== src/OmniPaxos/Cluster/Handlers.antt =====
-- What a proposal does at the leader of a round, and a message of the queue at a follower.
use omni_paxos_kv.Prelude.{
  ℕ, ◌+◌, ◌≡◌, ◌≢◌, refl, sym, ap, subst, ◌∙◌, inl, inr, true, false, some, List, [], ◌∷◌, ◌++◌,
  arith, eqb, Bool-cases, Option-cases, length, take, take-take, take-append_left, length-append,
  length-take, replicate, store_at, pos, Assoc,
}
use omni_paxos_kv.OmniPaxos.Ballot.{Ballot, compare}
use omni_paxos_kv.OmniPaxos.Types.{
  OmniPaxos, Promise, Phase, follower, Outbox, AcceptRequest, Codec,
}
use omni_paxos_kv.OmniPaxos.Log.{prefix, persist}
use omni_paxos_kv.OmniPaxos.Accept.{
  Proposed, in_round, accept_to, append_command, proposal, accept_sync_handler, accept_handler,
}
use omni_paxos_kv.OmniPaxos.Make.{deliver}
use omni_paxos_kv.OmniPaxos.Cluster.{Ordered, sync, append, call, ordered_for, unordered}
use omni_paxos_kv.OmniPaxos.Cluster.Loose.{AllLoose}
use omni_paxos_kv.OmniPaxos.Cluster.Round.{replay, entries, AllAccepts, Ready, Follows}
use omni_paxos_kv.OmniPaxos.Cluster.Steady.{Leads}

module _ {C : Type 0} where
  abbrev the_accept : OmniPaxos C → C → AcceptRequest C
  the_accept op command = record {
    l = op.me;
    n = op.current_rnd;
    idx = length op.os.log;
    c = command;
  }

  ordered_for-accept_to :
      (j : ℕ) (op : OmniPaxos C) (command : C) (ps : Assoc ℕ (Promise C))
      → op.me ≢ j
      → ordered_for j (accept_to op command ps)
        ≡ replicate (entries j ps) (append (the_accept op command))
  unfolding accept_to
  ordered_for-accept_to j op command [] ne = refl
  ordered_for-accept_to j op command ((k, p) ∷ ps) ne =
      let rest = ordered_for-accept_to j op command ps ne in
      elim (Bool-cases (eqb p.f op.me)) [
        | inl e ↦ let other : eqb p.f j ≡ false = ground arith in rw (e, other) rest
        | inr e ↦ elim (Bool-cases (eqb p.f j)) [
          | inl f ↦ rw (e, f) (ap (◌∷◌ (append (the_accept op command))) rest)
          | inr f ↦ rw (e, f) rest
        ]
      ]

  unordered-accept_to :
      (op : OmniPaxos C) (command : C) (ps : Assoc ℕ (Promise C))
      → unordered (accept_to op command ps) ≡ []
  unfolding accept_to
  unordered-accept_to op command [] = refl
  unordered-accept_to op command ((k, p) ∷ ps) = ground (arith, unordered-accept_to op command ps)

pub compare_self : (n : Ballot) → compare n n ≡ pos 0
unfolding compare
compare_self n = ground arith

module _ {C : Type 0} ⦃codec : Codec C⦄ (n : Ballot) (l : ℕ) (ps : Assoc ℕ (Promise C)) where
  -- What a proposal at the leader leaves and sends.
  pub record Proposes (op op' : OmniPaxos C) (command : C) (out : Outbox C) : Type 0 where
    pub leads : Leads n l ps op'
    pub log : op'.os.log ≡ op.os.log ++ command ∷ []
    pub accepted : op'.os.accepted_rnd ≡ op.os.accepted_rnd
    pub request : AcceptRequest C
    pub round : request.n ≡ n
    pub from : request.l ≡ l
    pub carries : request.c ≡ command
    pub place : request.idx ≡ length op'.os.log
    pub sends : (j : ℕ) → j ≢ l → ordered_for j out ≡ replicate (entries j ps) (append request)
    pub quiet : unordered out ≡ []

  pub proposal-Proposes :
      (op op' : OmniPaxos C) (command : C) (out : Outbox C) (p : Proposed)
      → Leads n l ps op
      → proposal op command ≡ some ((op', out), p)
      → Proposes op op' command out
  unfolding proposal append_command persist
  proposal-Proposes op op' command out p v h =
      let log = op.os.log ++ command ∷ [] in
      elim (Option-cases (store_at op.accepted op.me (length log))) [
        | inl e ↦ absurd (ground (arith, v.role, v.phase))
        | inr (accepted, e) ↦
            let q = persist (record op { os = record op.os { log = log }; accepted = accepted }) in
            let same : q ≡ op' = ground (arith, v.role, v.phase) in
            let same_out : accept_to q command op.promises ≡ out =
              ground (arith, v.role, v.phase) in
            let me : op.me ≡ l = v.me in
            let size : length log ≡ length op.os.log + 1 = length-append op.os.log (command ∷ []) in
            let made : Proposes op q command (accept_to q command op.promises) = record {
              leads = record {
                me = v.me;
                role = v.role;
                phase = v.phase;
                current = v.current;
                promises = v.promises;
                delivered = record {
                  inside = omega (arith, size, v.delivered.inside);
                  content =
                      v.delivered.content
                      ∙ sym (
                          take-append_left op.os.decided_idx op.os.log (command ∷ [])
                            v.delivered.inside);
                };
              };
              log = refl;
              accepted = refl;
              request = the_accept q command;
              round = v.current;
              from = v.me;
              carries = refl;
              place = refl;
              sends = λ j ne.
                  ordered_for-accept_to j q command op.promises (λ e. ne (sym e ∙ me))
                  ∙ ap (λ ps. replicate (entries j ps) (append (the_accept q command))) v.promises;
              quiet = unordered-accept_to q command op.promises;
            } in
            subst (λ o. Proposes op op' command o) same_out
              (subst (λ x. Proposes op x command (accept_to q command op.promises)) same made)
      ]

  -- The queue behind its first message.
  joined :
      (op : OmniPaxos C) (q : List (Ordered C))
      → op.state.phase ≡ Phase.accept
      → AllAccepts n l q
      → Ready n l op q
  joined op [] p v = p
  joined op (append r ∷ q) p (a, b, v) = (p, a, b, v)
  joined op (sync r ∷ q) p v = absurd v

  pub received-Follows :
      (j : ℕ) (op op' : OmniPaxos C) (m : Ordered C) (q : List (Ordered C)) (log : List C)
      (out : Outbox C)
      → Follows n l j op (m ∷ q) log
      → deliver op (call m) ≡ some (op', out)
      → Follows n l j op' q log × AllLoose out
  unfolding deliver accept_handler accept_sync_handler persist prefix
  received-Follows j op op' (append r) q log out v h =
      let (phase, round, from, rest) = v.ready in
      let in_it : in_round op r.n ≡ true = ground (arith, v.promised, compare_self n) in
      let longer = op.os.log ++ r.c ∷ [] in
      let x = persist (record op { os = record op.os { log = longer } }) in
      let same : x ≡ op' = ground (arith, v.role, phase) in
      let sent : AllLoose out = ground (arith, v.role, phase) in
      let made : Follows n l j x q log = record {
        me = v.me;
        role = v.role;
        promised = v.promised;
        ready = joined x q phase rest;
        replays = v.replays;
        delivered = record {
          inside = omega (arith, length-append op.os.log (r.c ∷ []), v.delivered.inside);
          content =
              v.delivered.content
              ∙ sym (take-append_left op.os.decided_idx op.os.log (r.c ∷ []) v.delivered.inside);
        };
      } in
      (subst (λ y. Follows n l j y q log) same made, sent)
  received-Follows j op op' (sync r) q log out v h =
      let (phase, round, from, inside, keeps, rest) = v.ready in
      let in_it : in_round op r.n ≡ true = ground (arith, v.promised, compare_self n) in
      let short = take r.sync_idx op.os.log in
      let x = persist (record op {
        state = record { role = follower; phase = Phase.accept };
        os = record op.os { accepted_rnd = r.n; log = prefix op r.sync_idx ++ r.sfx };
      }) in
      let cut : prefix op r.sync_idx ≡ short = ground (arith, inside) in
      let same : x ≡ op' = ground (arith, v.role, phase) in
      let sent : AllLoose out = ground (arith, v.role, phase) in
      let size : length short ≡ r.sync_idx =
        omega (arith, length-take r.sync_idx op.os.log, inside) in
      let made : Follows n l j x q log = record {
        me = v.me;
        role = refl;
        promised = v.promised;
        ready = joined x q refl rest;
        replays = ap (λ xs. replay (xs ++ r.sfx) q) cut ∙ v.replays;
        delivered = record {
          inside =
              omega (arith, ap length cut, length-append (prefix op r.sync_idx) r.sfx, size, keeps);
          content =
              v.delivered.content
              ∙ sym (take-take op.os.decided_idx r.sync_idx op.os.log keeps)
              ∙ sym (take-append_left op.os.decided_idx short r.sfx (omega (arith, size, keeps)))
              ∙ sym (ap (λ xs. take op.os.decided_idx (xs ++ r.sfx)) cut);
        };
      } in
      (subst (λ y. Follows n l j y q log) same made, sent)
