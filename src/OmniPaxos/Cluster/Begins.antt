-- ===== src/OmniPaxos/Cluster/Begins.antt =====
-- The beginning of a round: the leader has a majority of promises and sends its AcceptSyncs.
use omni_paxos_kv.Prelude.{
  ℕ, ◌≤◌, ◌≡◌, ◌≢◌, ◌⊎◌, refl, sym, ap, subst, ◌∙◌, inl, inr, some, [], ◌∷◌, ◌++◌, arith,
  Bool-cases, Option-cases, length, take, drop, take-append_left, take-take, take-append-drop,
  length-append, length-take, store_at, get_elem?, Assoc,
}
use omni_paxos_kv.OmniPaxos.Ballot.{Ballot, ballot_beq}
use omni_paxos_kv.OmniPaxos.Types.{OmniPaxos, Promise, Phase, leader, follower, Outbox, Codec}
use omni_paxos_kv.OmniPaxos.Log.{prefix, persist}
use omni_paxos_kv.OmniPaxos.Delivery.{commands}
use omni_paxos_kv.OmniPaxos.Promise.{max_promise, adopt, sync_all, start_accept}
use omni_paxos_kv.OmniPaxos.Cluster.{Cluster, sync, ordered_for, unordered, Reach}
use omni_paxos_kv.OmniPaxos.Cluster.Quiet.{Delivered}
use omni_paxos_kv.OmniPaxos.Cluster.Round.{entries, Follows}
use omni_paxos_kv.OmniPaxos.Cluster.Steady.{TakesPart, Leads, Inv}
use omni_paxos_kv.OmniPaxos.Cluster.Agreement.{Reach-Inv, agree}
use omni_paxos_kv.OmniPaxos.Cluster.Syncs.{
  promise_from, sync_from, the_sync, ordered_for-outsider, ordered_for-member, unordered-sync_all,
  suffix_of,
}

module _ {C : Type 0} where
  -- A follower that has promised round `n`, and has not heard from the leader since. Its log
  -- and the leader's reach the index of its AcceptSync, and it has decided no more than this.
  pub record Waits (n : Ballot) (j i : ℕ) (op lead : OmniPaxos C) : Type 0 where
    pub me : op.me ≡ j
    pub role : op.state.role ≡ follower
    pub phase : op.state.phase ≡ Phase.prepare
    pub promised : op.os.promised_rnd ≡ n
    pub in_log : i ≤ length op.os.log
    pub in_leader : i ≤ length lead.os.log
    pub decided : op.os.decided_idx ≤ i
    pub delivered : Delivered op

module _ {C : Type 0} ⦃codec : Codec C⦄ (n : Ballot) (l : ℕ) (ps : Assoc ℕ (Promise C)) where
  pub record Begins (s : Cluster C) : Type 0 where
    -- the leader before, which has the promises `ps`, and what it sends
    pub before : OmniPaxos C
    pub out : Outbox C
    pub starts : start_accept before n ≡ some (s.peers l, out)
    pub me : before.me ≡ l
    pub current : before.current_rnd ≡ n
    pub promises : before.promises ≡ ps
    pub delivered : Delivered before
    -- the other peers, of which each has promised once or not at all
    pub once : (j : ℕ) → j ≢ l → (entries j ps ≡ 0) ⊎ (entries j ps ≡ 1)
    pub followers : (j : ℕ) → j ≢ l → (s.peers j).state.role ≡ follower
    pub waiting :
        (j : ℕ) (p : Promise C)
        → j ≢ l
        → entries j ps ≡ 1
        → promise_from j ps ≡ some p
        → Waits n j (sync_from (max_promise before) p) (s.peers j) (s.peers l)
    pub queues : (j : ℕ) → s.queues j ≡ ordered_for j out
    pub soup : s.soup ≡ unordered out

  -- The log of each peer that promised agrees with the leader's up to the index of its AcceptSync.
  abbrev pub LogsAgree : (s : Cluster C) → Begins s → Type 0
  LogsAgree s b =
      (j : ℕ) (p : Promise C)
      → j ≢ l
      → entries j ps ≡ 1
      → promise_from j ps ≡ some p
      → let i = sync_from (max_promise b.before) p in
        take i (s.peers j).os.log ≡ take i (s.peers l).os.log

  -- What is left of the step that begins a round.
  record Started (op op' : OmniPaxos C) (out : Outbox C) : Type 0 where
    leads : Leads n l ps op'
    sends :
        (q : OmniPaxos C) × (q.me ≡ l)
        × (q.os.log ≡ op'.os.log)
        × (out ≡ sync_all q n (max_promise op) ps)

  adopt-keeps :
      (op : OmniPaxos C) (top : Promise C)
      → Delivered op
      → (op.os.decided_idx ≤ length (adopt op top))
        × (take op.os.decided_idx (adopt op top) ≡ take op.os.decided_idx op.os.log)
  unfolding adopt prefix
  adopt-keeps op top v =
      let d = op.os.decided_idx in
      let more = top.log ++ op.buffer in
      let le = v.inside in
      let cut : prefix op d ≡ take d op.os.log = ground arith in
      let size : length (take d op.os.log) ≡ d = omega (arith, length-take d op.os.log, le) in
      elim (Bool-cases (ballot_beq top.acc_rnd op.os.accepted_rnd)) [
        | inl e ↦
            rw e (
              omega (arith, length-append op.os.log more, le),
              take-append_left d op.os.log more le,
            )
        | inr e ↦
            rw (e, cut)
              (
                omega (arith, length-append (take d op.os.log) more, size),
                take-append_left d (take d op.os.log) more (omega (arith, size))
                    ∙ take-take d d op.os.log (omega arith),
              )
      ]

  begun :
      (op op' : OmniPaxos C) (out : Outbox C)
      → start_accept op n ≡ some (op', out)
      → op.me ≡ l
      → op.current_rnd ≡ n
      → op.promises ≡ ps
      → Delivered op
      → Started op op' out
  unfolding start_accept persist
  begun op op' out h me current promises v =
      let top = max_promise op in
      let log = adopt op top in
      elim (Option-cases (store_at op.accepted op.me (length log))) [
        | inl e ↦ absurd (ground arith)
        | inr (accepted, e) ↦
            let q = record op {
              max_prom = some top;
              os = record op.os { log = log; accepted_rnd = op.current_rnd };
              accepted = accepted;
              state = record { role = leader; phase = Phase.accept };
            } in
            let same : persist q ≡ op' = ground arith in
            let same_out : sync_all q n top op.promises ≡ out = ground arith in
            let (inside, kept) = adopt-keeps op top v in
            record {
              leads = subst (Leads n l ps) same (record {
                me = me;
                role = refl;
                phase = refl;
                current = current;
                promises = promises;
                delivered = record { inside = inside; content = v.content ∙ sym kept };
              });
              sends = (
                q,
                me,
                ap (λ (x : OmniPaxos C). x.os.log) same,
                sym same_out ∙ ap (sync_all q n top) promises,
              );
            }
      ]

  pub Begins-Inv : (s : Cluster C) (b : Begins s) → LogsAgree s b → Inv n l ps s
  Begins-Inv s b agrees =
      let v = begun b.before (s.peers l) b.out b.starts b.me b.current b.promises b.delivered in
      let top = max_promise b.before in
      let (q, me, log, sent) = v.sends in
      record {
        leads = v.leads;
        followers = b.followers;
        members = λ j ne one.
            let (p, from, queue) = ordered_for-member j q n top ps one in
            let w = b.waiting j p ne one from in
            let i = sync_from top p in
            let r = the_sync q n i in
            let joined : Follows n l j (s.peers j) (sync r ∷ []) (s.peers l).os.log = record {
              me = w.me;
              role = w.role;
              promised = w.promised;
              ready = (w.phase, refl, me, w.in_log, w.decided, tt);
              replays =
                  ap (λ xs. take i (s.peers j).os.log ++ xs)
                    (suffix_of q (s.peers l).os.log i log w.in_leader)
                  ∙ ap (λ xs. xs ++ drop i (s.peers l).os.log) (agrees j p ne one from)
                  ∙ take-append-drop i (s.peers l).os.log;
              delivered = w.delivered;
            } in
            subst (λ o. Follows n l j (s.peers j) o (s.peers l).os.log)
              (sym (b.queues j ∙ ap (ordered_for j) sent ∙ queue)) joined;
        outsiders = λ j ne none_given.
            b.queues j ∙ ap (ordered_for j) sent ∙ ordered_for-outsider j q n top ps none_given;
        soup = rw (b.soup, sent, unordered-sync_all q n top ps) tt;
      }

  pub Begins-waits :
      (s : Cluster C) (j : ℕ)
      → Begins s
      → j ≢ l
      → entries j ps ≡ 1
      → (s.peers j).state.phase ≡ Phase.prepare
  Begins-waits s j b ne one =
      let (p, from, queue) = ordered_for-member j b.before n (max_promise b.before) ps one in
      (b.waiting j p ne one from).phase

  pub Begins-accepted : (s : Cluster C) → Begins s → (s.peers l).os.accepted_rnd ≡ n
  unfolding start_accept persist
  Begins-accepted s b =
      let op = b.before in
      elim (Option-cases (store_at op.accepted op.me (length (adopt op (max_promise op))))) [
        | inl e ↦ let start = b.starts in absurd (ground arith)
        | inr (accepted, e) ↦
            let start = b.starts in
            let same : op.current_rnd ≡ (s.peers l).os.accepted_rnd = ground arith in
            sym same ∙ b.current
      ]

  -- Nothing but the AcceptSyncs is under way.
  pub Begins-nothing_else : (s : Cluster C) → Begins s → s.soup ≡ []
  Begins-nothing_else s b =
      let v = begun b.before (s.peers l) b.out b.starts b.me b.current b.promises b.delivered in
      let (q, me, log, sent) = v.sends in
      b.soup ∙ ap unordered sent ∙ unordered-sync_all q n (max_promise b.before) ps

-- While one leader stays, the peers agree: no two of the peers that promised, and of them and the
-- leader, ever deliver different commands under one index. This holds from a beginning at which the
-- leader has its majority of promises, one of each peer, and sends its AcceptSyncs; nothing else is
-- under way; each peer that promised waits in the prepare phase of the round, has decided no more than
-- what stands before the index of its AcceptSync, and its log agrees with the leader's up to this
-- index; and what a peer has delivered is the decided part of its log. The code does not see to the
-- agreement of the logs when a follower has missed an Accept before. From there on, the AcceptSyncs
-- and Accepts to a peer arrive in order, each once; Accepted, Decide and replies to heartbeats may come
-- at any time, often or never, and rounds of the timer may come between, if they choose no leader and
-- find no link broken; no promise comes late and no peer restarts.
pub one_leader_agrees :
    {C : Type 0} ⦃codec : Codec C⦄ (n : Ballot) (l : ℕ) (ps : Assoc ℕ (Promise C)) (s t : Cluster C)
    (i j k : ℕ) (c d : C) (b : Begins n l ps s)
    → LogsAgree n l ps s b
    → Reach s t
    → TakesPart l ps i
    → TakesPart l ps j
    → get_elem? (commands (t.peers i).applied) k ≡ some c
    → get_elem? (commands (t.peers j).applied) k ≡ some d
    → c ≡ d
one_leader_agrees n l ps s t i j k c d b same r =
    agree n l ps b.once t i j k c d (Reach-Inv n l ps b.once (Begins-Inv n l ps s b same) r)
