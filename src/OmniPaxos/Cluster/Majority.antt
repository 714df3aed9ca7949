-- ===== src/OmniPaxos/Cluster/Majority.antt =====
-- What the leader of a round has decided, a majority of the peers has in its log.
use omni_paxos_kv.Prelude.{
  ℕ, ◌+◌, ◌≤◌, ◌≡◌, ◌⊎◌, sym, ap, subst, ◌∙◌, inl, inr, some, [], ◌∷◌, ◌++◌, arith, eqb, Bool-cases,
  Option-cases, length, store_at, length-store_at,
}
use omni_paxos_kv.OmniPaxos.Types.{
  OmniPaxos, Phase, leader, Message, Outbox, AcceptedRequest, HbReply, Codec,
}
use omni_paxos_kv.OmniPaxos.Log.{quorum, add_to_apply_chan, persist}
use omni_paxos_kv.OmniPaxos.Replication.{decided_by_majority}
use omni_paxos_kv.OmniPaxos.Election.{heart_beat_reply}
use omni_paxos_kv.OmniPaxos.Accept.{
  Proposed, advance, append_command, proposal, accept_sync_handler, accept_handler,
  accepted_handler, decide_handler,
}
use omni_paxos_kv.OmniPaxos.Make.{deliver}
use omni_paxos_kv.OmniPaxos.Cluster.{Ordered, sync, append, call}
use omni_paxos_kv.OmniPaxos.Cluster.Loose.{Loose}
use omni_paxos_kv.OmniPaxos.Cluster.Holders.{
  count_holders, count_holders-grows, Bounded, count_accepted-count_holders, Bounded-store_at,
  IsHeld,
}

-- The leader has counted no more than what the peers have; `d` is what was decided at the beginning.
module _ {C : Type 0} (d : ℕ) where
  pub record Counts (h : ℕ → ℕ) (op : OmniPaxos C) : Type 0 where
    pub bounded : Bounded h 0 op.accepted
    pub size : length op.accepted ≡ op.peers
    pub majority :
        (op.os.decided_idx ≡ d) ⊎ (quorum op.peers ≤ count_holders h op.os.decided_idx 0 op.peers)

  pub Counts-grows :
      (h h' : ℕ → ℕ) (op : OmniPaxos C) → ((j : ℕ) → h j ≤ h' j) → Counts h op → Counts h' op
  Counts-grows h h' op le v = record {
    bounded = λ i a e. omega (arith, v.bounded i a e, le (0 + i));
    size = v.size;
    majority = elim v.majority [
      | inl e ↦ inl e
      | inr e ↦ inr (omega (arith, e, count_holders-grows h h' op.os.decided_idx 0 op.peers le))
    ];
  }

  pub Counts-same :
      (h : ℕ → ℕ) (op op' : OmniPaxos C)
      → op'.accepted ≡ op.accepted
      → op'.peers ≡ op.peers
      → op'.os.decided_idx ≡ op.os.decided_idx
      → Counts h op
      → Counts h op'
  Counts-same h op op' accepted peers decided v = record {
    bounded = subst (Bounded h 0) (sym accepted) v.bounded;
    size = ap length accepted ∙ v.size ∙ sym peers;
    majority = elim v.majority [ inl e ↦ inl (decided ∙ e) | inr e ↦ inr (rw (peers, decided) e) ];
  }

module _ {C : Type 0} ⦃codec : Codec C⦄ (d : ℕ) (h : ℕ → ℕ) where
  accepted_stored :
      (op op' : OmniPaxos C) (req : AcceptedRequest) (out : Outbox C)
      → accepted_handler op req ≡ some (op', out)
      → (op'.peers ≡ op.peers)
        × ((op'.accepted ≡ op.accepted)
            ⊎ (store_at op.accepted req.f req.log_idx ≡ some op'.accepted))
  unfolding accepted_handler advance persist add_to_apply_chan
  accepted_stored op op' req out e = ground arith

  accepted-Counts :
      (op op' : OmniPaxos C) (req : AcceptedRequest) (out : Outbox C)
      → accepted_handler op req ≡ some (op', out)
      → req.log_idx ≤ h req.f
      → Counts d h op
      → Counts d h op'
  accepted-Counts op op' req out e held v =
      let (peers, stored) = accepted_stored op op' req out e in
      let bounded : Bounded h 0 op'.accepted = elim stored [
        | inl same ↦ subst (Bounded h 0) (sym same) v.bounded
        | inr at ↦ Bounded-store_at h op.accepted req.f req.log_idx op'.accepted v.bounded at held
      ] in
      let size : length op'.accepted ≡ op'.peers = elim stored [
        | inl same ↦ ap length same ∙ v.size ∙ sym peers
        | inr at ↦
            length-store_at op.accepted req.f req.log_idx op'.accepted at ∙ v.size ∙ sym peers
      ] in
      record {
        bounded = bounded;
        size = size;
        majority = elim (Bool-cases (eqb op'.os.decided_idx op.os.decided_idx)) [
          | inl same ↦
              let t : op'.os.decided_idx ≡ op.os.decided_idx = ground arith in
              elim v.majority [ inl m ↦ inl (t ∙ m) | inr m ↦ inr (rw (peers, t) m) ]
          | inr other ↦
              let (at, lt, enough, role, phase) =
                decided_by_majority op op' req out e (ground arith) in
              let counted = count_accepted-count_holders h req.log_idx 0 op'.accepted bounded in
              inr (rw (at, peers) (omega (arith, enough, rw (size, peers) at counted)))
        ];
      }

  -- A message of the soup at the leader.
  pub heard-Counts :
      (op op' : OmniPaxos C) (m : Message C) (out : Outbox C)
      → op.state.role ≡ leader
      → Loose m
      → IsHeld h m
      → deliver op m ≡ some (op', out)
      → Counts d h op
      → Counts d h op'
  unfolding deliver decide_handler
  heard-Counts op op' (Message.prepare _) out r l held e v = absurd l
  heard-Counts op op' (Message.promise _) out r l held e v = absurd l
  heard-Counts op op' (Message.accept_sync _) out r l held e v = absurd l
  heard-Counts op op' (Message.decide req) out r l held e v =
      let same : op ≡ op' = ground arith in subst (Counts d h) same v
  heard-Counts op op' (Message.accepted req) out r l held e v =
      accepted-Counts op op' req out e held v
  heard-Counts op op' (Message.accept _) out r l held e v = absurd l
  heard-Counts op op' (Message.prepare_req _) out r l held e v = absurd l
  heard-Counts op op' (Message.reconnected _) out r l held e v = absurd l

  pub ignored-Counts :
      (op op' : OmniPaxos C) (m : Ordered C) (out : Outbox C)
      → op.state.role ≡ leader
      → deliver op (call m) ≡ some (op', out)
      → Counts d h op
      → Counts d h op'
  unfolding deliver accept_sync_handler accept_handler
  ignored-Counts op op' (sync req) out r e v =
      let same : op ≡ op' = ground arith in subst (Counts d h) same v
  ignored-Counts op op' (append req) out r e v =
      let same : op ≡ op' = ground arith in subst (Counts d h) same v

  pub answered-Counts :
      (op : OmniPaxos C) (r p : ℕ) (reply : HbReply)
      → Counts d h op
      → Counts d h (heart_beat_reply op r p reply)
  unfolding heart_beat_reply
  answered-Counts op r p reply v =
      Counts-same d h op (heart_beat_reply op r p reply) (ground arith) (ground arith)
        (ground arith) v

  -- The leader counts itself at the length of its log.
  pub proposed-Counts :
      (op op' : OmniPaxos C) (command : C) (out : Outbox C) (p : Proposed)
      → op.state.role ≡ leader
      → op.state.phase ≡ Phase.accept
      → proposal op command ≡ some ((op', out), p)
      → length op'.os.log ≤ h op.me
      → Counts d h op
      → Counts d h op'
  unfolding proposal append_command persist
  proposed-Counts op op' command out p role phase e held v =
      elim (Option-cases (store_at op.accepted op.me (length (op.os.log ++ command ∷ [])))) [
        | inl e' ↦ absurd (ground arith)
        | inr (accepted, at) ↦
            let q = persist (record op {
              os = record op.os { log = op.os.log ++ command ∷ [] };
              accepted = accepted;
            }) in
            let same : q ≡ op' = ground arith in
            let held' : length q.os.log ≤ h op.me =
              omega (arith, held, ap (λ (x : OmniPaxos C). length x.os.log) same) in
            subst (Counts d h) same (record {
              bounded =
                  Bounded-store_at h op.accepted op.me (length q.os.log) accepted v.bounded at
                    held';
              size = length-store_at op.accepted op.me (length q.os.log) accepted at ∙ v.size;
              majority = v.majority;
            })
      ]
