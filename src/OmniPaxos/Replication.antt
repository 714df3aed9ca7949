-- ===== src/OmniPaxos/Replication.antt =====
-- The second phase between a leader and a follower: what is copied, decided and delivered.
use omni_paxos_kv.Prelude.{
  ℕ, ◌+◌, ◌-◌, ◌≤◌, ◌<◌, ◌≡◌, ◌≢◌, sym, ap, ◌∙◌, inl, inr, true, some, none, List, [], ◌∷◌, ◌++◌,
  arith, ltb, leb, Bool-cases, Option-cases, length, take, drop, get_elem?, get_elem?-append_self,
  take-append-drop, length-append, pos, ◌-ℤ◌,
}
use omni_paxos_kv.OmniPaxos.Ballot.{Ballot}
use omni_paxos_kv.OmniPaxos.Types.{
  OmniPaxos, ApplyMsg, Outbox, Phase, leader, follower, Message, AcceptSyncRequest, AcceptedRequest,
  DecideRequest, Codec,
}
use omni_paxos_kv.OmniPaxos.Log.{
  suffix, prefix, persist, add_to_apply_chan, quorum, count_accepted, has_majority_accepted,
}
use omni_paxos_kv.OmniPaxos.Delivery.{
  commands, commands-apply_msgs, add_to_apply_chan-some, apply_msgs-some,
}
use omni_paxos_kv.OmniPaxos.Accept.{
  Proposed, in_round, advance, accept_sync_handler, accepted_handler, decide_handler, proposal,
  append_command,
}

module _ {C : Type 0} ⦃codec : Codec C⦄ where
  -- A follower in the prepare phase of round `n` whose log agrees with the leader's below
  -- `sync_idx`, an index inside both logs, has the leader's log after the leader's AcceptSync, and
  -- reports the length of that log.
  pub accept_sync_copies :
      (lead op : OmniPaxos C) (n : Ballot) (sync_idx : ℕ)
      → in_round op n ≡ true
      → op.state.role ≡ follower
      → op.state.phase ≡ Phase.prepare
      → sync_idx ≤ length lead.os.log
      → sync_idx ≤ length op.os.log
      → take sync_idx op.os.log ≡ take sync_idx lead.os.log
      → let req : AcceptSyncRequest C = record {
        l = lead.me;
        n = n;
        sfx = suffix lead sync_idx;
        sync_idx = sync_idx;
      } in
        ((accept_sync_handler op req).0.os.log ≡ lead.os.log)
        × ((accept_sync_handler op req).1
            ≡ (
              lead.me,
              Message.accepted (record { f = op.me; n = n; log_idx = length lead.os.log }),
            )
              ∷ [])
  unfolding accept_sync_handler suffix prefix persist
  accept_sync_copies lead op n i r role phase h k agree =
      let whole : take i op.os.log ++ drop i lead.os.log ≡ lead.os.log =
        ap (λ (xs : List C). xs ++ drop i lead.os.log) agree ∙ take-append-drop i lead.os.log in
      ground arith

  -- A decision delivers exactly the log's entries from the old decided index up to the new one.
  pub decide_delivers :
      (op op' : OmniPaxos C) (req : DecideRequest) (out : Outbox C)
      → decide_handler op req ≡ some (op', out)
      → op.os.decided_idx < op'.os.decided_idx
      → (ms : List (ApplyMsg C)) × (op'.os.decided_idx ≡ req.dec_idx)
        × (op'.applied ≡ op.applied ++ ms)
        × (take req.dec_idx op.os.log ≡ take op.os.decided_idx op.os.log ++ commands ms)
  unfolding decide_handler persist
  decide_delivers op op' req out h lt =
      let d = op.os.decided_idx in
      elim (Option-cases (add_to_apply_chan op.os.log d req.dec_idx op)) [
        | inl e ↦ absurd (ground arith)
        | inr (q, e) ↦
            let (ms, e', same) = add_to_apply_chan-some op.os.log d req.dec_idx op q e in
            let le : d ≤ req.dec_idx = ground arith in
            let z : d + (req.dec_idx - d) ≡ req.dec_idx = omega arith in
            let all : take req.dec_idx op.os.log ≡ take d op.os.log ++ commands ms =
              ap (λ (k : ℕ). take k op.os.log) (sym z)
              ∙ commands-apply_msgs op.os.log d (req.dec_idx - d) ms e' in
            (ms, ground arith, ground arith, all)
      ]

  decide_handler-ne-none : (op : OmniPaxos C) (req : DecideRequest) → decide_handler op req ≢ none
  unfolding decide_handler add_to_apply_chan
  decide_handler-ne-none op req h = elim (Bool-cases (leb req.dec_idx op.os.decided_idx)) [
    | inl a ↦ ground arith
    | inr a ↦ elim (Bool-cases (ltb (length op.os.log) req.dec_idx)) [
      | inl b ↦ ground arith
      | inr b ↦
          let d = op.os.decided_idx in
          let (ms, e) = apply_msgs-some op.os.log d (req.dec_idx - d) (ground arith) in ground arith
    ]
  ]

  -- A follower never panics on a Decide, whatever index it carries.
  pub decide_handler-total :
      (op : OmniPaxos C) (req : DecideRequest)
      → (op' : OmniPaxos C) × (out : Outbox C) × (decide_handler op req ≡ some (op', out))
  decide_handler-total op req = elim (Option-cases (decide_handler op req)) [
    | inl e ↦ absurd (decide_handler-ne-none op req e)
    | inr (o, e) ↦ (o.0, o.1, e)
  ]

  -- A leader decides only what a majority has accepted: when `AcceptedHandler` changes the decided
  -- index, the new one is the reported length, it is larger, and a majority of the recorded lengths
  -- reach it.
  pub decided_by_majority :
      (op op' : OmniPaxos C) (req : AcceptedRequest) (out : Outbox C)
      → accepted_handler op req ≡ some (op', out)
      → op'.os.decided_idx ≢ op.os.decided_idx
      → (op'.os.decided_idx ≡ req.log_idx)
        × (op.os.decided_idx < req.log_idx)
        × (quorum op.peers ≤ count_accepted req.log_idx op'.accepted)
        × (op.state.role ≡ leader)
        × (op.state.phase ≡ Phase.accept)
  unfolding accepted_handler advance persist add_to_apply_chan has_majority_accepted
  decided_by_majority op op' req out h ne = ground arith

  -- In the accept phase the index that a proposal returns is where the command stands in the log.
  pub proposal_index :
      (op op' : OmniPaxos C) (command : C) (out : Outbox C) (p : Proposed)
      → op.state.role ≡ leader
      → op.state.phase ≡ Phase.accept
      → proposal op command ≡ some ((op', out), p)
      → (p.index ≡ pos (length op.os.log))
        × (op'.os.log ≡ op.os.log ++ command ∷ [])
        × (get_elem? op'.os.log (length op.os.log) ≡ some command)
  unfolding proposal append_command ◌-ℤ◌
  proposal_index op op' command out p role phase h =
      ground
        (arith, get_elem?-append_self op.os.log [] command, length-append op.os.log (command ∷ []))

  -- In the prepare phase it is the index of the last entry that was there already, or -1, and the
  -- command waits in the buffer.
  pub proposal_index_prepare :
      (op op' : OmniPaxos C) (command : C) (out : Outbox C) (p : Proposed)
      → op.state.role ≡ leader
      → op.state.phase ≡ Phase.prepare
      → proposal op command ≡ some ((op', out), p)
      → (p.index ≡ pos (length op.os.log) -ℤ pos 1)
        × (op'.os.log ≡ op.os.log)
        × (op'.buffer ≡ op.buffer ++ command ∷ [])
  unfolding proposal
  proposal_index_prepare op op' command out p role phase h = ground arith
