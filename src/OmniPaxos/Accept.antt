-- ===== src/OmniPaxos/Accept.antt =====
-- a2-omnipaxos/omnipaxos.go: the second phase. Proposals, their replication and the decisions.
use omni_paxos_kv.Prelude.{
  ℕ, Bool, true, false, not, ◌&&◌, ◌||◌, Option, some, [], ◌∷◌, ◌++◌, ltb, leb, eqb, if◌then◌else◌,
  ◌>>=◌, length, store_at, ℤ, pos, negsuc, eqb_ℤ, ◌-ℤ◌, Assoc,
}
use omni_paxos_kv.OmniPaxos.Ballot.{Ballot, compare}
use omni_paxos_kv.OmniPaxos.Types.{
  OmniPaxos, Promise, Role, Phase, leader, follower, Message, Outbox, Outcome, AcceptSyncRequest,
  DecideRequest, AcceptedRequest, AcceptRequest, Codec,
}
use omni_paxos_kv.OmniPaxos.Log.{prefix, persist, add_to_apply_chan, has_majority_accepted}

abbrev pub is_leader : Role → Bool
is_leader leader = true
is_leader follower = false

abbrev pub is_prepare : Phase → Bool
is_prepare Phase.prepare = true
is_prepare Phase.accept = false
is_prepare Phase.recover = false

abbrev pub is_accept : Phase → Bool
is_accept Phase.prepare = false
is_accept Phase.accept = true
is_accept Phase.recover = false

-- The guards of the handlers: the round is the promised one, and role and phase fit.
abbrev pub in_round : {C : Type 0} → OmniPaxos C → Ballot → Bool
in_round op n = eqb_ℤ (compare op.os.promised_rnd n) (pos 0)

abbrev pub follows : {C : Type 0} → OmniPaxos C → Bool
follows op = not (is_leader op.state.role) && is_accept op.state.phase

module _ {C : Type 0} where
  unfoldable pub accept_to : OmniPaxos C → C → Assoc ℕ (Promise C) → Outbox C
  accept_to op command [] = []
  accept_to op command ((_, p) ∷ ps) =
      let rest = accept_to op command ps in
      if eqb p.f op.me
      then rest
      else (
        p.f,
        Message.accept
            (record { l = op.me; n = op.current_rnd; idx = length op.os.log; c = command }),
      )
        ∷ rest

  unfoldable pub decide_to : OmniPaxos C → Assoc ℕ (Promise C) → Outbox C
  decide_to op [] = []
  decide_to op ((_, p) ∷ ps) =
      (p.f, Message.decide (record { l = op.me; n = op.current_rnd; dec_idx = op.os.decided_idx }))
      ∷ decide_to op ps

-- What `Proposal` returns: index, ballot and whether this peer believes it is the leader.
pub record Proposed : Type 0 where
  pub index : ℤ
  pub ballot : ℤ
  pub is_leader : Bool

module _ {C : Type 0} ⦃codec : Codec C⦄ where
  abbrev pub believes : OmniPaxos C → Bool
  believes op = is_leader op.state.role && eqb_ℤ op.os.l.pid (pos op.me)

  -- `len(op.os.Log) - 1` and the ballot
  unfoldable pub proposed : OmniPaxos C → Bool → Proposed
  unfolding ◌-ℤ◌
  proposed op lead = record {
    index = pos (length op.os.log) -ℤ pos 1;
    ballot = op.os.l.n;
    is_leader = lead;
  }

  unfoldable pub append_command : OmniPaxos C → C → Option (Outcome C)
  unfolding persist accept_to
  append_command op command =
      let log = op.os.log ++ command ∷ [] in
      do
        accepted ← store_at op.accepted op.me (length log)
        let op' = persist (record op { os = record op.os { log = log }; accepted = accepted })
        some (op', accept_to op' command op.promises)

  unfoldable pub proposal : OmniPaxos C → C → Option (Outcome C × Proposed)
  unfolding proposed
  proposal op command =
      if is_leader op.state.role && is_prepare op.state.phase
      then some ((record op { buffer = op.buffer ++ command ∷ [] }, []), proposed op (believes op))
      else if is_leader op.state.role && is_accept op.state.phase
      then (do
        (op', out) ← append_command op command
        some ((op', out), proposed op' (believes op)))
      else some ((op, []), record { index = negsuc 0; ballot = negsuc 0; is_leader = believes op })

  unfoldable pub accept_sync_handler : OmniPaxos C → AcceptSyncRequest C → Outcome C
  unfolding prefix persist
  accept_sync_handler op req =
      if not (in_round op req.n) || not (not (is_leader op.state.role) && is_prepare op.state.phase)
      then (op, [])
      else (let op' = persist (record op {
        state = record { role = follower; phase = Phase.accept };
        os = record op.os { accepted_rnd = req.n; log = prefix op req.sync_idx ++ req.sfx };
      }) in
          (
            op',
            (req.l, Message.accepted (record { f = op.me; n = req.n; log_idx = length op'.os.log }))
                ∷ [],
          ))

  unfoldable pub decide_handler : OmniPaxos C → DecideRequest → Option (Outcome C)
  decide_handler op req =
      if leb req.dec_idx op.os.decided_idx
      then some (op, [])
      else if ltb (length op.os.log) req.dec_idx
      then some (op, [])
      else if in_round op req.n && follows op
      then (do
        op' ← add_to_apply_chan op.os.log op.os.decided_idx req.dec_idx op
        some (persist (record op' { os = record op'.os { decided_idx = req.dec_idx } }), []))
      else some (op, [])

  -- step 3 of `AcceptedHandler`
  unfoldable pub advance : OmniPaxos C → ℕ → Option (Outcome C)
  unfolding decide_to
  advance op log_idx =
      if ltb op.os.decided_idx log_idx && has_majority_accepted log_idx op
      then (do
        op' ← add_to_apply_chan op.os.log op.os.decided_idx log_idx op
        let op'' = persist (record op' { os = record op'.os { decided_idx = log_idx } })
        some (op'', decide_to op'' op.promises))
      else some (op, [])

  unfoldable pub accepted_handler : OmniPaxos C → AcceptedRequest → Option (Outcome C)
  accepted_handler op req =
      if not (in_round op req.n) || not (is_leader op.state.role && is_accept op.state.phase)
      then some (op, [])
      else (do
        accepted ← store_at op.accepted req.f req.log_idx
        advance (record op { accepted = accepted }) req.log_idx)

  unfoldable pub accept_handler : OmniPaxos C → AcceptRequest C → Outcome C
  unfolding persist
  accept_handler op req =
      if not (in_round op req.n) || not (follows op)
      then (op, [])
      else (let op' = persist (record op { os = record op.os { log = op.os.log ++ req.c ∷ [] } }) in
          (
            op',
            (req.l, Message.accepted (record { f = op.me; n = req.n; log_idx = length op'.os.log }))
                ∷ [],
          ))
