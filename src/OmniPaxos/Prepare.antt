-- ===== src/OmniPaxos/Prepare.antt =====
-- a2-omnipaxos/omnipaxos.go: the first phase, from a leader's prepare to the followers' promises,
-- and the requests for a prepare.
use omni_paxos_kv.Prelude.{ℕ, List, [], ◌∷◌, if◌then◌else◌, length, pos, eqb_ℤ}
use omni_paxos_kv.OmniPaxos.Ballot.{compare, positive}
use omni_paxos_kv.OmniPaxos.Types.{
  OmniPaxos, Phase, leader, follower, Message, Outcome, PrepareRequest, PrepareReqRequest,
  ReconnectedRequest, Codec,
}
use omni_paxos_kv.OmniPaxos.Log.{suffix, persist}

module _ {C : Type 0} where
  -- step 4: what the follower has and the leader may lack
  unfoldable pub find_suffix : OmniPaxos C → PrepareRequest → List C
  unfolding suffix
  find_suffix op req =
      if positive (compare op.os.accepted_rnd req.acc_rnd)
      then suffix op req.dec_idx
      else if eqb_ℤ (compare op.os.accepted_rnd req.acc_rnd) (pos 0)
      then suffix op req.log_idx
      else []

  unfoldable pub promise_of : OmniPaxos C → PrepareRequest → ℕ × Message C
  unfolding find_suffix
  promise_of op req = (
    req.l,
    Message.promise (record {
      f = op.me;
      n = req.n;
      acc_rnd = op.os.accepted_rnd;
      log_idx = length op.os.log;
      dec_idx = op.os.decided_idx;
      sfx = find_suffix op req;
    }),
  )

  unfoldable pub reconnected_handler : OmniPaxos C → ReconnectedRequest → Outcome C
  reconnected_handler op req = (
    (if eqb_ℤ (pos req.f) op.os.l.pid
        then record op { state = record { role = follower; phase = Phase.recover } }
        else op),
    (req.f, Message.prepare_req (record { f = op.me })) ∷ [],
  )

  prepare_again : OmniPaxos C → ℕ → ℕ × Message C
  prepare_again op f = (
    f,
    Message.prepare (record {
      l = op.me;
      n = op.current_rnd;
      acc_rnd = op.os.accepted_rnd;
      log_idx = length op.os.log;
      dec_idx = op.os.decided_idx;
    }),
  )

  unfoldable pub prepare_req_handler : OmniPaxos C → PrepareReqRequest → Outcome C
  unfolding prepare_again
  prepare_req_handler op req = elim op.state.role [
    | leader ↦ (op, prepare_again op req.f ∷ [])
    | follower ↦ (op, [])
  ]

module _ {C : Type 0} ⦃codec : Codec C⦄ where
  unfoldable pub prepare_handler : OmniPaxos C → PrepareRequest → Outcome C
  unfolding persist promise_of
  prepare_handler op req =
      if positive (compare op.os.promised_rnd req.n)
      then (op, [])
      else (let op' = record op {
        state = record { role = follower; phase = Phase.prepare };
        os = record op.os { promised_rnd = req.n };
      } in
          (persist op', promise_of op' req ∷ []))
