-- ===== src/OmniPaxos/Election.antt =====
-- a2-omnipaxos/omnipaxos.go: heartbeats, the choice of a leader and the round of `startTimer`.
use omni_paxos_kv.Prelude.{
  range, nat_eq, ℕ, Bool, true, false, not, ◌&&◌, some, List, [], ◌∷◌, map, eqb, if◌then◌else◌,
  length, replicate, ℤ, pos, eqb_ℤ, ◌+ℤ◌, Assoc, insert,
}
use omni_paxos_kv.OmniPaxos.Ballot.{max, ballot_eq, Ballot, compare, positive, negative}
use omni_paxos_kv.OmniPaxos.Types.{
  OmniPaxos, Promise, Phase, leader, follower, Message, Outcome, HbRequest, HbReply, zero_ballot,
  Codec,
}
use omni_paxos_kv.OmniPaxos.Log.{suffix, persist}

unfoldable pub others : ℕ → List ℕ → List ℕ
others me [] = []
others me (p ∷ ps) = if eqb p me then others me ps else p ∷ others me ps

-- the ballots whose server saw a quorum
unfoldable pub candidates : Assoc Ballot Bool → List Ballot
candidates [] = []
candidates ((b, q) ∷ m) = if q then b ∷ candidates m else candidates m

unfoldable pub increment : Ballot → ℤ → Ballot
unfolding ◌+ℤ◌
increment ballot i = record ballot { n = i +ℤ pos 1 }

module _ {C : Type 0} where
  unfoldable pub heart_beat_handler : OmniPaxos C → HbRequest → HbReply
  heart_beat_handler op args = record { rnd = args.rnd; ballot = op.b.n; q = op.qc }

  -- A heartbeat to `p` was sent in round `r`, and `reply` came back.
  unfoldable pub heart_beat_reply : OmniPaxos C → ℕ → ℕ → HbReply → OmniPaxos C
  heart_beat_reply op r p reply =
      if eqb reply.rnd r
      then record op {
        ballots = insert (record { n = reply.ballot; pid = pos p }) reply.q op.ballots;
      }
      else op

  unfoldable pub get_state : OmniPaxos C → ℤ × Bool
  get_state op =
      (op.b.n, elim op.state.role [ leader ↦ eqb_ℤ op.os.l.pid (pos op.me) | follower ↦ false ])

module _ {C : Type 0} ⦃codec : Codec C⦄ where
  unfoldable pub own_promise : OmniPaxos C → Promise C
  unfolding suffix
  own_promise op = record {
    f = op.me;
    acc_rnd = op.os.accepted_rnd;
    log_idx = length op.os.log;
    dec_idx = op.os.decided_idx;
    log = suffix op op.os.decided_idx;
  }

  prepare_to : OmniPaxos C → ℕ → ℕ × Message C
  prepare_to op peer = (
    peer,
    Message.prepare (record {
      l = op.me;
      n = op.current_rnd;
      acc_rnd = op.os.accepted_rnd;
      log_idx = length op.os.log;
      dec_idx = op.os.decided_idx;
    }),
  )

  -- steps 1 to 3 of `triggerLeader`
  unfoldable pub as_leader : OmniPaxos C → Ballot → OmniPaxos C
  unfolding own_promise
  as_leader op n = record op {
    accepted = replicate (length op.accepted) 0;
    promises = insert op.me (own_promise op) [];
    max_prom = some (record { f = 0; acc_rnd = zero_ballot; log_idx = 0; dec_idx = 0; log = [] });
    buffer = [];
    qc = true;
    state = record { role = leader; phase = Phase.prepare };
    current_rnd = n;
    os = record op.os { promised_rnd = n };
  }

  unfoldable pub trigger_leader : OmniPaxos C → ℤ → Ballot → Outcome C
  unfolding as_leader prepare_to others persist
  trigger_leader op s n =
      if not (eqb_ℤ s (pos op.me) && positive (compare n op.os.promised_rnd))
      then (record op { state = record op.state { role = follower } }, [])
      else (let op' = as_leader op n in
          (persist op', map (prepare_to op') (others op.me (range op.peers))))

  unfoldable pub check_leader : OmniPaxos C → Outcome C
  unfolding max candidates increment persist trigger_leader
  check_leader op =
      let top = max (candidates op.ballots) in
      if negative (compare top op.os.l)
      then (record op { b = increment op.b op.os.l.n; qc = true }, [])
      else if positive (compare top op.os.l)
      then trigger_leader (persist (record op { os = record op.os { l = top } })) top.pid top
      else (op, [])
