-- ===== src/OmniPaxos/Links.antt =====
-- a2-omnipaxos/omnipaxos.go: `updateMissedHbsAndReconnect` and one round of `startTimer`.
use omni_paxos_kv.Prelude.{
  range, int_eq, ℕ, ◌+◌, Bool, false, ◌&&◌, List, [], ◌∷◌, ◌++◌, map, leb, ltb, eqb, if◌then◌else◌,
  length, ℤ, pos, negsuc, eqb_ℤ, Assoc, insert, lookup_or,
}
use omni_paxos_kv.OmniPaxos.Ballot.{ballot_eq, Ballot}
use omni_paxos_kv.OmniPaxos.Types.{OmniPaxos, Message, Outbox, Outcome, HbRequest, Codec}
use omni_paxos_kv.OmniPaxos.Log.{quorum}
use omni_paxos_kv.OmniPaxos.Election.{others, check_leader}

-- What the loops of `updateMissedHbsAndReconnect` carry.
pub record Links (C : Type 0) : Type 0 where
  pub counts : Assoc ℤ ℕ
  pub all_missed : List ℕ
  pub out : Outbox C

-- A ballot's process id as an index of `op.peers`.
abbrev pub peer_of : ℤ → ℕ
peer_of (pos p) = p
peer_of (negsuc p) = 0

add_missed : List ℕ → Assoc ℤ ℕ → Assoc ℤ ℕ
add_missed [] counts = counts
add_missed (p ∷ ps) counts = add_missed ps (insert (pos p) (lookup_or 0 (pos p) counts + 1) counts)

module _ {C : Type 0} where
  seen : OmniPaxos C → Ballot → Links C → Links C
  unfolding others
  seen op b k = if eqb_ℤ b.pid (pos op.me) then k else record {
    counts = insert b.pid 0 k.counts;
    all_missed = others (peer_of b.pid) k.all_missed;
    out =
        if ltb 3 (lookup_or 0 b.pid k.counts) && eqb_ℤ (pos op.me) op.os.l.pid
        then k.out ++ (peer_of b.pid, Message.reconnected (record { f = op.me })) ∷ []
        else k.out;
  }

  seen_all : OmniPaxos C → Assoc Ballot Bool → Links C → Links C
  unfolding seen
  seen_all op [] k = k
  seen_all op ((b, q) ∷ bs) k = seen_all op bs (seen op b k)

  prepare_reqs : OmniPaxos C → Outbox C
  prepare_reqs op = map (λ p. (p, Message.prepare_req (record { f = op.me }))) (range op.peers)

  unfoldable pub update_missed_hbs_and_reconnect : OmniPaxos C → Outcome C
  unfolding seen_all add_missed prepare_reqs others
  update_missed_hbs_and_reconnect op =
      let k = seen_all op op.ballots (record {
        counts = op.missed_hb_counts;
        all_missed = others op.me (range op.peers);
        out = [];
      }) in
      let loop = op.restart_loop + 1 in
      (
        record op {
          missed_hb_counts = add_missed k.all_missed k.counts;
          link_drop = eqb (length k.all_missed + 1) op.peers;
          restart_loop = loop;
        },
        (if eqb loop 2 then k.out ++ prepare_reqs op else k.out),
      )

module _ {C : Type 0} ⦃codec : Codec C⦄ where
  -- steps 1 and 2 of a round
  unfoldable pub vote : OmniPaxos C → Outcome C
  unfolding check_leader
  vote op =
      let op' = record op { ballots = insert op.b op.qc op.ballots } in
      if leb (quorum op.peers) (length op'.ballots)
      then check_leader op'
      else (record op' { qc = false }, [])

  -- step 3
  unfoldable pub next_round : OmniPaxos C → OmniPaxos C
  next_round op = record op { ballots = []; r = op.r + 1 }

  -- A round under the lock, with the calls that it makes.
  unfoldable pub timer_round : OmniPaxos C → Outcome C
  unfolding vote update_missed_hbs_and_reconnect next_round
  timer_round op =
      let (voted, out) = vote op in
      let (counted, out') = update_missed_hbs_and_reconnect voted in
      (next_round counted, out ++ out')

-- step 4: the heartbeats that follow
unfoldable pub heartbeats : {C : Type 0} → OmniPaxos C → List (ℕ × HbRequest)
unfolding others
heartbeats op = map (λ p. (p, record { rnd = op.r })) (others op.me (range op.peers))
