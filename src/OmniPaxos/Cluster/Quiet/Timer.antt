-- ===== src/OmniPaxos/Cluster/Quiet/Timer.antt =====
-- A round of the timer that chooses no leader and sends nothing.
use omni_paxos_kv.Prelude.{
  ◌≡◌, refl, ap, inl, inr, not, ◌&&◌, [], insert, length, arith, leb, Bool-cases, pos, eqb_ℤ, ℤ,
}
use omni_paxos_kv.OmniPaxos.Ballot.{ballot_eq, Ballot, compare, positive, negative, max}
use omni_paxos_kv.OmniPaxos.Types.{OmniPaxos, Phase, leader, Codec}
use omni_paxos_kv.OmniPaxos.Log.{persist, quorum}
use omni_paxos_kv.OmniPaxos.Election.{candidates, as_leader, trigger_leader, check_leader}
use omni_paxos_kv.OmniPaxos.Links.{vote, next_round, update_missed_hbs_and_reconnect, timer_round}
use omni_paxos_kv.OmniPaxos.Cluster.Quiet.{Quiet}

-- Nothing changes but the leader's ballot, what belongs to the heartbeats, and the storage.
pub record Untouched {C : Type 0} (op op' : OmniPaxos C) : Type 0 where
  pub me : op'.me ≡ op.me
  pub peers : op'.peers ≡ op.peers
  pub current : op'.current_rnd ≡ op.current_rnd
  pub promised : op'.os.promised_rnd ≡ op.os.promised_rnd
  pub accepted_rnd : op'.os.accepted_rnd ≡ op.os.accepted_rnd
  pub accepted : op'.accepted ≡ op.accepted
  pub promises : op'.promises ≡ op.promises
  pub log : op'.os.log ≡ op.os.log
  pub decided : op'.os.decided_idx ≡ op.os.decided_idx
  pub applied : op'.applied ≡ op.applied

module _ {C : Type 0} ⦃codec : Codec C⦄ where
  trigger_leader-Untouched :
      (op : OmniPaxos C) (s : ℤ) (n : Ballot)
      → (trigger_leader op s n).0.state ≡ op.state
      → (op.state.role ≡ leader → op.state.phase ≡ Phase.accept)
      → Untouched op (trigger_leader op s n).0
  unfolding trigger_leader as_leader persist
  trigger_leader-Untouched op s n same work =
      elim (Bool-cases (not (eqb_ℤ s (pos op.me) && positive (compare n op.os.promised_rnd)))) [
        | inl e ↦ rw e (record {
          me = refl;
          peers = refl;
          current = refl;
          promised = refl;
          accepted_rnd = refl;
          accepted = refl;
          promises = refl;
          log = refl;
          decided = refl;
          applied = refl;
        })
        | inr e ↦
            let same' : record { role = leader; phase = Phase.prepare } ≡ op.state = rw e at same in
            absurd (ground (arith, work))
      ]

  check_leader-Untouched :
      (op : OmniPaxos C)
      → (check_leader op).0.state ≡ op.state
      → (op.state.role ≡ leader → op.state.phase ≡ Phase.accept)
      → Untouched op (check_leader op).0
  unfolding check_leader persist
  check_leader-Untouched op same work =
      let top = max (candidates op.ballots) in
      let voted = persist (record op { os = record op.os { l = top } }) in
      elim (Bool-cases (negative (compare top op.os.l))) [
        | inl e ↦ rw e (record {
          me = refl;
          peers = refl;
          current = refl;
          promised = refl;
          accepted_rnd = refl;
          accepted = refl;
          promises = refl;
          log = refl;
          decided = refl;
          applied = refl;
        })
        | inr e ↦ elim (Bool-cases (positive (compare top op.os.l))) [
          | inl f ↦
              let v = trigger_leader-Untouched voted top.pid top (rw (e, f) at same) work in
              rw (e, f)
                (record {
                  me = v.me;
                  peers = v.peers;
                  current = v.current;
                  promised = v.promised;
                  accepted_rnd = v.accepted_rnd;
                  accepted = v.accepted;
                  promises = v.promises;
                  log = v.log;
                  decided = v.decided;
                  applied = v.applied;
                })
          | inr f ↦
              rw (e, f)
                (record {
                  me = refl;
                  peers = refl;
                  current = refl;
                  promised = refl;
                  accepted_rnd = refl;
                  accepted = refl;
                  promises = refl;
                  log = refl;
                  decided = refl;
                  applied = refl;
                })
        ]
      ]

  pub timer_round-Untouched :
      (op : OmniPaxos C)
      → (timer_round op).0.state ≡ op.state
      → (op.state.role ≡ leader → op.state.phase ≡ Phase.accept)
      → Untouched op (timer_round op).0
  unfolding timer_round vote update_missed_hbs_and_reconnect next_round
  timer_round-Untouched op same work =
      let counted = record op { ballots = insert op.b op.qc op.ballots } in
      elim (Bool-cases (leb (quorum op.peers) (length counted.ballots))) [
        | inl e ↦
            let v = check_leader-Untouched counted (rw e at same) work in
            rw e (record {
              me = v.me;
              peers = v.peers;
              current = v.current;
              promised = v.promised;
              accepted_rnd = v.accepted_rnd;
              accepted = v.accepted;
              promises = v.promises;
              log = v.log;
              decided = v.decided;
              applied = v.applied;
            })
        | inr e ↦ rw e (record {
          me = refl;
          peers = refl;
          current = refl;
          promised = refl;
          accepted_rnd = refl;
          accepted = refl;
          promises = refl;
          log = refl;
          decided = refl;
          applied = refl;
        })
      ]

  pub timer_round-Quiet :
      (op : OmniPaxos C)
      → (timer_round op).0.state ≡ op.state
      → (op.state.role ≡ leader → op.state.phase ≡ Phase.accept)
      → Quiet op (timer_round op).0 []
  timer_round-Quiet op same work =
      let v = timer_round-Untouched op same work in
      record {
        me = v.me;
        state = same;
        current = v.current;
        promised = v.promised;
        accepted = v.accepted_rnd;
        promises = v.promises;
        log = v.log;
        grows = omega (arith, v.decided);
        still = λ p. v.decided;
        delivered = λ d. record {
          inside = omega (arith, v.decided, ap length v.log, d.inside);
          content = rw (v.applied, v.decided, v.log) d.content;
        };
        sends = tt;
      }
