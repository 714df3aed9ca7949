-- ===== src/OmniPaxos/Invariant/Rounds.antt =====
-- A round of the timer keeps the invariant.
use omni_paxos_kv.Prelude.{arith, Bool-cases, inl, inr, insert}
use omni_paxos_kv.OmniPaxos.Ballot.{ballot_eq, Ballot, compare, positive, negative, max}
use omni_paxos_kv.OmniPaxos.Persister.{read_omnipaxos_state}
use omni_paxos_kv.OmniPaxos.Types.{OmniPaxos, Codec}
use omni_paxos_kv.OmniPaxos.Log.{persist, omnipaxos_state_from_bytes}
use omni_paxos_kv.OmniPaxos.Election.{check_leader, candidates}
use omni_paxos_kv.OmniPaxos.Links.{update_missed_hbs_and_reconnect, vote, next_round, timer_round}
use omni_paxos_kv.OmniPaxos.Invariant.{Inv, trigger_leader-Inv}

module _ {C : Type 0} ⦃codec : Codec C⦄ where
  set_leader-Inv :
      (op : OmniPaxos C) (l : Ballot)
      → Inv op
      → Inv (persist (record op { os = record op.os { l = l } }))
  unfolding persist omnipaxos_state_from_bytes read_omnipaxos_state
  set_leader-Inv op l v = ground (arith, codec.decode-encode (record op.os { l = l }))

  pub check_leader-Inv : (op : OmniPaxos C) → Inv op → Inv (check_leader op).0
  unfolding check_leader
  check_leader-Inv op v =
      let top = max (candidates op.ballots) in
      elim (Bool-cases (negative (compare top op.os.l))) [
        | inl e ↦ rw e (record {
          durable = v.durable;
          leads = v.leads;
          ordered = v.ordered;
          sized = v.sized;
          delivered = v.delivered;
        })
        | inr e ↦ elim (Bool-cases (positive (compare top op.os.l))) [
          | inl e' ↦ rw (e, e') (trigger_leader-Inv _ top.pid top (set_leader-Inv op top v))
          | inr e' ↦ rw (e, e') v
        ]
      ]

  vote-Inv : (op : OmniPaxos C) → Inv op → Inv (vote op).0
  unfolding vote
  vote-Inv op v =
      let op' = record op { ballots = insert op.b op.qc op.ballots } in
      let v' : Inv op' = ground arith in ground (arith, check_leader-Inv op' v')

  links-Inv : (op : OmniPaxos C) → Inv op → Inv (update_missed_hbs_and_reconnect op).0
  unfolding update_missed_hbs_and_reconnect
  links-Inv op v = ground arith

  next_round-Inv : (op : OmniPaxos C) → Inv op → Inv (next_round op)
  unfolding next_round
  next_round-Inv op v = ground arith

  pub timer_round-Inv : (op : OmniPaxos C) → Inv op → Inv (timer_round op).0
  unfolding timer_round
  timer_round-Inv op v = next_round-Inv _ (links-Inv _ (vote-Inv op v))
