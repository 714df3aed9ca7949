-- ===== src/OmniPaxos/Make.antt =====
-- a2-omnipaxos/omnipaxos.go: `Make`, which starts a peer from its stable storage, `checkRecover`,
-- and the delivery of a message to its handler.
use omni_paxos_kv.Prelude.{
  range, ℕ, true, false, Option, none, some, [], map, if◌then◌else◌, replicate, pos, negsuc, eqb_ℤ,
  not,
}
use omni_paxos_kv.OmniPaxos.Persister.{Persister}
use omni_paxos_kv.OmniPaxos.Ballot.{Ballot}
use omni_paxos_kv.OmniPaxos.Types.{OmniPaxos, Phase, follower, Message, Outcome, zero_ballot, Codec}
use omni_paxos_kv.OmniPaxos.Log.{read_persist, add_to_apply_chan}
use omni_paxos_kv.OmniPaxos.Prepare.{prepare_handler, prepare_req_handler, reconnected_handler}
use omni_paxos_kv.OmniPaxos.Promise.{promise_handler}
use omni_paxos_kv.OmniPaxos.Accept.{
  accept_sync_handler, decide_handler, accepted_handler, accept_handler,
}

abbrev pub unset_ballot : Ballot
unset_ballot = record { n = negsuc 0; pid = negsuc 0 }

module _ {C : Type 0} where
  -- the fields before `readPersist`
  unfoldable pub fresh : ℕ → ℕ → Persister → OmniPaxos C
  fresh peers me persister = record {
    peers = peers;
    persister = persister;
    me = me;
    current_rnd = zero_ballot;
    promises = [];
    max_prom = none;
    accepted = replicate peers 0;
    buffer = [];
    os = record {
      l = unset_ballot;
      log = [];
      promised_rnd = unset_ballot;
      accepted_rnd = unset_ballot;
      decided_idx = 0;
    };
    r = 0;
    b = record { n = pos 0; pid = pos me };
    qc = true;
    ballots = [];
    state = record { role = follower; phase = Phase.prepare };
    applied = [];
    link_drop = false;
    missed_hb_counts = [];
    restart_loop = 0;
  }

  unfoldable pub check_recover : OmniPaxos C → Outcome C
  check_recover op =
      if not (eqb_ℤ op.os.promised_rnd.pid (negsuc 0))
      then (
        record op { state = record { role = follower; phase = Phase.recover } },
        map (λ p. (p, Message.prepare_req (record { f = op.me }))) (range op.peers),
      )
      else (op, [])

module _ {C : Type 0} ⦃codec : Codec C⦄ where
  unfoldable pub make : ℕ → ℕ → Persister → Option (OmniPaxos C)
  unfolding fresh read_persist
  make peers me persister =
      let op = read_persist (fresh peers me persister) in
      add_to_apply_chan op.os.log 0 op.os.decided_idx op

  -- The handler that a call names.
  unfoldable pub deliver : OmniPaxos C → Message C → Option (Outcome C)
  deliver op (Message.prepare req) = some (prepare_handler op req)
  deliver op (Message.promise req) = promise_handler op req
  deliver op (Message.accept_sync req) = some (accept_sync_handler op req)
  deliver op (Message.decide req) = decide_handler op req
  deliver op (Message.accepted req) = accepted_handler op req
  deliver op (Message.accept req) = some (accept_handler op req)
  deliver op (Message.prepare_req req) = some (prepare_req_handler op req)
  deliver op (Message.reconnected req) = some (reconnected_handler op req)
