-- ===== src/OmniPaxos/Invariant/Steps.antt =====
-- Every step keeps the invariant, a crash and restart included.
use omni_paxos_kv.Prelude.{
  ℕ, ◌+◌, sym, take, ◌-◌, ◌≡◌, refl, ap, ◌∙◌, some, arith, length-replicate, range, range',
  range'-zero,
}
use omni_paxos_kv.OmniPaxos.Ballot.Order.{AtMost, AtMost-refl}
use omni_paxos_kv.OmniPaxos.Persister.{Persister, make_persister, read_omnipaxos_state}
use omni_paxos_kv.OmniPaxos.Types.{
  OmniPaxos, OmniPaxosState, Message, Codec, zero_state, zero_ballot,
}
use omni_paxos_kv.OmniPaxos.Log.{omnipaxos_state_from_bytes, read_persist}
use omni_paxos_kv.OmniPaxos.Delivery.{
  commands, commands-apply_msgs, indices, indices-apply_msgs, add_to_apply_chan-some,
}
use omni_paxos_kv.OmniPaxos.Make.{make, deliver, fresh}
use omni_paxos_kv.OmniPaxos.Step.{
  Step, delivers, proposes, times, answers, restarts, Reach, here, later, Started,
}
use omni_paxos_kv.OmniPaxos.Invariant.{
  Inv, Keeps, prepare_handler-Inv, prepare_req_handler-Inv, reconnected_handler-Inv,
  accept_sync_handler-Inv, accept_handler-Inv, heart_beat_reply-Inv,
}
use omni_paxos_kv.OmniPaxos.Invariant.Rounds.{timer_round-Inv}
use omni_paxos_kv.OmniPaxos.Invariant.Decisions.{
  decide_handler-Inv, accepted_handler-Inv, promise_handler-Inv, proposal-Inv,
}

module _ {C : Type 0} ⦃codec : Codec C⦄ where
  deliver-Inv : (op : OmniPaxos C) (m : Message C) → Inv op → Keeps Inv (deliver op m)
  unfolding deliver
  deliver-Inv op (Message.prepare req) v = prepare_handler-Inv op req v
  deliver-Inv op (Message.promise req) v = promise_handler-Inv op req v
  deliver-Inv op (Message.accept_sync req) v = accept_sync_handler-Inv op req v
  deliver-Inv op (Message.decide req) v = decide_handler-Inv op req v
  deliver-Inv op (Message.accepted req) v = accepted_handler-Inv op req v
  deliver-Inv op (Message.accept req) v = accept_handler-Inv op req v
  deliver-Inv op (Message.prepare_req req) v = prepare_req_handler-Inv op req v
  deliver-Inv op (Message.reconnected req) v = reconnected_handler-Inv op req v

  -- What is in storage, as `readPersist` reads it.
  abbrev pub stored : Persister → OmniPaxosState C
  stored ps = omnipaxos_state_from_bytes (read_omnipaxos_state ps)

  -- A peer that starts has what was stored, has sent the decided entries again, and obeys `Inv`.
  pub make-Inv :
      (n me : ℕ) (ps : Persister) (op : OmniPaxos C)
      → make n me ps ≡ some op
      → AtMost (stored ps).accepted_rnd (stored ps).promised_rnd
      → Inv op
        × (op.os ≡ stored ps)
        × (commands op.applied ≡ take (stored ps).decided_idx (stored ps).log)
  unfolding make
  make-Inv n me ps op h le =
      let start = read_persist (fresh n me ps) in
      let d = (stored ps).decided_idx in
      let log = (stored ps).log in
      let (ms, e, same) = add_to_apply_chan-some log 0 d start op h in
      let z : d - 0 ≡ d = omega arith in
      let whole : 0 + (d - 0) ≡ d = omega arith in
      let all : indices ms ≡ range d =
        indices-apply_msgs log 0 (d - 0) ms e ∙ ap (range' 0) z ∙ range'-zero d in
      rw same (
        record {
          durable = refl;
          leads = λ lead. cc;
          ordered = le;
          sized = length-replicate n 0;
          delivered = all;
        },
        refl,
        sym (commands-apply_msgs log 0 (d - 0) ms e) ∙ ap (λ (k : ℕ). take k log) whole,
      )

  -- Every step, whatever arrives, keeps the invariant.
  pub Step-Inv : {s t : OmniPaxos C} → Step s t → Inv s → Inv t
  Step-Inv {s} (delivers m out h) v = rw h at (deliver-Inv s m v)
  Step-Inv {s} {t} (proposes c out p h) v = proposal-Inv s t c out p h v
  Step-Inv {s} (times out h) v = rw h at (timer_round-Inv s v)
  Step-Inv {s} (answers r p reply h) v = rw h at (heart_beat_reply-Inv s r p reply v)
  Step-Inv {s} {t} (restarts h) v =
      (make-Inv s.peers s.me s.persister t h (rw v.durable v.ordered)).0

  stored-nil : stored make_persister ≡ zero_state
  unfolding omnipaxos_state_from_bytes read_omnipaxos_state make_persister
  stored-nil = rw codec.decode-nil

  pub Started-Inv : (op : OmniPaxos C) → Started op → Inv op
  Started-Inv op (n, me, h) =
      (make-Inv n me make_persister op h (rw stored-nil (AtMost-refl zero_ballot))).0

  -- At all times: the storage holds the durable state, a leader's round is the one that it promised,
  -- the accepted round is not above the promised one, `accepted` has a place for each peer, and the
  -- indices sent to the service are 0, 1, and so on up to the decided index, each once.
  pub Reach-Inv : {s t : OmniPaxos C} → Started s → Reach s t → Inv t
  Reach-Inv {s} st here = Started-Inv s st
  Reach-Inv st (later r step) = Step-Inv step (Reach-Inv st r)

  -- After a crash at any time the restarted peer has the durable state from before the crash, and
  -- it sends the entries of the log below the decided index to the service again: these commands, in
  -- the order of the log, each once and under its index.
  pub restart_restores :
      {s t : OmniPaxos C} (u : OmniPaxos C)
      → Started s
      → Reach s t
      → make t.peers t.me t.persister ≡ some u
      → (u.os ≡ t.os)
        × (indices u.applied ≡ range t.os.decided_idx)
        × (commands u.applied ≡ take t.os.decided_idx t.os.log)
  restart_restores {s} {t} u st r h =
      let v = Reach-Inv st r in
      let (w, same, sent) = make-Inv t.peers t.me t.persister u h (rw v.durable v.ordered) in
      let os : u.os ≡ t.os = same ∙ v.durable in
      (
        os,
        w.delivered ∙ ap (λ (o : OmniPaxosState C). range o.decided_idx) os,
        sent ∙ ap (λ (o : OmniPaxosState C). take o.decided_idx o.log) v.durable,
      )
