-- ===== src/OmniPaxos/Invariant/Growth.antt =====
-- What never goes back in the life of a peer: the promised round, the leader and the decided index.
use omni_paxos_kv.Prelude.{
  ℕ, ◌≤◌, ◌≡◌, refl, inl, inr, true, some, ◌∙◌, arith, Option-cases, insert, ℤ,
}
use omni_paxos_kv.OmniPaxos.Ballot.{ballot_eq, Ballot, compare, positive, max}
use omni_paxos_kv.OmniPaxos.Ballot.Order.{AtMost, AtMost-refl, AtMost-trans, AtMost-of_positive}
use omni_paxos_kv.OmniPaxos.Types.{
  OmniPaxos, OmniPaxosState, Outbox, HbReply, Phase, Message, PrepareRequest, PromiseRequest,
  DecideRequest, AcceptedRequest, AcceptSyncRequest, AcceptRequest, Codec,
}
use omni_paxos_kv.OmniPaxos.Log.{persist, add_to_apply_chan}
use omni_paxos_kv.OmniPaxos.Election.{heart_beat_reply, trigger_leader, check_leader, candidates}
use omni_paxos_kv.OmniPaxos.Links.{update_missed_hbs_and_reconnect, vote, next_round, timer_round}
use omni_paxos_kv.OmniPaxos.Prepare.{prepare_handler, prepare_req_handler, reconnected_handler}
use omni_paxos_kv.OmniPaxos.Promise.{
  start_accept, late_promise, on_promise, promise_handler, record_promise,
}
use omni_paxos_kv.OmniPaxos.Accept.{
  Proposed, advance, proposal, append_command, decide_handler, accepted_handler,
  accept_sync_handler, accept_handler,
}
use omni_paxos_kv.OmniPaxos.Make.{deliver}
use omni_paxos_kv.OmniPaxos.Step.{
  Step, delivers, proposes, times, answers, restarts, Reach, here, later, Started, Reach-trans,
}
use omni_paxos_kv.OmniPaxos.Invariant.{Inv, Keeps}
use omni_paxos_kv.OmniPaxos.Invariant.Steps.{make-Inv, Reach-Inv}

pub record Grows {C : Type 0} (a b : OmniPaxosState C) : Type 0 where
  pub promised : AtMost a.promised_rnd b.promised_rnd
  pub leads : AtMost a.l b.l
  pub decided : a.decided_idx ≤ b.decided_idx

module _ {C : Type 0} where
  Grows-refl : (a : OmniPaxosState C) → Grows a a
  Grows-refl a = record {
    promised = AtMost-refl a.promised_rnd;
    leads = AtMost-refl a.l;
    decided = omega arith;
  }

  Grows-trans : (a b c : OmniPaxosState C) → Grows a b → Grows b c → Grows a c
  Grows-trans a b c g h = record {
    promised = AtMost-trans a.promised_rnd b.promised_rnd c.promised_rnd g.promised h.promised;
    leads = AtMost-trans a.l b.l c.l g.leads h.leads;
    decided = omega arith;
  }

module _ {C : Type 0} ⦃codec : Codec C⦄ (op : OmniPaxos C) where
  abbrev After : OmniPaxos C → Type 0
  After op' = Grows op.os op'.os

  same : After op
  same = Grows-refl op.os

  prepare_handler-Grows : (req : PrepareRequest) → After (prepare_handler op req).0
  unfolding prepare_handler persist
  prepare_handler-Grows req = ground (arith, same)

  accept_sync_handler-Grows : (req : AcceptSyncRequest C) → After (accept_sync_handler op req).0
  unfolding accept_sync_handler persist
  accept_sync_handler-Grows req = ground (arith, same)

  accept_handler-Grows : (req : AcceptRequest C) → After (accept_handler op req).0
  unfolding accept_handler persist
  accept_handler-Grows req = ground (arith, same)

  decide_handler-Grows : (req : DecideRequest) → Keeps After (decide_handler op req)
  unfolding decide_handler persist add_to_apply_chan
  decide_handler-Grows req = ground (arith, same)

  advance-Grows : (log_idx : ℕ) → Keeps After (advance op log_idx)
  unfolding advance persist add_to_apply_chan
  advance-Grows log_idx = ground (arith, same)

  start_accept-Grows : (n : Ballot) → Keeps After (start_accept op n)
  unfolding start_accept persist
  start_accept-Grows n = ground (arith, same)

  late_promise-Grows : (req : PromiseRequest C) → Keeps After (late_promise op req)
  unfolding late_promise persist
  late_promise-Grows req = ground (arith, same)

  append_command-Grows : (command : C) → Keeps After (append_command op command)
  unfolding append_command
  append_command-Grows command = ground (arith, same)

  trigger_leader-Grows : (s : ℤ) (n : Ballot) → After (trigger_leader op s n).0
  unfolding trigger_leader
  trigger_leader-Grows s n = ground (arith, same, AtMost-of_positive n op.os.promised_rnd)

  accepted_handler-Grows : (req : AcceptedRequest) → Keeps After (accepted_handler op req)
  unfolding accepted_handler advance persist add_to_apply_chan
  accepted_handler-Grows req = ground (arith, same)

  on_promise-Grows : (ph : Phase) (req : PromiseRequest C) → Keeps After (on_promise ph op req)
  unfolding on_promise persist
  on_promise-Grows Phase.prepare req = ground (arith, same, start_accept-Grows req.n)
  on_promise-Grows Phase.accept req = late_promise-Grows req
  on_promise-Grows Phase.recover req = same

module _ {C : Type 0} ⦃codec : Codec C⦄ (op : OmniPaxos C) where
  promise_handler-Grows : (req : PromiseRequest C) → Keeps (After op) (promise_handler op req)
  unfolding promise_handler record_promise
  promise_handler-Grows req =
      ground (arith, same op, on_promise-Grows (record_promise op req) op.state.phase req)

  check_leader-Grows : After op (check_leader op).0
  unfolding check_leader persist
  check_leader-Grows =
      let top = max (candidates op.ballots) in
      let op' = persist (record op { os = record op.os { l = top } }) in
      ground (
        arith,
        same op,
        AtMost-of_positive top op.os.l,
        λ (h : positive (compare top op.os.l) ≡ true).
            Grows-trans op.os op'.os (trigger_leader op' top.pid top).0.os
              (record {
                promised = AtMost-refl op.os.promised_rnd;
                leads = AtMost-of_positive top op.os.l h;
                decided = omega arith;
              })
              (trigger_leader-Grows op' top.pid top),
      )

module _ {C : Type 0} ⦃codec : Codec C⦄ (op : OmniPaxos C) where
  vote-Grows : After op (vote op).0
  unfolding vote
  vote-Grows =
      ground
        (arith, same op, check_leader-Grows (record op { ballots = insert op.b op.qc op.ballots }))

  os-timer_round : (timer_round op).0.os ≡ (vote op).0.os
  unfolding timer_round update_missed_hbs_and_reconnect next_round
  os-timer_round = refl

  proposal-Grows :
      (op' : OmniPaxos C) (command : C) (out : Outbox C) (p : Proposed)
      → proposal op command ≡ some ((op', out), p)
      → After op op'
  unfolding proposal
  proposal-Grows op' command out p h = elim (Option-cases (append_command op command)) [
    | inl e ↦ ground (arith, same op)
    | inr ((q, out'), e) ↦ ground (arith, same op, append_command-Grows op command)
  ]

  deliver-Grows : (m : Message C) → Keeps (After op) (deliver op m)
  unfolding deliver prepare_req_handler reconnected_handler
  deliver-Grows (Message.prepare req) = prepare_handler-Grows op req
  deliver-Grows (Message.promise req) = promise_handler-Grows op req
  deliver-Grows (Message.accept_sync req) = accept_sync_handler-Grows op req
  deliver-Grows (Message.decide req) = decide_handler-Grows op req
  deliver-Grows (Message.accepted req) = accepted_handler-Grows op req
  deliver-Grows (Message.accept req) = accept_handler-Grows op req
  deliver-Grows (Message.prepare_req req) = ground (arith, same op)
  deliver-Grows (Message.reconnected req) = ground (arith, same op)

  heart_beat_reply-Grows : (r p : ℕ) (reply : HbReply) → After op (heart_beat_reply op r p reply)
  unfolding heart_beat_reply
  heart_beat_reply-Grows r p reply = ground (arith, same op)

module _ {C : Type 0} ⦃codec : Codec C⦄ where
  Step-Grows : {s t : OmniPaxos C} → Step s t → Inv s → Grows s.os t.os
  Step-Grows {s} (delivers m out h) v = rw h at (deliver-Grows s m)
  Step-Grows {s} {t} (proposes c out p h) v = proposal-Grows s t c out p h
  Step-Grows {s} {t} (times out h) v =
      let e : t.os ≡ (vote s).0.os = rw h at (os-timer_round s) in rw e (vote-Grows s)
  Step-Grows {s} (answers r p reply h) v = rw h at (heart_beat_reply-Grows s r p reply)
  Step-Grows {s} {t} (restarts h) v =
      let (w, e, _) = make-Inv s.peers s.me s.persister t h (rw v.durable v.ordered) in
      let os : t.os ≡ s.os = e ∙ v.durable in rw os (Grows-refl s.os)

  -- From any state of a peer's life to any later one, over whatever messages, timeouts, proposals,
  -- crashes and restarts: the promised round, the leader's ballot and the decided index never fall.
  pub Reach-Grows : {r s t : OmniPaxos C} → Started r → Reach r s → Reach s t → Grows s.os t.os
  Reach-Grows {s} st rs here = Grows-refl s.os
  Reach-Grows {s} st rs (later {s = m} {t = t} mt step) =
      Grows-trans s.os m.os t.os (Reach-Grows st rs mt)
        (Step-Grows step (Reach-Inv st (Reach-trans rs mt)))
