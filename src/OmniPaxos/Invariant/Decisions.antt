-- ===== src/OmniPaxos/Invariant/Decisions.antt =====
-- The handlers that may panic, and `Proposal`, keep the invariant.
use omni_paxos_kv.Prelude.{
  ℕ, ◌+◌, ◌-◌, ◌≤◌, ◌≡◌, inl, inr, some, [], ◌∷◌, ◌++◌, arith, Option-cases, length, store_at,
  length-store_at, map-append, range, range-add,
}
use omni_paxos_kv.OmniPaxos.Ballot.{Ballot}
use omni_paxos_kv.OmniPaxos.Ballot.Order.{AtMost-refl}
use omni_paxos_kv.OmniPaxos.Persister.{read_omnipaxos_state}
use omni_paxos_kv.OmniPaxos.Types.{
  OmniPaxos, Phase, leader, Outbox, DecideRequest, AcceptedRequest, PromiseRequest, Codec,
}
use omni_paxos_kv.OmniPaxos.Log.{persist, omnipaxos_state_from_bytes, add_to_apply_chan}
use omni_paxos_kv.OmniPaxos.Delivery.{indices, indices-apply_msgs, add_to_apply_chan-some}
use omni_paxos_kv.OmniPaxos.Promise.{
  start_accept, late_promise, on_promise, promise_handler, max_promise, adopt, record_promise,
}
use omni_paxos_kv.OmniPaxos.Accept.{
  Proposed, advance, proposal, append_command, decide_handler, accepted_handler,
}
use omni_paxos_kv.OmniPaxos.Invariant.{Inv, Keeps}

module _ {C : Type 0} ⦃codec : Codec C⦄ where
  -- Delivering up to a larger index, and recording it.
  decide_up_to-Inv :
      (op op' : OmniPaxos C) (to : ℕ)
      → op.os.decided_idx ≤ to
      → add_to_apply_chan op.os.log op.os.decided_idx to op ≡ some op'
      → Inv op
      → Inv (persist (record op' { os = record op'.os { decided_idx = to } }))
  unfolding persist omnipaxos_state_from_bytes read_omnipaxos_state
  decide_up_to-Inv op op' to le h v =
      let (ms, e, same) = add_to_apply_chan-some op.os.log op.os.decided_idx to op op' h in
      let d = op.os.decided_idx in
      let split : d + (to - d) ≡ to = omega arith in
      let all : indices (op.applied ++ ms) ≡ range to = rw (
        map-append,
        v.delivered,
        indices-apply_msgs op.os.log d (to - d) ms e,
        ← range-add d (to - d),
        split,
      ) in
      rw same (record {
        durable = rw codec.decode-encode;
        leads = v.leads;
        ordered = v.ordered;
        sized = v.sized;
        delivered = all;
      })

  pub decide_handler-Inv :
      (op : OmniPaxos C) (req : DecideRequest) → Inv op → Keeps Inv (decide_handler op req)
  unfolding decide_handler
  decide_handler-Inv op req v =
      elim (Option-cases (add_to_apply_chan op.os.log op.os.decided_idx req.dec_idx op)) [
        | inl e ↦ ground arith
        | inr (q, e) ↦ ground (
          arith,
          λ (le : op.os.decided_idx ≤ req.dec_idx). decide_up_to-Inv op q req.dec_idx le e v,
        )
      ]

  advance-Inv : (op : OmniPaxos C) (log_idx : ℕ) → Inv op → Keeps Inv (advance op log_idx)
  unfolding advance
  advance-Inv op log_idx v =
      elim (Option-cases (add_to_apply_chan op.os.log op.os.decided_idx log_idx op)) [
        | inl e ↦ ground arith
        | inr (q, e) ↦
            ground
              (arith, λ (le : op.os.decided_idx ≤ log_idx). decide_up_to-Inv op q log_idx le e v)
      ]

  pub accepted_handler-Inv :
      (op : OmniPaxos C) (req : AcceptedRequest) → Inv op → Keeps Inv (accepted_handler op req)
  unfolding accepted_handler
  accepted_handler-Inv op req v = elim (Option-cases (store_at op.accepted req.f req.log_idx)) [
    | inl e ↦ ground arith
    | inr (a, e) ↦
        let same : length a ≡ length op.accepted =
          length-store_at op.accepted req.f req.log_idx a e in
        let v' : Inv (record op { accepted = a }) = ground arith in
        ground (arith, advance-Inv (record op { accepted = a }) req.log_idx v')
  ]

  start_accept-Inv :
      (op : OmniPaxos C) (n : Ballot)
      → op.state.role ≡ leader
      → Inv op
      → Keeps Inv (start_accept op n)
  unfolding start_accept persist omnipaxos_state_from_bytes read_omnipaxos_state
  start_accept-Inv op n lead v =
      let log = adopt op (max_promise op) in
      elim (Option-cases (store_at op.accepted op.me (length log))) [
        | inl e ↦ ground arith
        | inr (a, e) ↦ ground (
          arith,
          length-store_at op.accepted op.me (length log) a e,
          codec.decode-encode (record op.os { log = log; accepted_rnd = op.current_rnd }),
          AtMost-refl op.current_rnd,
        )
      ]

  late_promise-Inv :
      (op : OmniPaxos C) (req : PromiseRequest C) → Inv op → Keeps Inv (late_promise op req)
  unfolding late_promise persist omnipaxos_state_from_bytes read_omnipaxos_state
  late_promise-Inv op req v = ground (arith, codec.decode-encode op.os)

  on_promise-Inv :
      (ph : Phase) (op : OmniPaxos C) (req : PromiseRequest C)
      → op.state.role ≡ leader
      → Inv op
      → Keeps Inv (on_promise ph op req)
  unfolding on_promise persist omnipaxos_state_from_bytes read_omnipaxos_state
  on_promise-Inv Phase.prepare op req lead v = ground (arith, start_accept-Inv op req.n lead v)
  on_promise-Inv Phase.accept op req lead v = late_promise-Inv op req v
  on_promise-Inv Phase.recover op req lead v = ground (arith, codec.decode-encode op.os)

  pub promise_handler-Inv :
      (op : OmniPaxos C) (req : PromiseRequest C) → Inv op → Keeps Inv (promise_handler op req)
  unfolding promise_handler record_promise
  promise_handler-Inv op req v =
      let v' : Inv (record_promise op req) = ground arith in
      ground (
        arith,
        λ (lead : op.state.role ≡ leader).
            on_promise-Inv op.state.phase (record_promise op req) req lead v',
      )

  append_command-Inv :
      (op : OmniPaxos C) (command : C) → Inv op → Keeps Inv (append_command op command)
  unfolding append_command omnipaxos_state_from_bytes read_omnipaxos_state
  append_command-Inv op command v =
      let log = op.os.log ++ command ∷ [] in
      elim (Option-cases (store_at op.accepted op.me (length log))) [
        | inl e ↦ ground arith
        | inr (a, e) ↦ ground (
          arith,
          length-store_at op.accepted op.me (length log) a e,
          codec.decode-encode (record op.os { log = log }),
        )
      ]

  pub proposal-Inv :
      (op op' : OmniPaxos C) (command : C) (out : Outbox C) (p : Proposed)
      → proposal op command ≡ some ((op', out), p)
      → Inv op
      → Inv op'
  unfolding proposal
  proposal-Inv op op' command out p h v = elim (Option-cases (append_command op command)) [
    | inl e ↦ ground arith
    | inr ((q, out'), e) ↦ ground (arith, append_command-Inv op command v)
  ]
