-- ===== src/OmniPaxos/Cluster/Quiet/Steps.antt =====
-- The handlers of Decide and Accepted, and what a peer ignores.
use omni_paxos_kv.Prelude.{
  ℕ, zero, suc, ◌+◌, ◌-◌, ◌≤◌, ◌<◌, ◌≡◌, refl, sym, ap, ◌∙◌, inl, inr, not, ◌&&◌, ◌||◌, subst,
  store_at, Option, some, List, [], ◌++◌, arith, eqb, ltb, leb, Bool-cases, Option-cases, length,
  take, get_elem?, get_elem?-inside,
}
use omni_paxos_kv.OmniPaxos.Types.{
  OmniPaxos, ApplyMsg, Phase, leader, follower, Message, Outbox, Outcome, DecideRequest,
  AcceptedRequest, HbReply, Codec,
}
use omni_paxos_kv.OmniPaxos.Log.{apply_msgs, persist, add_to_apply_chan, has_majority_accepted}
use omni_paxos_kv.OmniPaxos.Delivery.{commands, commands-apply_msgs, add_to_apply_chan-some}
use omni_paxos_kv.OmniPaxos.Election.{heart_beat_reply}
use omni_paxos_kv.OmniPaxos.Accept.{
  Proposed, is_leader, is_accept, in_round, follows, decide_to, advance, accepted_handler,
  decide_handler, accept_handler, accept_sync_handler, proposal,
}
use omni_paxos_kv.OmniPaxos.Make.{deliver}
use omni_paxos_kv.OmniPaxos.Cluster.{Ordered, sync, append, call}
use omni_paxos_kv.OmniPaxos.Cluster.Loose.{Loose, AllDecides}
use omni_paxos_kv.OmniPaxos.Cluster.Quiet.{Quiet, same-Quiet, applied_so_far, decide_to-AllDecides}

module _ {C : Type 0} ⦃codec : Codec C⦄ where
  apply_msgs-inside :
      (log : List C) (from n : ℕ) (ms : List (ApplyMsg C))
      → apply_msgs log from (suc n) ≡ some ms
      → from + suc n ≤ length log
  unfolding apply_msgs
  apply_msgs-inside log from zero ms h = elim (Option-cases (get_elem? log from)) [
    | inl e ↦ absurd (ground arith)
    | inr (c, e) ↦ let lt = get_elem?-inside log from c e in omega (arith, lt)
  ]
  apply_msgs-inside log from (suc n) ms h =
      elim (Option-cases (apply_msgs log (from + 1) (suc n))) [
        | inl e ↦ absurd (ground arith)
        | inr (rest, e) ↦ let le = apply_msgs-inside log (from + 1) n rest e in omega (arith, le)
      ]

  -- The peer decides and delivers up to `to`.
  decided_more-Quiet :
      (op q : OmniPaxos C) (to : ℕ) (out : Outbox C)
      → add_to_apply_chan op.os.log op.os.decided_idx to op ≡ some q
      → op.os.decided_idx < to
      → op.state.phase ≡ Phase.accept
      → AllDecides out
      → Quiet op (persist (record q { os = record q.os { decided_idx = to } })) out
  unfolding persist
  decided_more-Quiet op q to out h lt phase loose =
      let d = op.os.decided_idx in
      let (ms, e, same) = add_to_apply_chan-some op.os.log d to op q h in
      let n : to - d ≡ suc (to - d - 1) = omega (arith, lt) in
      let le = apply_msgs-inside op.os.log d (to - d - 1) ms (rw n at e) in
      let inside : to ≤ length op.os.log = omega (arith, le, lt) in
      let z : d + (to - d) ≡ to = omega (arith, lt) in
      let all : take to op.os.log ≡ take d op.os.log ++ commands ms =
        ap (λ (k : ℕ). take k op.os.log) (sym z) ∙ commands-apply_msgs op.os.log d (to - d) ms e in
      rw same (record {
        me = refl;
        state = refl;
        current = refl;
        promised = refl;
        accepted = refl;
        promises = refl;
        log = refl;
        grows = omega (arith, lt);
        still = λ p. absurd (ground arith);
        delivered = λ v. record {
          inside = inside;
          content = applied_so_far op to ms (omega (arith, lt)) inside all v;
        };
        sends = loose;
      })

  result-Quiet :
      {op q op' : OmniPaxos C} {o out : Outbox C}
      → Quiet op q o
      → ◌≡◌ {A = Option (Outcome C)} (some (q, o)) (some (op', out))
      → Quiet op op' out
  result-Quiet {op} {q} {op'} {o} {out} v h =
      let a : q ≡ op' = ground arith in
      let b : o ≡ out = ground arith in subst (Quiet op op') b (subst (λ x. Quiet op x o) a v)

  decide_handler-Quiet :
      (op op' : OmniPaxos C) (req : DecideRequest) (out : Outbox C)
      → decide_handler op req ≡ some (op', out)
      → Quiet op op' out
  unfolding decide_handler
  decide_handler-Quiet op op' req out h = elim (Bool-cases (leb req.dec_idx op.os.decided_idx)) [
    | inl a ↦ result-Quiet (same-Quiet op) (rw a at h)
    | inr a ↦ elim (Bool-cases (ltb (length op.os.log) req.dec_idx)) [
      | inl b ↦ result-Quiet (same-Quiet op) (rw (a, b) at h)
      | inr b ↦ elim (Bool-cases (in_round op req.n && follows op)) [
        | inr c ↦ result-Quiet (same-Quiet op) (ground arith)
        | inl c ↦
            elim (Option-cases (add_to_apply_chan op.os.log op.os.decided_idx req.dec_idx op)) [
              | inl e ↦ absurd (ground arith)
              | inr (q, e) ↦
                  result-Quiet
                    (decided_more-Quiet op q req.dec_idx [] e (ground arith) (ground arith) tt)
                    (ground arith)
            ]
      ]
    ]
  ]

  advance-Quiet :
      (op op' : OmniPaxos C) (to : ℕ) (out : Outbox C)
      → op.state.phase ≡ Phase.accept
      → advance op to ≡ some (op', out)
      → Quiet op op' out
  unfolding advance
  advance-Quiet op op' to out phase h =
      elim (Bool-cases (ltb op.os.decided_idx to && has_majority_accepted to op)) [
        | inr c ↦ result-Quiet (same-Quiet op) (rw c at h)
        | inl c ↦ elim (Option-cases (add_to_apply_chan op.os.log op.os.decided_idx to op)) [
          | inl e ↦ absurd (ground arith)
          | inr (q, e) ↦
              let op'' = persist (record q { os = record q.os { decided_idx = to } }) in
              result-Quiet
                (decided_more-Quiet op q to (decide_to op'' op.promises) e (ground arith) phase
                  (decide_to-AllDecides op'' op.promises))
                (rw (c, e) at h)
        ]
      ]

  -- What `accepted` holds does not matter here.
  accepted-Quiet :
      {op op' : OmniPaxos C} {out : Outbox C} (accepted : List ℕ)
      → Quiet (record op { accepted = accepted }) op' out
      → Quiet op op' out
  accepted-Quiet accepted v = record {
    me = v.me;
    state = v.state;
    current = v.current;
    promised = v.promised;
    accepted = v.accepted;
    promises = v.promises;
    log = v.log;
    grows = v.grows;
    still = v.still;
    delivered = λ d. v.delivered (record { inside = d.inside; content = d.content });
    sends = v.sends;
  }

  accepted_handler-Quiet :
      (op op' : OmniPaxos C) (req : AcceptedRequest) (out : Outbox C)
      → accepted_handler op req ≡ some (op', out)
      → Quiet op op' out
  unfolding accepted_handler
  accepted_handler-Quiet op op' req out h =
      elim (Option-cases (store_at op.accepted req.f req.log_idx)) [
        | inl e ↦ result-Quiet (same-Quiet op) (ground arith)
        | inr (accepted, e) ↦
            elim (Bool-cases (
              not (in_round op req.n)
              || not (is_leader op.state.role && is_accept op.state.phase))) [
                | inl c ↦ result-Quiet (same-Quiet op) (rw c at h)
                | inr c ↦ accepted-Quiet accepted (
                    advance-Quiet (record op { accepted = accepted }) op' req.log_idx out
                      (ground arith) (rw (c, e) at h))
              ]
      ]

  pub Loose-Quiet :
      (op op' : OmniPaxos C) (m : Message C) (out : Outbox C)
      → Loose m
      → deliver op m ≡ some (op', out)
      → Quiet op op' out
  unfolding deliver
  Loose-Quiet op op' (Message.prepare _) out l h = absurd l
  Loose-Quiet op op' (Message.promise _) out l h = absurd l
  Loose-Quiet op op' (Message.accept_sync _) out l h = absurd l
  Loose-Quiet op op' (Message.decide req) out l h = decide_handler-Quiet op op' req out h
  Loose-Quiet op op' (Message.accepted req) out l h = accepted_handler-Quiet op op' req out h
  Loose-Quiet op op' (Message.accept _) out l h = absurd l
  Loose-Quiet op op' (Message.prepare_req _) out l h = absurd l
  Loose-Quiet op op' (Message.reconnected _) out l h = absurd l

  -- A leader ignores AcceptSync and Accept.
  pub leader-Quiet :
      (op op' : OmniPaxos C) (m : Ordered C) (out : Outbox C)
      → op.state.role ≡ leader
      → deliver op (call m) ≡ some (op', out)
      → Quiet op op' out
  unfolding deliver accept_sync_handler accept_handler
  leader-Quiet op op' (sync req) out l h = result-Quiet (same-Quiet op) (ground arith)
  leader-Quiet op op' (append req) out l h = result-Quiet (same-Quiet op) (ground arith)

  -- A follower takes no proposal.
  pub proposal-Quiet :
      (op op' : OmniPaxos C) (command : C) (out : Outbox C) (p : Proposed)
      → op.state.role ≡ follower
      → proposal op command ≡ some ((op', out), p)
      → Quiet op op' out
  unfolding proposal
  proposal-Quiet op op' command out p r h = result-Quiet (same-Quiet op) (ground arith)

  pub heart_beat_reply-Quiet :
      (op : OmniPaxos C) (r p : ℕ) (reply : HbReply) → Quiet op (heart_beat_reply op r p reply) []
  unfolding heart_beat_reply
  heart_beat_reply-Quiet op r p reply = elim (Bool-cases (eqb reply.rnd r)) [
    | inl e ↦ rw e (record {
      me = refl;
      state = refl;
      current = refl;
      promised = refl;
      accepted = refl;
      promises = refl;
      log = refl;
      grows = omega arith;
      still = λ p. refl;
      delivered = λ d. record { inside = d.inside; content = d.content };
      sends = tt;
    })
    | inr e ↦ rw e (same-Quiet op)
  ]
