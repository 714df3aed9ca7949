-- ===== src/OmniPaxos/Cluster/Quiet.antt =====
-- Steps of a peer that leave its log, its role and its round alone.
pub mod Steps
pub mod Timer
use omni_paxos_kv.Prelude.{
  ℕ, zero, suc, ◌+◌, ◌-◌, ◌≤◌, ◌<◌, ◌≡◌, refl, sym, ap, ◌∙◌, inl, inr, not, ◌&&◌, ◌||◌, subst,
  store_at, Option, some, List, [], ◌∷◌, ◌++◌, map-append, arith, eqb, ltb, leb, Bool-cases,
  Option-cases, length, take, get_elem?, get_elem?-inside, Assoc,
}
use omni_paxos_kv.OmniPaxos.Types.{
  OmniPaxos, Promise, ApplyMsg, Phase, leader, follower, Message, Outbox, Outcome, DecideRequest,
  AcceptedRequest, HbReply, Codec,
}
use omni_paxos_kv.OmniPaxos.Log.{apply_msgs, persist, add_to_apply_chan, has_majority_accepted}
use omni_paxos_kv.OmniPaxos.Delivery.{commands, commands-apply_msgs, add_to_apply_chan-some}
use omni_paxos_kv.OmniPaxos.Election.{heart_beat_reply}
use omni_paxos_kv.OmniPaxos.Accept.{
  Proposed, is_leader, is_accept, in_round, follows, decide_to, advance, accepted_handler,
  decide_handler, accept_handler, accept_sync_handler, proposal,
}
use omni_paxos_kv.OmniPaxos.Make.{deliver}
use omni_paxos_kv.OmniPaxos.Cluster.{Ordered, sync, append, call}
use omni_paxos_kv.OmniPaxos.Cluster.Loose.{Loose, AllDecides}

module _ {C : Type 0} where
  -- The service got the decided part of the log, which is in the log.
  pub record Delivered (op : OmniPaxos C) : Type 0 where
    pub inside : op.os.decided_idx ≤ length op.os.log
    pub content : commands op.applied ≡ take op.os.decided_idx op.os.log

  pub record Quiet (op op' : OmniPaxos C) (out : Outbox C) : Type 0 where
    pub me : op'.me ≡ op.me
    pub state : op'.state ≡ op.state
    pub current : op'.current_rnd ≡ op.current_rnd
    pub promised : op'.os.promised_rnd ≡ op.os.promised_rnd
    pub accepted : op'.os.accepted_rnd ≡ op.os.accepted_rnd
    pub promises : op'.promises ≡ op.promises
    pub log : op'.os.log ≡ op.os.log
    pub grows : op.os.decided_idx ≤ op'.os.decided_idx
    pub still : op.state.phase ≡ Phase.prepare → op'.os.decided_idx ≡ op.os.decided_idx
    pub delivered : Delivered op → Delivered op'
    pub sends : AllDecides out

  pub same-Quiet : (op : OmniPaxos C) → Quiet op op []
  same-Quiet op = record {
    me = refl;
    state = refl;
    current = refl;
    promised = refl;
    accepted = refl;
    promises = refl;
    log = refl;
    grows = omega arith;
    still = λ p. refl;
    delivered = λ d. d;
    sends = tt;
  }

  pub applied_so_far :
      (op : OmniPaxos C) (to : ℕ) (ms : List (ApplyMsg C))
      → op.os.decided_idx ≤ to
      → to ≤ length op.os.log
      → take to op.os.log ≡ take op.os.decided_idx op.os.log ++ commands ms
      → Delivered op
      → commands (op.applied ++ ms) ≡ take to op.os.log
  applied_so_far op to ms le inside all d =
      map-append (λ (m : ApplyMsg C). m.command) op.applied ms
      ∙ ap (λ xs. xs ++ commands ms) d.content
      ∙ sym all

  pub decide_to-AllDecides :
      (op : OmniPaxos C) (ps : Assoc ℕ (Promise C)) → AllDecides (decide_to op ps)
  unfolding decide_to
  decide_to-AllDecides op [] = tt
  decide_to-AllDecides op ((_, p) ∷ ps) = (tt, decide_to-AllDecides op ps)
