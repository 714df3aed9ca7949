-- ===== src/OmniPaxos/Invariant.antt =====
-- What holds of a peer at all times, whatever arrives, in whatever order.
pub mod Rounds
pub mod Decisions
pub mod Steps
pub mod Growth
use omni_paxos_kv.Prelude.{
  ℕ, ◌≡◌, refl, ◌⊎◌, inl, inr, true, false, Option, some, none, List, length, length-replicate, [],
  ◌∷◌, ◌++◌, arith, ltb, leb, ℤ, pos, eqb_ℤ, range,
}
use omni_paxos_kv.OmniPaxos.Ballot.{Ballot, compare, positive}
use omni_paxos_kv.OmniPaxos.Ballot.Order.{
  AtMost, AtMost-refl, AtMost-trans, AtMost-of_positive, eqb-compare,
}
use omni_paxos_kv.OmniPaxos.Persister.{read_omnipaxos_state, save_omnipaxos_state}
use omni_paxos_kv.OmniPaxos.Types.{
  OmniPaxos, Outcome, Role, Phase, leader, follower, PrepareRequest, AcceptSyncRequest,
  AcceptRequest, ReconnectedRequest, PrepareReqRequest, HbReply, Codec,
}
use omni_paxos_kv.OmniPaxos.Log.{prefix, persist, omnipaxos_state_from_bytes, to_bytes}
use omni_paxos_kv.OmniPaxos.Prepare.{prepare_handler, prepare_req_handler, reconnected_handler}
use omni_paxos_kv.OmniPaxos.Election.{heart_beat_reply, trigger_leader, check_leader}
use omni_paxos_kv.OmniPaxos.Accept.{accept_sync_handler, accept_handler}
use omni_paxos_kv.OmniPaxos.Delivery.{indices}

module _ {C : Type 0} ⦃codec : Codec C⦄ where
  -- What a restart would read is what the peer has in memory.
  abbrev pub IsDurable : OmniPaxos C → Type 0
  IsDurable op = omnipaxos_state_from_bytes (read_omnipaxos_state op.persister) ≡ op.os

  pub record Inv (op : OmniPaxos C) : Type 0 where
    pub durable : IsDurable op
    pub leads : op.state.role ≡ leader → op.current_rnd ≡ op.os.promised_rnd
    pub ordered : AtMost op.os.accepted_rnd op.os.promised_rnd
    pub sized : length op.accepted ≡ op.peers
    pub delivered : indices op.applied ≡ range op.os.decided_idx

  -- A handler that does not panic leaves a state with `P`.
  abbrev pub Keeps : (OmniPaxos C → Type 0) → Option (Outcome C) → Type 0
  Keeps P none = Unit
  Keeps P (some (op, out)) = P op

  pub persist-IsDurable : (op : OmniPaxos C) → IsDurable (persist op)
  unfolding persist omnipaxos_state_from_bytes read_omnipaxos_state
  persist-IsDurable op = rw codec.decode-encode

  pub prepare_handler-Inv :
      (op : OmniPaxos C) (req : PrepareRequest) → Inv op → Inv (prepare_handler op req).0
  unfolding prepare_handler omnipaxos_state_from_bytes read_omnipaxos_state
  prepare_handler-Inv op req v = ground (
    arith,
    codec.decode-encode (record op.os { promised_rnd = req.n }),
    AtMost-trans op.os.accepted_rnd op.os.promised_rnd req.n,
  )

  pub accept_sync_handler-Inv :
      (op : OmniPaxos C) (req : AcceptSyncRequest C) → Inv op → Inv (accept_sync_handler op req).0
  unfolding accept_sync_handler omnipaxos_state_from_bytes read_omnipaxos_state
  accept_sync_handler-Inv op req v = ground (
    arith,
    codec.decode-encode
        (record op.os { accepted_rnd = req.n; log = prefix op req.sync_idx ++ req.sfx }),
    eqb-compare op.os.promised_rnd req.n,
    AtMost-refl req.n,
  )

  pub accept_handler-Inv :
      (op : OmniPaxos C) (req : AcceptRequest C) → Inv op → Inv (accept_handler op req).0
  unfolding accept_handler omnipaxos_state_from_bytes read_omnipaxos_state
  accept_handler-Inv op req v =
      ground (arith, codec.decode-encode (record op.os { log = op.os.log ++ req.c ∷ [] }))

  pub reconnected_handler-Inv :
      (op : OmniPaxos C) (req : ReconnectedRequest) → Inv op → Inv (reconnected_handler op req).0
  unfolding reconnected_handler
  reconnected_handler-Inv op req v = ground arith

  pub prepare_req_handler-Inv :
      (op : OmniPaxos C) (req : PrepareReqRequest) → Inv op → Inv (prepare_req_handler op req).0
  unfolding prepare_req_handler
  prepare_req_handler-Inv op req v = ground arith

  pub heart_beat_reply-Inv :
      (op : OmniPaxos C) (r p : ℕ) (reply : HbReply) → Inv op → Inv (heart_beat_reply op r p reply)
  unfolding heart_beat_reply
  heart_beat_reply-Inv op r p reply v = ground arith

  pub trigger_leader-Inv :
      (op : OmniPaxos C) (s : ℤ) (n : Ballot) → Inv op → Inv (trigger_leader op s n).0
  unfolding trigger_leader omnipaxos_state_from_bytes read_omnipaxos_state
  trigger_leader-Inv op s n v = ground (
    arith,
    codec.decode-encode (record op.os { promised_rnd = n }),
    AtMost-trans op.os.accepted_rnd op.os.promised_rnd n,
    AtMost-of_positive n op.os.promised_rnd,
    length-replicate {A = ℕ} (length op.accepted) 0,
  )
