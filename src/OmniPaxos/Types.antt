-- ===== src/OmniPaxos/Types.antt =====
-- a2-omnipaxos/omnipaxos.go: the messages, the durable state and the state of one peer.
use omni_paxos_kv.Prelude.{ℕ, ◌≡◌, Bool, Option, some, none, List, [], Assoc, ℤ, pos}
use omni_paxos_kv.OmniPaxos.Ballot.{Ballot}
use omni_paxos_kv.OmniPaxos.Persister.{Persister}

pub data Role : Type 0 where
  leader follower : Role

-- `Phase.prepare` is PREPARE, and so on.
pub data Phase : Type 0 where
  prepare accept recover : Phase

pub record State : Type 0 where
  pub role : Role
  pub phase : Phase

pub record Promise (C : Type 0) : Type 0 where
  pub f : ℕ
  pub acc_rnd : Ballot
  pub log_idx : ℕ
  pub dec_idx : ℕ
  pub log : List C

pub record ApplyMsg (C : Type 0) : Type 0 where
  pub command_valid : Bool
  pub command : C
  pub command_index : ℕ

pub record HbRequest : Type 0 where
  pub rnd : ℕ

pub record HbReply : Type 0 where
  pub rnd : ℕ
  pub ballot : ℤ
  pub q : Bool

pub record PrepareRequest : Type 0 where
  pub l : ℕ
  pub n : Ballot
  pub acc_rnd : Ballot
  pub log_idx : ℕ
  pub dec_idx : ℕ

pub record PromiseRequest (C : Type 0) : Type 0 where
  pub f : ℕ
  pub n : Ballot
  pub acc_rnd : Ballot
  pub log_idx : ℕ
  pub dec_idx : ℕ
  pub sfx : List C

pub record AcceptSyncRequest (C : Type 0) : Type 0 where
  pub l : ℕ
  pub n : Ballot
  pub sfx : List C
  pub sync_idx : ℕ

pub record DecideRequest : Type 0 where
  pub l : ℕ
  pub n : Ballot
  pub dec_idx : ℕ

pub record AcceptedRequest : Type 0 where
  pub f : ℕ
  pub n : Ballot
  pub log_idx : ℕ

pub record AcceptRequest (C : Type 0) : Type 0 where
  pub l : ℕ
  pub n : Ballot
  pub idx : ℕ
  pub c : C

pub record PrepareReqRequest : Type 0 where
  pub f : ℕ

pub record ReconnectedRequest : Type 0 where
  pub f : ℕ

-- The calls that a peer makes to `op.peers[i]`; each handler replies with an empty struct.
pub data Message (C : Type 0) : Type 0 where
  prepare : PrepareRequest → Message C
  promise : PromiseRequest C → Message C
  accept_sync : AcceptSyncRequest C → Message C
  decide : DecideRequest → Message C
  accepted : AcceptedRequest → Message C
  accept : AcceptRequest C → Message C
  prepare_req : PrepareReqRequest → Message C
  reconnected : ReconnectedRequest → Message C

-- The destination's index beside what is sent.
abbrev pub Outbox : Type 0 → Type 0
Outbox C = List (ℕ × Message C)

pub record OmniPaxosState (C : Type 0) : Type 0 where
  pub l : Ballot
  pub log : List C
  pub promised_rnd : Ballot
  pub accepted_rnd : Ballot
  pub decided_idx : ℕ

-- One peer. `peers` is the number of peers; `applied` is all that was sent on `applyCh`.
pub record OmniPaxos (C : Type 0) : Type 0 where
  pub peers : ℕ
  pub persister : Persister
  pub me : ℕ
  pub current_rnd : Ballot
  pub promises : Assoc ℕ (Promise C)
  pub max_prom : Option (Promise C)
  pub accepted : List ℕ
  pub buffer : List C
  pub os : OmniPaxosState C
  pub r : ℕ
  pub b : Ballot
  pub qc : Bool
  pub ballots : Assoc Ballot Bool
  pub state : State
  pub applied : List (ApplyMsg C)
  pub link_drop : Bool
  pub missed_hb_counts : Assoc ℤ ℕ
  pub restart_loop : ℕ

-- What a handler leaves and sends.
abbrev pub Outcome : Type 0 → Type 0
Outcome C = OmniPaxos C × Outbox C

-- Go's zero values.
abbrev pub zero_ballot : Ballot
zero_ballot = record { n = pos 0; pid = pos 0 }

abbrev pub zero_state : {C : Type 0} → OmniPaxosState C
zero_state = record {
  l = zero_ballot;
  log = [];
  promised_rnd = zero_ballot;
  accepted_rnd = zero_ballot;
  decided_idx = 0;
}

-- encoding/gob on the durable state. What is relied on: a state that was encoded is decoded again,
-- and decoding no bytes is an error.
pub record Codec (C : Type 0) : Type 0 where
  pub encode : OmniPaxosState C → List ℕ
  pub decode : List ℕ → Option (OmniPaxosState C)
  pub decode-encode : (s : OmniPaxosState C) → decode (encode s) ≡ some s
  pub decode-nil : decode [] ≡ none
