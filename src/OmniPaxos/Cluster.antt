-- ===== src/OmniPaxos/Cluster.antt =====
-- a2-omnipaxos/omnipaxos.go: the peers together, with the calls that are under way between them.
pub mod Loose
pub mod Quiet
pub mod Round
pub mod Steady
pub mod Handlers
pub mod Agreement
pub mod Syncs
pub mod Begins
pub mod Holders
pub mod Majority
pub mod Reports
pub mod Held
pub mod Accepted
pub mod Decided
pub mod Successor
use omni_paxos_kv.Prelude.{
  ℕ, ◌≡◌, Option, none, some, List, [], ◌∷◌, ◌++◌, eqb, if◌then◌else◌, get_elem?,
}
use omni_paxos_kv.OmniPaxos.Types.{
  OmniPaxos, Message, AcceptSyncRequest, AcceptRequest, Outbox, HbReply, Codec,
}
use omni_paxos_kv.OmniPaxos.Election.{heart_beat_reply}
use omni_paxos_kv.OmniPaxos.Accept.{Proposed, proposal}
use omni_paxos_kv.OmniPaxos.Links.{timer_round}
use omni_paxos_kv.OmniPaxos.Make.{deliver}

abbrev pub update {ℓ} : {A : Type ℓ} → (ℕ → A) → ℕ → A → ℕ → A
update f i a j = if eqb i j then a else f j

-- AcceptSync and Accept, which change a follower's log.
pub data Ordered (C : Type 0) : Type 0 where
  sync : AcceptSyncRequest C → Ordered C
  append : AcceptRequest C → Ordered C

abbrev pub call : {C : Type 0} → Ordered C → Message C
call (sync r) = Message.accept_sync r
call (append r) = Message.accept r

abbrev pub ordered : {C : Type 0} → Message C → Option (Ordered C)
ordered (Message.prepare _) = none
ordered (Message.promise _) = none
ordered (Message.accept_sync r) = some (sync r)
ordered (Message.decide _) = none
ordered (Message.accepted _) = none
ordered (Message.accept r) = some (append r)
ordered (Message.prepare_req _) = none
ordered (Message.reconnected _) = none

-- `queues j` are the AcceptSyncs and Accepts under way to peer `j`, and `soup` all other messages
-- that were ever sent.
pub record Cluster (C : Type 0) : Type 0 where
  pub peers : ℕ → OmniPaxos C
  pub queues : ℕ → List (Ordered C)
  pub soup : Outbox C

module _ {C : Type 0} where
  abbrev pub ordered_for : ℕ → Outbox C → List (Ordered C)
  ordered_for j [] = []
  ordered_for j ((i, m) ∷ out) =
      let rest = ordered_for j out in
      elim (ordered m) [ some o ↦ if eqb i j then o ∷ rest else rest | none ↦ rest ]

  abbrev pub unordered : Outbox C → Outbox C
  unordered [] = []
  unordered ((i, m) ∷ out) =
      let rest = unordered out in elim (ordered m) [ some _ ↦ rest | none ↦ (i, m) ∷ rest ]

  abbrev pub send : Outbox C → Cluster C → Cluster C
  send out s = record s {
    queues = λ j. s.queues j ++ ordered_for j out;
    soup = s.soup ++ unordered out;
  }

module _ {C : Type 0} ⦃codec : Codec C⦄ where
  -- The steps in which no leader is chosen, no link is taken for broken and no peer restarts: a round
  -- of the timer leaves the peer's role and phase, and sends no PrepareReq or Reconnected. The
  -- AcceptSyncs and Accepts to a peer arrive in order, each once. Any other message may arrive at any
  -- time, many times or never.
  pub data Step (s : Cluster C) : Cluster C → Type 0 where
    proposes :
        (i : ℕ) (command : C) (op' : OmniPaxos C) (out : Outbox C) (p : Proposed) {s' : Cluster C}
        → proposal (s.peers i) command ≡ some ((op', out), p)
        → send out (record s { peers = update s.peers i op' }) ≡ s'
        → Step s s'
    receives :
        (i : ℕ) (m : Ordered C) (rest : List (Ordered C)) (op' : OmniPaxos C) (out : Outbox C)
        {s' : Cluster C}
        → s.queues i ≡ m ∷ rest
        → deliver (s.peers i) (call m) ≡ some (op', out)
        → send out (record s { peers = update s.peers i op'; queues = update s.queues i rest }) ≡ s'
        → Step s s'
    hears :
        (i k : ℕ) (m : Message C) (op' : OmniPaxos C) (out : Outbox C) {s' : Cluster C}
        → get_elem? s.soup k ≡ some (i, m)
        → deliver (s.peers i) m ≡ some (op', out)
        → send out (record s { peers = update s.peers i op' }) ≡ s'
        → Step s s'
    answers :
        (i r p : ℕ) (reply : HbReply) {s' : Cluster C}
        → record s { peers = update s.peers i (heart_beat_reply (s.peers i) r p reply) } ≡ s'
        → Step s s'
    ticks :
        (i : ℕ) {s' : Cluster C}
        → (timer_round (s.peers i)).1 ≡ []
        → (timer_round (s.peers i)).0.state ≡ (s.peers i).state
        → record s { peers = update s.peers i (timer_round (s.peers i)).0 } ≡ s'
        → Step s s'

  pub data Reach (s : Cluster C) : Cluster C → Type 0 where
    here : Reach s s
    later : {t u : Cluster C} → Reach s t → Step t u → Reach s u
