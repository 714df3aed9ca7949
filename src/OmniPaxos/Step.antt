-- ===== src/OmniPaxos/Step.antt =====
-- The life of one peer: every event that changes its state, as a step.
use omni_paxos_kv.Prelude.{ℕ, ◌≡◌, some}
use omni_paxos_kv.OmniPaxos.Persister.{make_persister}
use omni_paxos_kv.OmniPaxos.Types.{OmniPaxos, Message, Outbox, HbReply, Codec}
use omni_paxos_kv.OmniPaxos.Election.{heart_beat_reply}
use omni_paxos_kv.OmniPaxos.Links.{timer_round}
use omni_paxos_kv.OmniPaxos.Accept.{Proposed, proposal}
use omni_paxos_kv.OmniPaxos.Make.{make, deliver}

module _ {C : Type 0} ⦃codec : Codec C⦄ where
  -- A message of any content may arrive at any time. `restarts` is a crash: only the stable storage
  -- survives it.
  pub data Step (op : OmniPaxos C) : OmniPaxos C → Type 0 where
    delivers :
        {op' : OmniPaxos C} (m : Message C) (out : Outbox C)
        → deliver op m ≡ some (op', out)
        → Step op op'
    proposes :
        {op' : OmniPaxos C} (command : C) (out : Outbox C) (p : Proposed)
        → proposal op command ≡ some ((op', out), p)
        → Step op op'
    times : {op' : OmniPaxos C} (out : Outbox C) → timer_round op ≡ (op', out) → Step op op'
    answers :
        {op' : OmniPaxos C} (r p : ℕ) (reply : HbReply)
        → heart_beat_reply op r p reply ≡ op'
        → Step op op'
    restarts : {op' : OmniPaxos C} → make op.peers op.me op.persister ≡ some op' → Step op op'

  pub data Reach (op : OmniPaxos C) : OmniPaxos C → Type 0 where
    here : Reach op op
    later : {s t : OmniPaxos C} → Reach op s → Step s t → Reach op t

  -- A peer that was started with empty storage.
  abbrev pub Started : OmniPaxos C → Type 0
  Started op = (n : ℕ) × (me : ℕ) × (make n me make_persister ≡ some op)

  pub Reach-trans : {r s t : OmniPaxos C} → Reach r s → Reach s t → Reach r t
  Reach-trans rs here = rs
  Reach-trans rs (later st step) = later (Reach-trans rs st) step
