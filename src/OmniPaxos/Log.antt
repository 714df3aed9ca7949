-- ===== src/OmniPaxos/Log.antt =====
-- a2-omnipaxos/omnipaxos.go: the log's parts, durability, and what is sent to the service.
use omni_paxos_kv.Prelude.{
  ℕ, zero, suc, ◌+◌, ◌-◌, ◌/◌, Bool, true, Option, some, List, [], ◌∷◌, ◌++◌, leb, ltb,
  if◌then◌else◌, ◌>>=◌, length, take, drop, get_elem?, get_or,
}
use omni_paxos_kv.OmniPaxos.Persister.{save_omnipaxos_state, read_omnipaxos_state}
use omni_paxos_kv.OmniPaxos.Types.{OmniPaxos, OmniPaxosState, ApplyMsg, Codec, zero_state}

unfoldable pub count_accepted : ℕ → List ℕ → ℕ
count_accepted v [] = 0
count_accepted v (a ∷ accepted) =
    if leb v a then count_accepted v accepted + 1 else count_accepted v accepted

-- `(len(op.peers)+1)/2`
abbrev pub quorum : ℕ → ℕ
quorum peers = (peers + 1) / 2

module _ {C : Type 0} where
  unfoldable pub suffix : OmniPaxos C → ℕ → List C
  suffix op idx = if ltb (length op.os.log) idx then [] else drop idx op.os.log

  unfoldable pub prefix : OmniPaxos C → ℕ → List C
  prefix op idx =
      let idx' = if ltb (length op.os.log) idx then length op.os.log else idx in take idx' op.os.log

  -- `for i := from; i < from+n; i++`: the messages for n entries; reading past the log panics.
  unfoldable pub apply_msgs : List C → ℕ → ℕ → Option (List (ApplyMsg C))
  apply_msgs log from zero = some []
  apply_msgs log from (suc n) = do
    let rest = apply_msgs log (from + 1) n
    command ← get_elem? log from
    msgs ← rest
    some (record { command_valid = true; command = command; command_index = from } ∷ msgs)

  unfoldable pub add_to_apply_chan : List C → ℕ → ℕ → OmniPaxos C → Option (OmniPaxos C)
  unfolding apply_msgs
  add_to_apply_chan log from to op = do
    msgs ← apply_msgs log from (to - from)
    some (record op { applied = op.applied ++ msgs })

  unfoldable pub has_majority_accepted : ℕ → OmniPaxos C → Bool
  unfolding count_accepted
  has_majority_accepted v op = leb (quorum op.peers) (count_accepted v op.accepted)

module _ {C : Type 0} ⦃codec : Codec C⦄ where
  unfoldable pub to_bytes : OmniPaxosState C → List ℕ
  to_bytes s = codec.encode s

  -- The error is dropped by the caller, which keeps the zero value that decoding started from.
  unfoldable pub omnipaxos_state_from_bytes : List ℕ → OmniPaxosState C
  omnipaxos_state_from_bytes bytes = get_or (codec.decode bytes) zero_state

  unfoldable pub persist : OmniPaxos C → OmniPaxos C
  unfolding to_bytes save_omnipaxos_state
  persist op = record op { persister = save_omnipaxos_state (to_bytes op.os) op.persister }

  unfoldable pub read_persist : OmniPaxos C → OmniPaxos C
  unfolding omnipaxos_state_from_bytes read_omnipaxos_state
  read_persist op = record op {
    os = omnipaxos_state_from_bytes (read_omnipaxos_state op.persister);
  }
