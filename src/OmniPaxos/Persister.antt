-- ===== src/OmniPaxos/Persister.antt =====
-- a2-omnipaxos/persister.go: stable storage of a peer's state and of a snapshot, as bytes.
use omni_paxos_kv.Prelude.{ℕ, List, [], length}

pub record Persister : Type 0 where
  pub omnipaxosstate : List ℕ
  pub snapshot : List ℕ

unfoldable pub make_persister : Persister
make_persister = record { omnipaxosstate = []; snapshot = [] }

unfoldable pub copy : Persister → Persister
unfolding make_persister
copy ps =
    let np = make_persister in
    record np { omnipaxosstate = ps.omnipaxosstate; snapshot = ps.snapshot }

unfoldable pub save_omnipaxos_state : List ℕ → Persister → Persister
save_omnipaxos_state state ps = record ps { omnipaxosstate = state }

unfoldable pub read_omnipaxos_state : Persister → List ℕ
read_omnipaxos_state ps = ps.omnipaxosstate

unfoldable pub omnipaxos_state_size : Persister → ℕ
omnipaxos_state_size ps = length ps.omnipaxosstate

unfoldable pub save_state_and_snapshot : List ℕ → List ℕ → Persister → Persister
save_state_and_snapshot state snapshot ps = record ps {
  omnipaxosstate = state;
  snapshot = snapshot;
}

unfoldable pub read_snapshot : Persister → List ℕ
read_snapshot ps = ps.snapshot

unfoldable pub snapshot_size : Persister → ℕ
snapshot_size ps = length ps.snapshot
