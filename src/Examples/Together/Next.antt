-- ===== src/Examples/Together/Next.antt =====
-- Peer 0 takes over from peer 1, with the promise of peer 1.
use omni_paxos_kv.Prelude.{
  nat_eq, ℕ, zero, suc, ◌<◌, ◌≤◌, ◌≡◌, ◌≢◌, ◌⊎◌, refl, sym, subst, arith, inl, inr, Option, some,
  none, [], insert, take,
}
use omni_paxos_kv.OmniPaxos.Ballot.{compare, ballot_eq}
use omni_paxos_kv.OmniPaxos.Ballot.Order.{AtMost}
use omni_paxos_kv.OmniPaxos.Types.{OmniPaxos, Promise, Outcome, Outbox}
use omni_paxos_kv.OmniPaxos.Persister.{make_persister}
use omni_paxos_kv.OmniPaxos.Election.{own_promise, as_leader}
use omni_paxos_kv.OmniPaxos.Prepare.{prepare_handler, find_suffix}
use omni_paxos_kv.OmniPaxos.Log.{has_majority_accepted}
use omni_paxos_kv.OmniPaxos.Promise.{start_accept, max_promise, adopt}
use omni_paxos_kv.OmniPaxos.Accept.{
  proposal, append_command, accept_sync_handler, accept_handler, accepted_handler, decide_handler,
  advance,
}
use omni_paxos_kv.OmniPaxos.Make.{deliver}
use omni_paxos_kv.OmniPaxos.Cluster.Round.{entries}
use omni_paxos_kv.OmniPaxos.Takeover.{promised_by, Given}
use omni_paxos_kv.OmniPaxos.Cluster.Successor.{decision_survives}
use omni_paxos_kv.Examples.States.{numbers, ballot}
use omni_paxos_kv.Examples.Together.{
  given, begun, begun-Begins, begun-LogsAgree, finished, finished-Reach, zero_is_not_one,
}

abbrev candidate0 : OmniPaxos ℕ
candidate0 = as_leader (finished.peers 0) (ballot 2 0)

unfoldable elected0 : OmniPaxos ℕ
unfolding begun deliver adopt max_promise compare proposal append_command accept_sync_handler
    prepare_handler make_persister accept_handler accepted_handler advance has_majority_accepted
    decide_handler as_leader
elected0 = record candidate0 {
  promises = insert 1 (promised_by candidate0 (finished.peers 1)) candidate0.promises;
}

older :
    (j : ℕ)
    → j ≢ 1
    → AtMost (begun.peers j).os.accepted_rnd (ballot 1 1)
      × ((begun.peers j).os.accepted_rnd ≢ ballot 1 1)
unfolding begun prepare_handler compare make_persister
older zero ne = (refl, λ e. absurd (ground arith))
older (suc zero) ne = absurd (ne refl)
older (suc (suc j)) ne = (refl, λ e. absurd (ground arith))

once : (j : ℕ) → entries j elected0.promises ≤ 1
unfolding elected0 insert as_leader
once zero = omega arith
once (suc zero) = omega arith
once (suc (suc j)) = ground arith

abbrev Source : Promise ℕ → Type 0
Source p =
    (p.f < 3)
    × (((p ≡ own_promise elected0) × (p.f ≡ 0))
        ⊎ ((p ≡ promised_by elected0 (finished.peers p.f)) × (p.f ≢ 0)))

one_is_not_zero : ◌≢◌ {A = ℕ} 1 0
one_is_not_zero e = zero_is_not_one (sym e)

own_Source : Source (own_promise elected0)
unfolding elected0 own_promise as_leader
own_Source = (omega arith, inl (refl, refl))

given_Source : Source (promised_by elected0 (finished.peers 1))
unfolding elected0 begun
given_Source = (omega arith, inr (refl, one_is_not_zero))

from : (p : Promise ℕ) → Given p elected0.promises → Source p
unfolding elected0 insert own_promise find_suffix as_leader
from p (inl e) = subst Source (sym e) own_Source
from p (inr (inl e)) = subst Source (sym e) given_Source
from p (inr (inr g)) = absurd g

abbrev after : Option (Outcome ℕ) → OmniPaxos ℕ
after none = elected0
after (some (op, _)) = op

abbrev outbox_of : Option (Outcome ℕ) → Outbox ℕ
outbox_of none = []
outbox_of (some (_, out)) = out

decision_survives_example :
    take (finished.peers 1).os.decided_idx (after (start_accept elected0 (ballot 2 0))).os.log
    ≡ take (finished.peers 1).os.decided_idx (finished.peers 1).os.log
unfolding begun deliver adopt max_promise compare proposal append_command accept_sync_handler
    prepare_handler make_persister accept_handler accepted_handler advance has_majority_accepted
    decide_handler begun-Begins elected0 insert as_leader start_accept
decision_survives_example =
    let r = start_accept elected0 (ballot 2 0) in
    decision_survives (ballot 1 1) (ballot 2 0) 1 0 given begun finished elected0 (after r)
      (outbox_of r) begun-Begins begun-LogsAgree refl older refl finished-Reach
      (λ e. absurd (zero_is_not_one (sym e))) (inr (zero_is_not_one, refl)) refl refl refl refl refl
      once from (omega arith) refl
