-- ===== src/Examples/Succession.antt =====
-- Peer 2 takes over from peer 1, with the promise of peer 0, which has accepted command 7.
use omni_paxos_kv.Prelude.{
  nat_eq, ◌<◌, subst, sym, ℕ, zero, suc, ◌≤◌, ◌≡◌, refl, arith, inl, inr, ◌⊎◌, [], ◌∷◌, Option,
  some, none, insert, length, take,
}
use omni_paxos_kv.OmniPaxos.Ballot.{compare, ballot_eq}
use omni_paxos_kv.OmniPaxos.Types.{OmniPaxos, Promise, Outcome, Outbox}
use omni_paxos_kv.OmniPaxos.Persister.{make_persister}
use omni_paxos_kv.OmniPaxos.Make.{fresh}
use omni_paxos_kv.OmniPaxos.Election.{own_promise, as_leader}
use omni_paxos_kv.OmniPaxos.Promise.{start_accept, max_promise}
use omni_paxos_kv.OmniPaxos.Prepare.{find_suffix}
use omni_paxos_kv.OmniPaxos.Cluster.Round.{entries}
use omni_paxos_kv.OmniPaxos.Takeover.{promised_by, Given, Agrees}
use omni_paxos_kv.OmniPaxos.Takeover.Survival.{TakesOver, accepted_survives}
use omni_paxos_kv.Examples.States.{numbers, ballot}

unfoldable accepted7 : ℕ → OmniPaxos ℕ
unfolding fresh
accepted7 i = record (fresh 3 i make_persister) {
  os = record {
    l = ballot 1 1;
    log = 7 ∷ [];
    promised_rnd = ballot 2 2;
    accepted_rnd = ballot 1 1;
    decided_idx = 0;
  };
}

unfoldable candidate2 : OmniPaxos ℕ
unfolding as_leader fresh
candidate2 = as_leader (fresh 3 2 make_persister) (ballot 2 2)

unfoldable elected2 : OmniPaxos ℕ
unfolding candidate2 find_suffix accepted7
elected2 = record candidate2 {
  promises = insert 0 (promised_by candidate2 (accepted7 0)) candidate2.promises;
}

abbrev voters : ℕ → OmniPaxos ℕ
voters zero = accepted7 0
voters (suc zero) = accepted7 1
voters (suc (suc _)) = elected2

abbrev have : ℕ → ℕ
have zero = 1
have (suc zero) = 1
have (suc (suc _)) = 0

old-Agrees : (i : ℕ) → Agrees (ballot 1 1) (7 ∷ []) (accepted7 i)
unfolding accepted7 compare
old-Agrees i = record { newest = refl; same = λ e. refl }

new-Agrees : Agrees (ballot 1 1) (7 ∷ []) elected2
unfolding elected2 compare
new-Agrees = record { newest = refl; same = λ e. refl }

once : (j : ℕ) → entries j elected2.promises ≤ 1
unfolding elected2 insert
once zero = omega arith
once (suc zero) = omega arith
once (suc (suc zero)) = omega arith
once (suc (suc (suc j))) = ground arith

abbrev Source : Promise ℕ → Type 0
Source p =
    (p.f < 3)
    × (((p ≡ own_promise elected2) × (voters p.f ≡ elected2))
        ⊎ (p ≡ promised_by elected2 (voters p.f)))

own_Source : Source (own_promise elected2)
unfolding elected2 own_promise
own_Source = (omega arith, inl (refl, refl))

given_Source : Source (promised_by elected2 (accepted7 0))
unfolding elected2 accepted7
given_Source = (omega arith, inr refl)

from : (p : Promise ℕ) → Given p elected2.promises → Source p
unfolding elected2 insert own_promise find_suffix
from p (inl e) = subst Source (sym e) own_Source
from p (inr (inl e)) = subst Source (sym e) given_Source
from p (inr (inr g)) = absurd g

agree : (j : ℕ) → Agrees (ballot 1 1) (7 ∷ []) (voters j)
agree zero = old-Agrees 0
agree (suc zero) = old-Agrees 1
agree (suc (suc j)) = new-Agrees

taken_over : TakesOver elected2 voters (ballot 1 1) (7 ∷ [])
unfolding elected2 own_promise
taken_over = record { once = once; from = from; inside = omega arith; decided = refl }

holders :
    (j : ℕ)
    → 1 ≤ have j
    → ((voters j).os.accepted_rnd ≡ ballot 1 1) × (1 ≤ length (voters j).os.log)
unfolding accepted7
holders zero h = (refl, omega arith)
holders (suc zero) h = (refl, omega arith)
holders (suc (suc j)) h = absurd (omega (arith, h))

abbrev after : Option (Outcome ℕ) → OmniPaxos ℕ
after none = elected2
after (some (op, _)) = op

abbrev outbox_of : Option (Outcome ℕ) → Outbox ℕ
outbox_of none = []
outbox_of (some (_, out)) = out

accepted_survives_example : take 1 (after (start_accept elected2 (ballot 2 2))).os.log ≡ 7 ∷ []
unfolding elected2 start_accept max_promise compare insert
accepted_survives_example =
    let r = start_accept elected2 (ballot 2 2) in
    accepted_survives elected2 voters (ballot 1 1) (ballot 2 2) (7 ∷ []) have (after r)
      (outbox_of r) refl refl taken_over new-Agrees (λ p g. agree p.f) (omega arith) holders
      (omega arith) refl
