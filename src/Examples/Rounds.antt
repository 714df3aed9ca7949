-- ===== src/Examples/Rounds.antt =====
-- Replication, decisions and quorums, at the states of `States`.
use omni_paxos_kv.Prelude.{
  false, Option, none, length, nat_eq, Assoc, ◌↔◌, ◌+◌, insert, take, ℕ, suc, ◌≤◌, ◌≡◌, ◌≢◌, refl,
  arith, some, true, List, [], ◌∷◌, ◌++◌, get_elem?, drop, pos, inl, inr, ◌⊎◌,
}
use mathlib.Core.Option
use omni_paxos_kv.OmniPaxos.Ballot.{ballot_eq, Ballot, compare, max}
use omni_paxos_kv.OmniPaxos.Ballot.Order.{Among, AtMost, max_unique}
use omni_paxos_kv.OmniPaxos.Persister.{make_persister}
use omni_paxos_kv.OmniPaxos.Cluster.{Ordered, ordered_for}
use omni_paxos_kv.OmniPaxos.Cluster.Steady.{Leads}
use omni_paxos_kv.OmniPaxos.Takeover.{Given}
use omni_paxos_kv.OmniPaxos.Election.{own_promise}
use omni_paxos_kv.OmniPaxos.Types.{
  OmniPaxos, Promise, Outbox, AcceptRequest, ApplyMsg, Message, Outcome, PromiseRequest,
  AcceptSyncRequest,
}
use omni_paxos_kv.OmniPaxos.Log.{suffix, count_accepted}
use omni_paxos_kv.OmniPaxos.Prepare.{prepare_handler}
use omni_paxos_kv.OmniPaxos.Election.{candidates, check_leader, trigger_leader}
use omni_paxos_kv.OmniPaxos.Promise.{start_accept, record_promise, promise_handler}
use omni_paxos_kv.OmniPaxos.Accept.{
  Proposed, proposal, append_command, accept_sync_handler, accept_handler, decide_handler,
}
use omni_paxos_kv.OmniPaxos.Make.{make, fresh}
use omni_paxos_kv.OmniPaxos.Delivery.{commands}
use omni_paxos_kv.OmniPaxos.Replication.{accept_sync_copies, decide_delivers}
use omni_paxos_kv.OmniPaxos.Divergence.{skipped_accept, own_tail_twice}
use omni_paxos_kv.OmniPaxos.Quorums.{majorities_meet, check_leader_outranks}
use omni_paxos_kv.Examples.States.{numbers, ballot, peer0, promised0, synced0, decided0, leader1}

abbrev sync : AcceptSyncRequest ℕ
sync = record { l = 1; n = ballot 1 1; sfx = 7 ∷ []; sync_idx = 0 }

accept_sync_copies_example :
    ((accept_sync_handler promised0 sync).0.os.log ≡ 7 ∷ [])
    × ((accept_sync_handler promised0 sync).1
        ≡ (1, Message.accepted (record { f = 0; n = ballot 1 1; log_idx = 1 })) ∷ [])
unfolding promised0 peer0 leader1 suffix fresh make compare prepare_handler make_persister
accept_sync_copies_example =
    accept_sync_copies leader1 promised0 (ballot 1 1) 0 refl refl refl (omega arith) (omega arith)
      refl

decide_delivers_example :
    (ms : List (ApplyMsg ℕ)) × (decided0.os.decided_idx ≡ 1)
    × (decided0.applied ≡ synced0.applied ++ ms)
    × (take 1 synced0.os.log ≡ take synced0.os.decided_idx synced0.os.log ++ commands ms)
unfolding decided0 synced0 decide_handler accept_sync_handler compare prepare_handler make_persister
decide_delivers_example =
    decide_delivers synced0 decided0 (record { l = 1; n = ballot 1 1; dec_idx = 1 }) [] refl
      (omega arith)

one_ne_zero : suc 0 ≢ 0
one_ne_zero e = omega arith

-- Peer 1 leads and takes 8 and 9; peer 0 has its first entry, and gets the Accept of 9 only.
abbrev left : Option (Outcome ℕ × Proposed) → OmniPaxos ℕ
left none = leader1
left (some ((op, _), _)) = op

abbrev outbox_of : Option (Outcome ℕ × Proposed) → Outbox ℕ
outbox_of none = []
outbox_of (some ((_, out), _)) = out

abbrev told : Option (Outcome ℕ × Proposed) → Proposed
told none = record { index = pos 0; ballot = pos 0; is_leader = false }
told (some (_, p)) = p

unfoldable took8 : Option (Outcome ℕ × Proposed)
unfolding proposal leader1
took8 = proposal leader1 8

unfoldable took9 : Option (Outcome ℕ × Proposed)
unfolding proposal took8
took9 = proposal (left took8) 9

leader1-Leads : Leads (ballot 1 1) 1 leader1.promises leader1
unfolding leader1 fresh
leader1-Leads = record {
  me = refl;
  role = refl;
  phase = refl;
  current = refl;
  promises = refl;
  delivered = record { inside = omega arith; content = refl };
}

zero_ne_one : ◌≢◌ {A = ℕ} 0 1
zero_ne_one e = absurd (ground arith)

skipped_accept_example :
    (r : AcceptRequest ℕ) × (ordered_for 0 (outbox_of took9) ≡ Ordered.append r ∷ [])
    × (r.idx ≡ length leader1.os.log + 2)
    × (get_elem? (left took9).os.log (length leader1.os.log) ≡ some 8)
    × (get_elem? (left took9).os.log (length leader1.os.log + 1) ≡ some 9)
    × ((accept_handler decided0 r).0.os.log ≡ leader1.os.log ++ 9 ∷ [])
    × (Option.map
          (λ (o : Outcome ℕ). o.0.applied)
          (decide_handler
            (accept_handler decided0 r).0
            (record { l = 1; n = ballot 1 1; dec_idx = length leader1.os.log + 1 }))
        ≡ some (
            decided0.applied
            ++ record { command_valid = true; command = 9; command_index = length leader1.os.log }
              ∷ []))
unfolding decided0 synced0 promised0 peer0 decide_handler accept_sync_handler compare
    prepare_handler make_persister took9 took8 leader1 append_command
skipped_accept_example =
    skipped_accept (ballot 1 1) 1 0 leader1.promises leader1 (left took8) (left took9) decided0 8 9
      (outbox_of took8) (outbox_of took9) (told took8) (told took9) leader1-Leads refl refl
      zero_ne_one refl refl refl refl refl

abbrev empty_promise : PromiseRequest ℕ
empty_promise = record {
  f = 1;
  n = ballot 2 0;
  acc_rnd = ballot 0 0;
  log_idx = 0;
  dec_idx = 0;
  sfx = [];
}

-- Peer 0 wins round 2, and looks at the promise of peer 1 first.
abbrev won0 : OmniPaxos ℕ
won0 = record_promise (trigger_leader synced0 (pos synced0.me) (ballot 2 0)).0 empty_promise

unfoldable swapped : Assoc ℕ (Promise ℕ)
unfolding synced0 own_promise
swapped =
    (1, record { f = 1; acc_rnd = ballot 0 0; log_idx = 0; dec_idx = 0; log = [] })
    ∷ (0, own_promise synced0)
    ∷ []

swap_two : {C : Type 0} (p x y : Promise C) → (p ≡ x) ⊎ ((p ≡ y) ⊎ ⊥) → (p ≡ y) ⊎ ((p ≡ x) ⊎ ⊥)
swap_two p x y (inl e) = inr (inl e)
swap_two p x y (inr (inl e)) = inl e
swap_two p x y (inr (inr g)) = absurd g

either_order : (p : Promise ℕ) → Given p swapped ↔ Given p won0.promises
unfolding swapped synced0 promised0 peer0 compare accept_sync_handler prepare_handler make_persister
    trigger_leader record_promise insert
either_order p = (swap_two p _ _, swap_two p _ _)

own_tail_twice_example :
    (promise_handler (trigger_leader synced0 (pos synced0.me) (ballot 2 0)).0 empty_promise
      ≡ start_accept won0 (ballot 2 0))
    × (Option.map
          (λ (o : Outcome ℕ). o.0.os.log)
          (start_accept (record won0 { promises = swapped }) (ballot 2 0))
        ≡ some (synced0.os.log ++ drop synced0.os.decided_idx synced0.os.log))
unfolding synced0 promised0 peer0 compare accept_sync_handler prepare_handler make_persister
own_tail_twice_example =
    own_tail_twice synced0 empty_promise swapped refl refl one_ne_zero (omega arith) refl refl
      (omega arith) (omega arith) either_order

majorities_meet_example :
    (i : ℕ) × (x : ℕ) × (y : ℕ) × (get_elem? (1 ∷ 1 ∷ 0 ∷ []) i ≡ some x)
    × (get_elem? (0 ∷ 2 ∷ 2 ∷ []) i ≡ some y)
    × (1 ≤ x)
    × (2 ≤ y)
unfolding count_accepted
majorities_meet_example =
    majorities_meet 3 1 2 (1 ∷ 1 ∷ 0 ∷ []) (0 ∷ 2 ∷ 2 ∷ []) refl refl refl (omega arith)
      (omega arith)

check_leader_outranks_example :
    ((b : Ballot) → Among b (candidates leader1.ballots) → AtMost b (check_leader leader1).0.os.l)
    × AtMost leader1.os.l (check_leader leader1).0.os.l
    × (((check_leader leader1).0.os.l ≡ leader1.os.l)
        ⊎ ((check_leader leader1).0.os.l ≡ max (candidates leader1.ballots)))
check_leader_outranks_example = check_leader_outranks leader1

swap : (x y b : Ballot) → Among b (x ∷ y ∷ []) → Among b (y ∷ x ∷ [])
swap x y b (inl e) = inr (inl e)
swap x y b (inr (inl e)) = inl e
swap x y b (inr (inr h)) = absurd h

max_unique_example : max (ballot 1 1 ∷ ballot 2 2 ∷ []) ≡ max (ballot 2 2 ∷ ballot 1 1 ∷ [])
max_unique_example =
    max_unique (ballot 1 1 ∷ ballot 2 2 ∷ []) (ballot 2 2 ∷ ballot 1 1 ∷ [])
      (swap (ballot 1 1) (ballot 2 2)) (swap (ballot 2 2) (ballot 1 1))
