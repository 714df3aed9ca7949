-- ===== src/Examples/Together.antt =====
-- Three peers of which peer 1 begins a round with its own promise and that of peer 0.
mod Next
use omni_paxos_kv.Prelude.{
  ℕ, suc, zero, ◌≡◌, ◌≢◌, take, ◌⊎◌, refl, subst, arith, pos, inl, inr, Option, some, none, List,
  [], ◌∷◌, true, Assoc,
}
use omni_paxos_kv.OmniPaxos.Persister.{make_persister}
use omni_paxos_kv.OmniPaxos.Ballot.{compare}
use omni_paxos_kv.OmniPaxos.Types.{
  OmniPaxos, Promise, Message, Outbox, Outcome, leader, follower, Phase,
}
use omni_paxos_kv.OmniPaxos.Prepare.{prepare_handler}
use omni_paxos_kv.OmniPaxos.Log.{persist, has_majority_accepted}
use omni_paxos_kv.OmniPaxos.Delivery.{commands}
use omni_paxos_kv.OmniPaxos.Make.{fresh, deliver}
use omni_paxos_kv.OmniPaxos.Promise.{adopt, start_accept, max_promise}
use omni_paxos_kv.OmniPaxos.Accept.{
  Proposed, proposal, accept_sync_handler, accept_handler, accepted_handler, decide_handler,
  append_command, advance,
}
use omni_paxos_kv.OmniPaxos.Cluster.{
  Cluster, Ordered, call, update, ordered_for, unordered, send, Step, proposes, receives, hears,
  Reach, here, later,
}
use omni_paxos_kv.OmniPaxos.Cluster.Round.{entries}
use omni_paxos_kv.OmniPaxos.Cluster.Begins.{Waits, LogsAgree, Begins, one_leader_agrees}
use omni_paxos_kv.OmniPaxos.Cluster.Syncs.{promise_from, sync_from}
use omni_paxos_kv.Examples.States.{numbers, ballot, promised0}

abbrev given : Assoc ℕ (Promise ℕ)
given =
    (0, record { f = 0; acc_rnd = ballot 0 0; log_idx = 0; dec_idx = 0; log = [] })
    ∷ (1, record { f = 1; acc_rnd = ballot 0 0; log_idx = 0; dec_idx = 0; log = [] })
    ∷ []

unfoldable elected1 : OmniPaxos ℕ
unfolding fresh
elected1 = record (fresh 3 1 make_persister) {
  current_rnd = ballot 1 1;
  promises = given;
  os = record {
    l = ballot 1 1;
    log = [];
    promised_rnd = ballot 1 1;
    accepted_rnd = ballot 0 0;
    decided_idx = 0;
  };
  state = record { role = leader; phase = Phase.prepare };
}

abbrev state_of : OmniPaxos ℕ → Option (Outcome ℕ) → OmniPaxos ℕ
state_of op none = op
state_of op (some (op', _)) = op'

abbrev outbox_of : Option (Outcome ℕ) → Outbox ℕ
outbox_of none = []
outbox_of (some (_, out)) = out

abbrev outcome : Option (Outcome ℕ × Proposed) → Option (Outcome ℕ)
outcome none = none
outcome (some (x, _)) = some x

abbrev all_three : OmniPaxos ℕ → OmniPaxos ℕ → OmniPaxos ℕ → ℕ → OmniPaxos ℕ
all_three a b c zero = a
all_three a b c (suc zero) = b
all_three a b c (suc (suc j)) = c

unfoldable begun : Cluster ℕ
unfolding elected1 promised0 start_accept fresh
begun =
    let r = start_accept elected1 (ballot 1 1) in
    record {
      peers = all_three promised0 (state_of elected1 r) (fresh 3 2 make_persister);
      queues = λ j. ordered_for j (outbox_of r);
      soup = unordered (outbox_of r);
    }

once : (j : ℕ) → j ≢ 1 → (entries j given ≡ 0) ⊎ (entries j given ≡ 1)
once zero ne = inr refl
once (suc zero) ne = absurd (ne refl)
once (suc (suc j)) ne = inl (ground arith)

followers : (j : ℕ) → j ≢ 1 → (begun.peers j).state.role ≡ follower
unfolding begun prepare_handler compare make_persister
followers zero ne = refl
followers (suc zero) ne = absurd (ne refl)
followers (suc (suc j)) ne = refl

waiting :
    (j : ℕ) (p : Promise ℕ)
    → j ≢ 1
    → entries j given ≡ 1
    → promise_from j given ≡ some p
    → Waits (ballot 1 1) j (sync_from (max_promise elected1) p) (begun.peers j) (begun.peers 1)
unfolding begun max_promise prepare_handler compare make_persister
waiting zero p ne one from =
    let e : record { f = 0; acc_rnd = ballot 0 0; log_idx = 0; dec_idx = 0; log = [] } ≡ p =
      ground arith in
    subst
      (λ q.
        Waits (ballot 1 1) 0 (sync_from (max_promise elected1) q) (begun.peers 0) (begun.peers 1))
      e
      (record {
        me = refl;
        role = refl;
        phase = refl;
        promised = refl;
        in_log = omega arith;
        in_leader = omega arith;
        decided = omega arith;
        delivered = record { inside = omega arith; content = refl };
      })
waiting (suc zero) p ne one from = absurd (ne refl)
waiting (suc (suc j)) p ne one from =
    let z : entries (suc (suc j)) given ≡ 0 = ground arith in absurd (ground arith)

begun-Begins : Begins (ballot 1 1) 1 given begun
unfolding begun
begun-Begins = record {
  before = elected1;
  out = outbox_of (start_accept elected1 (ballot 1 1));
  starts = refl;
  me = refl;
  current = refl;
  promises = refl;
  delivered = record { inside = omega arith; content = refl };
  once = once;
  followers = followers;
  waiting = waiting;
  queues = λ j. refl;
  soup = refl;
}

begun-LogsAgree : LogsAgree (ballot 1 1) 1 given begun begun-Begins
unfolding begun begun-Begins max_promise prepare_handler compare make_persister
begun-LogsAgree zero p ne one from =
    let e : record { f = 0; acc_rnd = ballot 0 0; log_idx = 0; dec_idx = 0; log = [] } ≡ p =
      ground arith in
    subst
      (λ q.
        let i = sync_from (max_promise elected1) q in
        take i (begun.peers 0).os.log ≡ take i (begun.peers 1).os.log)
      e refl
begun-LogsAgree (suc zero) p ne one from = absurd (ne refl)
begun-LogsAgree (suc (suc j)) p ne one from =
    let z : entries (suc (suc j)) given ≡ 0 = ground arith in absurd (ground arith)

abbrev received : Cluster ℕ → ℕ → Ordered ℕ → List (Ordered ℕ) → Cluster ℕ
received s i m rest =
    let r = deliver (s.peers i) (call m) in
    send (outbox_of r) (record s {
      peers = update s.peers i (state_of (s.peers i) r);
      queues = update s.queues i rest;
    })

abbrev heard : Cluster ℕ → ℕ → Message ℕ → Cluster ℕ
heard s i m =
    let r = deliver (s.peers i) m in
    send (outbox_of r) (record s { peers = update s.peers i (state_of (s.peers i) r) })

abbrev proposed_to : Cluster ℕ → ℕ → ℕ → Cluster ℕ
proposed_to s i c =
    let r = outcome (proposal (s.peers i) c) in
    send (outbox_of r) (record s { peers = update s.peers i (state_of (s.peers i) r) })

-- Peer 0 synchronises, peer 1 takes command 7 and sends it, peer 0 accepts it, and both decide it.
abbrev joined : Cluster ℕ
joined =
    received begun 0 (Ordered.sync (record { l = 1; n = ballot 1 1; sfx = []; sync_idx = 0 })) []

abbrev asked : Cluster ℕ
asked = proposed_to joined 1 7

abbrev appended : Cluster ℕ
appended = received asked 0 (Ordered.append (record { l = 1; n = ballot 1 1; idx = 1; c = 7 })) []

abbrev counted : Cluster ℕ
counted = heard appended 1 (Message.accepted (record { f = 0; n = ballot 1 1; log_idx = 1 }))

abbrev finished : Cluster ℕ
finished = heard counted 0 (Message.decide (record { l = 1; n = ballot 1 1; dec_idx = 1 }))

abbrev sync0 : Ordered ℕ
sync0 = Ordered.sync (record { l = 1; n = ballot 1 1; sfx = []; sync_idx = 0 })

abbrev append0 : Ordered ℕ
append0 = Ordered.append (record { l = 1; n = ballot 1 1; idx = 1; c = 7 })

abbrev accepted1 : Message ℕ
accepted1 = Message.accepted (record { f = 0; n = ballot 1 1; log_idx = 1 })

abbrev decide0 : Message ℕ
decide0 = Message.decide (record { l = 1; n = ballot 1 1; dec_idx = 1 })

joined_step : Step begun joined
unfolding begun deliver adopt max_promise compare
joined_step =
    let r = deliver (begun.peers 0) (call sync0) in
    receives 0 sync0 [] (state_of (begun.peers 0) r) (outbox_of r) refl refl refl

asked_step : Step joined asked
unfolding begun deliver proposal persist append_command adopt max_promise compare
asked_step =
    let p : Proposed = record { index = pos 0; ballot = pos 1; is_leader = true } in
    let r = outcome (proposal (joined.peers 1) 7) in
    proposes 1 7 (state_of (joined.peers 1) r) (outbox_of r) p refl refl

appended_step : Step asked appended
unfolding begun deliver adopt max_promise compare proposal append_command accept_sync_handler
    prepare_handler make_persister
appended_step =
    let r = deliver (asked.peers 0) (call append0) in
    receives 0 append0 [] (state_of (asked.peers 0) r) (outbox_of r) refl refl refl

counted_step : Step appended counted
unfolding begun deliver adopt max_promise compare proposal append_command accept_sync_handler
    prepare_handler make_persister accept_handler accepted_handler advance has_majority_accepted
counted_step =
    let r = deliver (appended.peers 1) accepted1 in
    hears 1 1 accepted1 (state_of (appended.peers 1) r) (outbox_of r) refl refl refl

finished_step : Step counted finished
unfolding begun deliver adopt max_promise compare proposal append_command accept_sync_handler
    prepare_handler make_persister accept_handler accepted_handler advance has_majority_accepted
    decide_handler
finished_step =
    let r = deliver (counted.peers 0) decide0 in
    hears 0 2 decide0 (state_of (counted.peers 0) r) (outbox_of r) refl refl refl

finished-Reach : Reach begun finished
finished-Reach =
    later (later (later (later (later here joined_step) asked_step) appended_step) counted_step)
      finished_step

zero_is_not_one : ◌≢◌ {A = ℕ} 0 1
zero_is_not_one e = absurd (ground arith)

abbrev first : List ℕ → ℕ
first [] = 0
first (c ∷ _) = c

one_leader_agrees_example :
    first (commands (finished.peers 0).applied) ≡ first (commands (finished.peers 1).applied)
unfolding begun deliver adopt max_promise compare proposal append_command accept_sync_handler
    prepare_handler make_persister accept_handler accepted_handler advance has_majority_accepted
    decide_handler
one_leader_agrees_example =
    one_leader_agrees (ballot 1 1) 1 given begun finished 0 1 0
      (first (commands (finished.peers 0).applied)) (first (commands (finished.peers 1).applied))
      begun-Begins begun-LogsAgree finished-Reach (inr (zero_is_not_one, refl)) (inl refl) refl refl
