-- ===== src/Examples/Peer.antt =====
-- The life of one peer, at the run of `States`.
use omni_paxos_kv.Prelude.{take, ◌≡◌, refl, some, [], ◌∷◌, range}
use omni_paxos_kv.OmniPaxos.Ballot.{compare}
use omni_paxos_kv.OmniPaxos.Persister.{make_persister}
use omni_paxos_kv.OmniPaxos.Prepare.{prepare_handler}
use omni_paxos_kv.OmniPaxos.Accept.{accept_sync_handler, decide_handler}
use omni_paxos_kv.OmniPaxos.Make.{make, deliver}
use omni_paxos_kv.OmniPaxos.Delivery.{commands, indices}
use omni_paxos_kv.OmniPaxos.Step.{Step, Reach, Started, delivers, here, later}
use omni_paxos_kv.OmniPaxos.Invariant.{Inv}
use omni_paxos_kv.OmniPaxos.Invariant.Growth.{Grows, Reach-Grows}
use omni_paxos_kv.OmniPaxos.Invariant.Steps.{Reach-Inv, restart_restores}
use omni_paxos_kv.Examples.States.{
  numbers, peer0, promised0, synced0, decided0, prepare1, sync1, decide1, restarted0,
}

started0 : Started peer0
unfolding peer0 make make_persister
started0 = (3, 0, refl)

first : Step peer0 promised0
unfolding promised0
first = delivers prepare1 _ refl

second : Step promised0 synced0
unfolding synced0 promised0 peer0
second = delivers sync1 _ refl

third : Step synced0 decided0
unfolding decided0 synced0 promised0 peer0 decide_handler accept_sync_handler compare
    prepare_handler make_persister
third = delivers decide1 _ refl

run : Reach peer0 decided0
run = later (later (later here first) second) third

decided0_log : decided0.os.log ≡ 7 ∷ []
unfolding decided0 synced0 promised0 peer0 make deliver decide_handler accept_sync_handler compare
    prepare_handler make_persister
decided0_log = refl

Reach-Inv_example : Inv decided0
Reach-Inv_example = Reach-Inv started0 run

Reach-Grows_example : Grows promised0.os decided0.os
Reach-Grows_example = Reach-Grows started0 (later here first) (later (later here second) third)

restarted : make decided0.peers decided0.me decided0.persister ≡ some restarted0
unfolding restarted0 decided0 synced0 promised0 peer0 make deliver decide_handler
    accept_sync_handler compare prepare_handler make_persister
restarted = refl

restart_restores_example :
    (restarted0.os ≡ decided0.os)
    × (indices restarted0.applied ≡ range decided0.os.decided_idx)
    × (commands restarted0.applied ≡ take decided0.os.decided_idx decided0.os.log)
restart_restores_example = restart_restores restarted0 started0 run restarted
