-- ===== src/Examples/States.antt =====
-- A storage format for the durable state of a peer whose commands are numbers, and the first steps
-- of a peer that follows.
use omni_paxos_kv.Prelude.{
  ℕ, zero, suc, ◌≡◌, refl, true, Option, none, some, List, [], ◌∷◌, ℤ, pos, negsuc,
}
use omni_paxos_kv.OmniPaxos.Ballot.{Ballot}
use omni_paxos_kv.OmniPaxos.Persister.{make_persister}
use omni_paxos_kv.OmniPaxos.Log.{read_persist, add_to_apply_chan}
use omni_paxos_kv.OmniPaxos.Make.{fresh, make, deliver}
use omni_paxos_kv.OmniPaxos.Types.{
  OmniPaxosState, OmniPaxos, Promise, Phase, leader, Message, Outcome, Codec,
}

abbrev sign : ℤ → ℕ
sign (pos n) = 0
sign (negsuc n) = 1

abbrev size : ℤ → ℕ
size (pos n) = n
size (negsuc n) = n

abbrev signed : ℕ → ℕ → ℤ
signed zero n = pos n
signed (suc _) n = negsuc n

signed-sign : (z : ℤ) → signed (sign z) (size z) ≡ z
signed-sign (pos n) = refl
signed-sign (negsuc n) = refl

abbrev encode_ballot : Ballot → List ℕ → List ℕ
encode_ballot b rest = sign b.n ∷ size b.n ∷ sign b.pid ∷ size b.pid ∷ rest

abbrev encode : OmniPaxosState ℕ → List ℕ
encode s =
    s.decided_idx
    ∷ encode_ballot s.l (encode_ballot s.promised_rnd (encode_ballot s.accepted_rnd s.log))

abbrev ballot_of : ℕ → ℕ → ℕ → ℕ → Ballot
ballot_of s n t p = record { n = signed s n; pid = signed t p }

abbrev decode : List ℕ → Option (OmniPaxosState ℕ)
decode (d ∷ a ∷ b ∷ c ∷ e ∷ f ∷ g ∷ h ∷ i ∷ j ∷ k ∷ l ∷ m ∷ log) = some (record {
  l = ballot_of a b c e;
  log = log;
  promised_rnd = ballot_of f g h i;
  accepted_rnd = ballot_of j k l m;
  decided_idx = d;
})
decode _ = none

pub decode-encode : (s : OmniPaxosState ℕ) → decode (encode s) ≡ some s
decode-encode s =
    rw
      (
        signed-sign s.l.n,
        signed-sign s.l.pid,
        signed-sign s.promised_rnd.n,
        signed-sign s.promised_rnd.pid,
        signed-sign s.accepted_rnd.n,
        signed-sign s.accepted_rnd.pid,
      )
      refl

instance abbrev pub numbers : Codec ℕ
numbers = record {
  encode = encode;
  decode = decode;
  decode-encode = decode-encode;
  decode-nil = refl;
}

abbrev pub ballot : ℕ → ℕ → Ballot
ballot n p = record { n = pos n; pid = pos p }

-- What a handler leaves; a panic leaves nothing.
abbrev state_of : OmniPaxos ℕ → Option (Outcome ℕ) → OmniPaxos ℕ
state_of op none = op
state_of op (some (op', _)) = op'

abbrev started : Option (OmniPaxos ℕ) → OmniPaxos ℕ → OmniPaxos ℕ
started none op = op
started (some op') op = op'

-- Peer 0 of three is started, follows peer 1, and learns that command 7 is decided.
unfoldable pub peer0 : OmniPaxos ℕ
unfolding make read_persist fresh add_to_apply_chan
peer0 = started (make 3 0 make_persister) (fresh 3 0 make_persister)

abbrev pub prepare1 : Message ℕ
prepare1 =
    Message.prepare
      (record { l = 1; n = ballot 1 1; acc_rnd = ballot 0 0; log_idx = 1; dec_idx = 0 })

abbrev pub sync1 : Message ℕ
sync1 = Message.accept_sync (record { l = 1; n = ballot 1 1; sfx = 7 ∷ []; sync_idx = 0 })

abbrev pub decide1 : Message ℕ
decide1 = Message.decide (record { l = 1; n = ballot 1 1; dec_idx = 1 })

unfoldable pub promised0 : OmniPaxos ℕ
unfolding peer0 deliver
promised0 = state_of peer0 (deliver peer0 prepare1)

unfoldable pub synced0 : OmniPaxos ℕ
unfolding promised0 deliver
synced0 = state_of promised0 (deliver promised0 sync1)

unfoldable pub decided0 : OmniPaxos ℕ
unfolding synced0 deliver
decided0 = state_of synced0 (deliver synced0 decide1)

-- Peer 0 after a crash.
unfoldable pub restarted0 : OmniPaxos ℕ
unfolding make
restarted0 = started (make 3 0 decided0.persister) peer0

-- Peer 1 as the leader of round 1, with three promises and one entry, which peer 1 has accepted.
abbrev promise_from : ℕ → Promise ℕ
promise_from p = record { f = p; acc_rnd = ballot 0 0; log_idx = 0; dec_idx = 0; log = [] }

unfoldable pub leader1 : OmniPaxos ℕ
unfolding fresh
leader1 = record (fresh 3 1 make_persister) {
  current_rnd = ballot 1 1;
  promises = (0, promise_from 0) ∷ (1, promise_from 1) ∷ (2, promise_from 2) ∷ [];
  accepted = 0 ∷ 1 ∷ 0 ∷ [];
  os = record {
    l = ballot 1 1;
    log = 7 ∷ [];
    promised_rnd = ballot 1 1;
    accepted_rnd = ballot 1 1;
    decided_idx = 0;
  };
  ballots = (ballot 2 2, true) ∷ (ballot 1 1, true) ∷ [];
  state = record { role = leader; phase = Phase.accept };
}

-- The same leader while it waits for promises.
unfoldable pub preparing1 : OmniPaxos ℕ
unfolding leader1
preparing1 = record leader1 { state = record { role = leader; phase = Phase.prepare } }
