-- ===== src/OmniPaxos/Cluster/Round.antt =====
-- One round of a leader: what holds of the peers while it lasts.
use omni_paxos_kv.Prelude.{
  ℕ, suc, ◌≤◌, ◌≡◌, refl, ◌∙◌, List, [], ◌∷◌, ◌++◌, arith, eqb, if◌then◌else◌, length, take,
  take-append_left, take-take, length-append, length-take, Assoc,
}
use omni_paxos_kv.OmniPaxos.Ballot.{Ballot}
use omni_paxos_kv.OmniPaxos.Types.{OmniPaxos, Promise, Phase, follower, AcceptRequest}
use omni_paxos_kv.OmniPaxos.Cluster.{Ordered, sync, append}
use omni_paxos_kv.OmniPaxos.Cluster.Quiet.{Delivered}

module _ {C : Type 0} where
  -- A follower's log after the messages of its queue.
  abbrev pub replay : List C → List (Ordered C) → List C
  replay log [] = log
  replay log (sync r ∷ q) = replay (take r.sync_idx log ++ r.sfx) q
  replay log (append r ∷ q) = replay (log ++ r.c ∷ []) q

  pub replay-append :
      (log : List C) (q : List (Ordered C)) (r : AcceptRequest C)
      → replay log (q ++ append r ∷ []) ≡ replay log q ++ r.c ∷ []
  replay-append log [] r = refl
  replay-append log (sync s ∷ q) r = replay-append (take s.sync_idx log ++ s.sfx) q r
  replay-append log (append s ∷ q) r = replay-append (log ++ s.c ∷ []) q r

  -- How many promises a peer has given.
  abbrev pub entries : ℕ → Assoc ℕ (Promise C) → ℕ
  entries j [] = 0
  entries j ((_, p) ∷ ps) = let rest = entries j ps in if eqb p.f j then suc rest else rest

module _ {C : Type 0} (n : Ballot) (l : ℕ) where
  -- The Accepts of leader `l` in round `n`.
  abbrev pub AllAccepts : List (Ordered C) → Type 0
  AllAccepts [] = Unit
  AllAccepts (sync r ∷ q) = ⊥
  AllAccepts (append r ∷ q) = (r.n ≡ n) × (r.l ≡ l) × AllAccepts q

  -- The queue of a follower that has joined the round holds Accepts; of one that has not, an
  -- AcceptSync before them, which keeps what the follower has decided.
  abbrev pub Ready : OmniPaxos C → List (Ordered C) → Type 0
  Ready op [] = op.state.phase ≡ Phase.accept
  Ready op (sync r ∷ q) =
      (op.state.phase ≡ Phase.prepare)
      × (r.n ≡ n)
      × (r.l ≡ l)
      × (r.sync_idx ≤ length op.os.log)
      × (op.os.decided_idx ≤ r.sync_idx)
      × AllAccepts q
  Ready op (append r ∷ q) = (op.state.phase ≡ Phase.accept) × (r.n ≡ n) × (r.l ≡ l) × AllAccepts q

  -- Peer `j` follows a leader that has `log`.
  pub record Follows (j : ℕ) (op : OmniPaxos C) (q : List (Ordered C)) (log : List C) : Type 0 where
    pub me : op.me ≡ j
    pub role : op.state.role ≡ follower
    pub promised : op.os.promised_rnd ≡ n
    pub ready : Ready op q
    pub replays : replay op.os.log q ≡ log
    pub delivered : Delivered op

  pub AllAccepts-append :
      (q : List (Ordered C)) (r : AcceptRequest C)
      → r.n ≡ n
      → r.l ≡ l
      → AllAccepts q
      → AllAccepts (q ++ append r ∷ [])
  AllAccepts-append [] r e f v = (e, f, tt)
  AllAccepts-append (sync _ ∷ q) r e f v = v
  AllAccepts-append (append s ∷ q) r e f (a, b, v) = (a, b, AllAccepts-append q r e f v)

  pub Ready-append :
      (op : OmniPaxos C) (q : List (Ordered C)) (r : AcceptRequest C)
      → r.n ≡ n
      → r.l ≡ l
      → Ready op q
      → Ready op (q ++ append r ∷ [])
  Ready-append op [] r e f p = (p, e, f, tt)
  Ready-append op (append s ∷ q) r e f (p, a, b, v) = (p, a, b, AllAccepts-append q r e f v)
  Ready-append op (sync s ∷ q) r e f (p, a, b, i, d, v) =
      (p, a, b, i, d, AllAccepts-append q r e f v)

  -- What a follower has decided stays when its queue arrives.
  replay_keeps :
      (d : ℕ) (log : List C) (q : List (Ordered C))
      → AllAccepts q
      → d ≤ length log
      → take d (replay log q) ≡ take d log
  replay_keeps d log [] v h = refl
  replay_keeps d log (sync _ ∷ q) v h = absurd v
  replay_keeps d log (append r ∷ q) (_, _, v) h =
      replay_keeps d (log ++ r.c ∷ []) q v (omega (arith, length-append log (r.c ∷ []), h))
      ∙ take-append_left d log (r.c ∷ []) h

  pub Ready-keeps :
      (op : OmniPaxos C) (q : List (Ordered C))
      → Ready op q
      → op.os.decided_idx ≤ length op.os.log
      → take op.os.decided_idx (replay op.os.log q) ≡ take op.os.decided_idx op.os.log
  Ready-keeps op [] v h = refl
  Ready-keeps op (append r ∷ q) (p, a, b, v) h =
      replay_keeps op.os.decided_idx op.os.log (append r ∷ q) (a, b, v) h
  Ready-keeps op (sync r ∷ q) (p, a, b, s, d, v) h =
      let short = take r.sync_idx op.os.log in
      let size : length short ≡ r.sync_idx = omega (arith, length-take r.sync_idx op.os.log, s) in
      replay_keeps op.os.decided_idx (short ++ r.sfx) q v
        (omega (arith, length-append short r.sfx, size, d))
      ∙ take-append_left op.os.decided_idx short r.sfx (omega (arith, size, d))
      ∙ take-take op.os.decided_idx r.sync_idx op.os.log d

  -- A follower that has joined the round has a part of the leader's log.
  pub Ready-holds :
      (op : OmniPaxos C) (q : List (Ordered C)) (d : ℕ)
      → Ready op q
      → op.state.phase ≡ Phase.accept
      → d ≤ length op.os.log
      → take d (replay op.os.log q) ≡ take d op.os.log
  Ready-holds op [] d v phase h = refl
  Ready-holds op (append r ∷ q) d (p, a, b, v) phase h =
      replay_keeps d op.os.log (append r ∷ q) (a, b, v) h
  Ready-holds op (sync r ∷ q) d (p, _, _, _, _, v) phase h = absurd (ground arith)
