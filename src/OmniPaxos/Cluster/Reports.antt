-- ===== src/OmniPaxos/Cluster/Reports.antt =====
-- What a step does to the log of a peer, and what the peer reports of it.
use omni_paxos_kv.Prelude.{
  ℕ, ◌≤◌, ◌≡◌, ◌≢◌, ◌⊎◌, sym, ap, subst, ◌∙◌, inl, inr, true, some, List, [], ◌∷◌, ◌++◌, arith,
  length, length-append, Assoc,
}
use omni_paxos_kv.OmniPaxos.Ballot.{Ballot}
use omni_paxos_kv.OmniPaxos.Types.{OmniPaxos, Promise, Phase, Message, Outbox, Codec}
use omni_paxos_kv.OmniPaxos.Log.{persist, prefix}
use omni_paxos_kv.OmniPaxos.Accept.{in_round, accept_sync_handler, accept_handler}
use omni_paxos_kv.OmniPaxos.Make.{deliver}
use omni_paxos_kv.OmniPaxos.Cluster.{Ordered, sync, append, call, update, unordered}
use omni_paxos_kv.OmniPaxos.Cluster.Quiet.{Quiet}
use omni_paxos_kv.OmniPaxos.Cluster.Round.{entries, Follows}
use omni_paxos_kv.OmniPaxos.Cluster.Handlers.{compare_self}
use omni_paxos_kv.OmniPaxos.Cluster.Holders.{AllHeld, unordered-AllHeld, AllDecides-AllHeld, held}

module _ {C : Type 0} (l : ℕ) where
  -- What a peer has after a step that is not the first of its round, or keeps its log.
  abbrev pub KeepsLog : ℕ → OmniPaxos C → OmniPaxos C → Type 0
  KeepsLog i op op' =
      ((i ≢ l) × (op.state.phase ≡ Phase.prepare))
      ⊎ ((op'.state.phase ≡ op.state.phase) × (length op.os.log ≤ length op'.os.log))

  pub Quiet-KeepsLog :
      {op op' : OmniPaxos C} {out : Outbox C} (i : ℕ) → Quiet op op' out → KeepsLog i op op'
  Quiet-KeepsLog i k = inr (ap (λ s. s.phase) k.state, omega (arith, ap length k.log))

module _ {C : Type 0} ⦃codec : Codec C⦄ (n : Ballot) (l : ℕ) where
  -- A follower reports the length of its own log.
  pub received_report :
      (j : ℕ) (op op' : OmniPaxos C) (m : Ordered C) (q : List (Ordered C)) (log : List C)
      (out : Outbox C)
      → j ≢ l
      → Follows n l j op (m ∷ q) log
      → deliver op (call m) ≡ some (op', out)
      → KeepsLog l j op op'
        × (op'.state.phase ≡ Phase.accept)
        × ((h : ℕ → ℕ) → length op'.os.log ≤ h op.me → AllHeld h out)
  unfolding deliver accept_handler accept_sync_handler persist
  received_report j op op' (append r) q log out ne v h =
      let (phase, round, from, rest) = v.ready in
      let in_it : in_round op r.n ≡ true = ground (arith, v.promised, compare_self n) in
      let longer : length op.os.log ≤ length (op.os.log ++ r.c ∷ []) =
        omega (arith, length-append op.os.log (r.c ∷ [])) in
      let log' : op.os.log ++ r.c ∷ [] ≡ op'.os.log = ground (arith, v.role, phase) in
      let state : op.state ≡ op'.state = ground (arith, v.role, phase) in
      let sent : (
        r.l,
        Message.accepted (record { f = op.me; n = r.n; log_idx = length (op.os.log ++ r.c ∷ []) }),
      )
            ∷ []
          ≡ out =
        ground (arith, v.role, phase) in
      (
        inr (ap (λ s. s.phase) (sym state), omega (arith, longer, ap length log')),
        ap (λ s. s.phase) (sym state) ∙ phase,
        λ h le. subst (AllHeld h) sent (omega (arith, le, ap length log'), tt),
      )
  received_report j op op' (sync r) q log out ne v h =
      let (phase, round, from, inside, keeps, rest) = v.ready in
      let in_it : in_round op r.n ≡ true = ground (arith, v.promised, compare_self n) in
      let accepting : op'.state.phase ≡ Phase.accept = ground (arith, v.role, phase) in
      let log' : prefix op r.sync_idx ++ r.sfx ≡ op'.os.log = ground (arith, v.role, phase) in
      let sent : (
        r.l,
        Message.accepted
            (record { f = op.me; n = r.n; log_idx = length (prefix op r.sync_idx ++ r.sfx) }),
      )
            ∷ []
          ≡ out =
        ground (arith, v.role, phase) in
      (
        inl (ne, phase),
        accepting,
        λ h le. subst (AllHeld h) sent (omega (arith, le, ap length log'), tt),
      )

module _ {C : Type 0} (l : ℕ) (ps : Assoc ℕ (Promise C)) where
  pub held-leader :
      (peers : ℕ → OmniPaxos C) (i : ℕ) (op' : OmniPaxos C)
      → i ≡ l
      → length op'.os.log ≤ held l ps (update peers i op') i
  held-leader peers i op' same = ground arith

  pub held-member :
      (peers : ℕ → OmniPaxos C) (i : ℕ) (op' : OmniPaxos C)
      → i ≢ l
      → entries i ps ≡ 1
      → op'.state.phase ≡ Phase.accept
      → length op'.os.log ≤ held l ps (update peers i op') i
  held-member peers i op' ne one phase = ground arith

module _ {C : Type 0} where
  pub Quiet-AllHeld :
      (h : ℕ → ℕ) {op op' : OmniPaxos C} {out : Outbox C}
      → Quiet op op' out
      → AllHeld h (unordered out)
  Quiet-AllHeld h {op} {op'} {out} k = unordered-AllHeld h out (AllDecides-AllHeld h out k.sends)
