-- ===== src/OmniPaxos/Cluster/Accepted.antt =====
-- While one leader stays, its round is the accepted round of those that have joined it, and of no
-- others.
use omni_paxos_kv.Prelude.{
  ℕ, ◌≡◌, ◌≢◌, ◌⊎◌, sym, ap, subst, ◌∙◌, inl, inr, true, some, List, [], ◌∷◌, arith, eqb,
  Bool-cases, Assoc,
}
use omni_paxos_kv.OmniPaxos.Ballot.{Ballot}
use omni_paxos_kv.OmniPaxos.Ballot.Order.{AtMost}
use omni_paxos_kv.OmniPaxos.Types.{OmniPaxos, Promise, Phase, leader, Outbox, Codec}
use omni_paxos_kv.OmniPaxos.Log.{persist}
use omni_paxos_kv.OmniPaxos.Accept.{in_round, accept_sync_handler, accept_handler}
use omni_paxos_kv.OmniPaxos.Make.{deliver}
use omni_paxos_kv.OmniPaxos.Election.{heart_beat_reply}
use omni_paxos_kv.OmniPaxos.Cluster.{
  Cluster, Ordered, sync, append, call, update, Step, Reach, proposes, receives, hears, answers,
  ticks, here, later,
}
use omni_paxos_kv.OmniPaxos.Cluster.Quiet.{Quiet}
use omni_paxos_kv.OmniPaxos.Cluster.Quiet.Steps.{
  Loose-Quiet, leader-Quiet, proposal-Quiet, heart_beat_reply-Quiet,
}
use omni_paxos_kv.OmniPaxos.Links.{timer_round}
use omni_paxos_kv.OmniPaxos.Cluster.Quiet.Timer.{timer_round-Quiet}
use omni_paxos_kv.OmniPaxos.Cluster.Round.{entries, Follows}
use omni_paxos_kv.OmniPaxos.Cluster.Steady.{Inv-at_work, TakesPart, Leads, Inv, update_all}
use omni_paxos_kv.OmniPaxos.Cluster.Loose.{AllLoose-get}
use omni_paxos_kv.OmniPaxos.Cluster.Handlers.{proposal-Proposes, compare_self}
use omni_paxos_kv.OmniPaxos.Cluster.Agreement.{Step-Inv}

module _ {C : Type 0} (n : Ballot) (l : ℕ) (ps : Assoc ℕ (Promise C)) where
  -- Peer `j` has accepted round `n`, or waits for its AcceptSync or gets none.
  abbrev pub Marked : ℕ → OmniPaxos C → Type 0
  Marked j op =
      ((op.os.accepted_rnd ≡ n) × (op.state.phase ≡ Phase.accept) × TakesPart l ps j)
      ⊎ ((j ≢ l)
          × AtMost op.os.accepted_rnd n
          × (op.os.accepted_rnd ≢ n)
          × ((entries j ps ≡ 0) ⊎ (op.state.phase ≡ Phase.prepare)))

  abbrev pub AllMarked : Cluster C → Type 0
  AllMarked s = (j : ℕ) → Marked j (s.peers j)

  Quiet-Marked :
      {op op' : OmniPaxos C} {out : Outbox C} (j : ℕ)
      → Quiet op op' out
      → Marked j op
      → Marked j op'
  Quiet-Marked j k (inl (a, p, t)) = inl (k.accepted ∙ a, ap (λ s. s.phase) k.state ∙ p, t)
  Quiet-Marked j k (inr (ne, le, apart, w)) = inr (
    ne,
    subst (λ b. AtMost b n) (sym k.accepted) le,
    λ e. apart (sym k.accepted ∙ e),
    elim w [ inl z ↦ inl z | inr p ↦ inr (ap (λ s. s.phase) k.state ∙ p) ],
  )

module _ {C : Type 0} ⦃codec : Codec C⦄ (n : Ballot) (l : ℕ) (ps : Assoc ℕ (Promise C))
    (once : (j : ℕ) → j ≢ l → (entries j ps ≡ 0) ⊎ (entries j ps ≡ 1)) where
  received-Marked :
      (j : ℕ) (op op' : OmniPaxos C) (m : Ordered C) (q : List (Ordered C)) (log : List C)
      (out : Outbox C)
      → j ≢ l
      → entries j ps ≡ 1
      → Follows n l j op (m ∷ q) log
      → deliver op (call m) ≡ some (op', out)
      → Marked n l ps j op
      → Marked n l ps j op'
  unfolding deliver accept_handler accept_sync_handler persist
  received-Marked j op op' (append r) q log out ne one v h mark =
      let (phase, round, from, rest) = v.ready in
      let in_it : in_round op r.n ≡ true = ground (arith, v.promised, compare_self n) in
      let state : op'.state.phase ≡ Phase.accept = ground (arith, v.role, phase) in
      let same : op'.os.accepted_rnd ≡ op.os.accepted_rnd = ground (arith, v.role, phase) in
      elim mark [
        | inl (a, _, t) ↦ inl (same ∙ a, state, t)
        | inr (_, _, _, inl z) ↦ absurd (ground arith)
        | inr (_, _, _, inr p) ↦ absurd (ground arith)
      ]
  received-Marked j op op' (sync r) q log out ne one v h mark =
      let (phase, round, from, inside, keeps, rest) = v.ready in
      let in_it : in_round op r.n ≡ true = ground (arith, v.promised, compare_self n) in
      let state : op'.state.phase ≡ Phase.accept = ground (arith, v.role, phase) in
      let now : op'.os.accepted_rnd ≡ r.n = ground (arith, v.role, phase) in
      inl (now ∙ round, state, inr (ne, one))

  update-AllMarked :
      (s : Cluster C) (i : ℕ) (op' : OmniPaxos C)
      → Marked n l ps i op'
      → AllMarked n l ps s
      → (j : ℕ) → Marked n l ps j (update s.peers i op' j)
  update-AllMarked s i op' m v = update_all (Marked n l ps) s.peers i op' m v

  pub Step-AllMarked :
      {s s' : Cluster C} → Inv n l ps s → AllMarked n l ps s → Step s s' → AllMarked n l ps s'
  Step-AllMarked {s} v k (proposes i command op' out p e f) = subst (AllMarked n l ps) f (
      update-AllMarked s i op'
        (elim (Bool-cases (eqb i l)) [
          | inl t ↦
              let same : i ≡ l = ground arith in
              let leads : Leads n l ps (s.peers i) =
                subst (λ j. Leads n l ps (s.peers j)) (sym same) v.leads in
              let made = proposal-Proposes n l ps (s.peers i) op' command out p leads e in
              elim (k i) [
                | inl (a, _, t) ↦ inl (made.accepted ∙ a, made.leads.phase, t)
                | inr (ne, _, _, _) ↦ absurd (ne same)
              ]
          | inr t ↦
              let ne : i ≢ l = ground arith in
              Quiet-Marked n l ps i
                (proposal-Quiet (s.peers i) op' command out p (v.followers i ne) e) (k i)
        ])
        k)
  Step-AllMarked {s} v k (receives i m rest op' out q e f) = subst (AllMarked n l ps) f (
      update-AllMarked s i op'
        (elim (Bool-cases (eqb i l)) [
          | inl t ↦
              let same : i ≡ l = ground arith in
              let role : (s.peers i).state.role ≡ leader =
                ap (λ j. (s.peers j).state.role) same ∙ v.leads.role in
              Quiet-Marked n l ps i (leader-Quiet (s.peers i) op' m out role e) (k i)
          | inr t ↦
              let ne : i ≢ l = ground arith in
              elim (once i ne) [
                | inl z ↦
                    let none_left : s.queues i ≡ [] = v.outsiders i ne z in absurd (ground arith)
                | inr one ↦
                    let g : Follows n l i (s.peers i) (m ∷ rest) (s.peers l).os.log =
                      subst (λ q. Follows n l i (s.peers i) q (s.peers l).os.log) q
                        (v.members i ne one) in
                    received-Marked i (s.peers i) op' m rest (s.peers l).os.log out ne one g e (k i)
              ]
        ])
        k)
  Step-AllMarked {s} v k (hears i at m op' out got e f) =
      let loose = AllLoose-get s.soup at i m v.soup got in
      subst (AllMarked n l ps) f (
        update-AllMarked s i op'
          (Quiet-Marked n l ps i (Loose-Quiet (s.peers i) op' m out loose e) (k i)) k)
  Step-AllMarked {s} v k (answers i r p reply f) =
      let op' = heart_beat_reply (s.peers i) r p reply in
      let quiet = heart_beat_reply-Quiet (s.peers i) r p reply in
      subst (AllMarked n l ps) f (update-AllMarked s i op' (Quiet-Marked n l ps i quiet (k i)) k)
  Step-AllMarked {s} v k (ticks i out same f) =
      let quiet = timer_round-Quiet (s.peers i) same (Inv-at_work n l ps s i v) in
      subst (AllMarked n l ps) f
        (update-AllMarked s i (timer_round (s.peers i)).0 (Quiet-Marked n l ps i quiet (k i)) k)

  pub Reach-AllMarked :
      {s t : Cluster C}
      → Inv n l ps s
      → AllMarked n l ps s
      → Reach s t
      → Inv n l ps t × AllMarked n l ps t
  Reach-AllMarked v k here = (v, k)
  Reach-AllMarked v k (later r st) =
      let (v', k') = Reach-AllMarked v k r in (Step-Inv n l ps once v' st, Step-AllMarked v' k' st)
