-- ===== src/ShardCtrler/Channels.antt =====
-- a3b-sharding/shardctrler/server.go: the lock and the channels between `propose` and
-- `applyCommands`, as steps. What is applied is in Apply; here is who waits for whom.
use omni_paxos_kv.Prelude.{
  get_elem?-inside, ◌<◌, ap, length, length-set, get_elem?-set_self, lookup-insert_self, nat_eq, ℕ,
  ◌≡◌, ◌≢◌, refl, subst, ◌∙◌, none, some, List, get_elem?, get_elem?-set_ne, set, Assoc, lookup,
  insert, erase, arith,
}

-- Where a call of `propose` stands: it has the index of its proposal and wants the lock to register
-- its channel, it is in the select, it has the result or has timed out and wants the lock to remove
-- the channel, or it is over.
pub data Proposer : Type 0 where
  wants : ℕ → Proposer
  waits : ℕ → Proposer
  served : ℕ → Proposer
  late : ℕ → Proposer
  over : Proposer

-- Where `applyCommands` stands: at the receive, without the lock, or at the send to a proposer's
-- channel, with it.
pub data Applier : Type 0 where
  idle : Applier
  sends : ℕ → Applier

-- `chans` has the proposer whose channel is registered under an index.
pub record Desk : Type 0 where
  pub chans : Assoc ℕ ℕ
  pub proposers : List Proposer
  pub applier : Applier

-- What `applyCommands` does with the result for an index.
unfoldable pub answer : Desk → ℕ → Applier
answer d i = elim (lookup i d.chans) [ some p ↦ sends p | none ↦ idle ]

pub data Step (d : Desk) : Desk → Type 0 where
  registers :
      (p i : ℕ) {d' : Desk}
      → get_elem? d.proposers p ≡ some (wants i)
      → d.applier ≡ idle
      → record d { chans = insert i p d.chans; proposers = set d.proposers p (waits i) } ≡ d'
      → Step d d'
  applies :
      (i : ℕ) {d' : Desk} → d.applier ≡ idle → record d { applier = answer d i } ≡ d' → Step d d'
  hands_over :
      (p i : ℕ) {d' : Desk}
      → d.applier ≡ sends p
      → get_elem? d.proposers p ≡ some (waits i)
      → record d { proposers = set d.proposers p (served i); applier = idle } ≡ d'
      → Step d d'
  expires :
      (p i : ℕ) {d' : Desk}
      → get_elem? d.proposers p ≡ some (waits i)
      → record d { proposers = set d.proposers p (late i) } ≡ d'
      → Step d d'
  removes_served :
      (p i : ℕ) {d' : Desk}
      → get_elem? d.proposers p ≡ some (served i)
      → d.applier ≡ idle
      → record d { chans = erase i d.chans; proposers = set d.proposers p over } ≡ d'
      → Step d d'
  removes_late :
      (p i : ℕ) {d' : Desk}
      → get_elem? d.proposers p ≡ some (late i)
      → d.applier ≡ idle
      → record d { chans = erase i d.chans; proposers = set d.proposers p over } ≡ d'
      → Step d d'

pub data Reach (d : Desk) : Desk → Type 0 where
  here : Reach d d
  later : {s t : Desk} → Reach d s → Step s t → Reach d t

not_same :
    (xs : List Proposer) (p q i j : ℕ)
    → get_elem? xs p ≡ some (late i)
    → get_elem? xs q ≡ some (waits j)
    → q ≢ p
not_same xs p q i j h e r =
    let e' : get_elem? xs p ≡ some (waits j) = rw r at e in absurd (ground arith)

module _ (p i : ℕ) where
  -- The applier holds the lock and sends to `p`, which has timed out and wants the lock.
  record IsDeadlocked (d : Desk) : Type 0 where
    sending : d.applier ≡ sends p
    gone : get_elem? d.proposers p ≡ some (late i)

  Step-IsDeadlocked : {d d' : Desk} → IsDeadlocked d → Step d d' → IsDeadlocked d'
  Step-IsDeadlocked {d} v (registers q j e f s) = let l = v.sending in absurd (ground arith)
  Step-IsDeadlocked {d} v (applies j f s) = let l = v.sending in absurd (ground arith)
  Step-IsDeadlocked {d} v (hands_over q j f e s) =
      let l = v.sending in
      let same : q ≡ p = ground arith in absurd (not_same d.proposers p q i j v.gone e same)
  Step-IsDeadlocked {d} v (expires q j e s) = subst (IsDeadlocked) s (record {
    sending = v.sending;
    gone =
        get_elem?-set_ne d.proposers q p (late j) (not_same d.proposers p q i j v.gone e) ∙ v.gone;
  })
  Step-IsDeadlocked {d} v (removes_served q j e f s) = let l = v.sending in absurd (ground arith)
  Step-IsDeadlocked {d} v (removes_late q j e f s) = let l = v.sending in absurd (ground arith)

  Reach-IsDeadlocked : {d d' : Desk} → IsDeadlocked d → Reach d d' → IsDeadlocked d'
  Reach-IsDeadlocked v here = v
  Reach-IsDeadlocked v (later r s) = Step-IsDeadlocked (Reach-IsDeadlocked v r) s

-- A controller can stop for ever, at any call of `propose` that got an index while no result was
-- being sent: after three steps - the call registers its channel, the command of its index is
-- applied, and the call times out before the send - `applyCommands` is at this send with the lock,
-- whatever happens from then on.
pub controller_can_stop :
    (d : Desk) (p i : ℕ)
    → get_elem? d.proposers p ≡ some (wants i)
    → d.applier ≡ idle
    → (w : Desk) × Reach d w × ((t : Desk) → Reach w t → t.applier ≡ sends p)
unfolding answer
controller_can_stop d p i h a =
    let xs = set d.proposers p (waits i) in
    let d₁ : Desk = record d { chans = insert i p d.chans; proposers = xs } in
    let d₂ : Desk = record d₁ { applier = sends p } in
    let d₃ : Desk = record d₂ { proposers = set xs p (late i) } in
    let r = get_elem?-inside d.proposers p (wants i) h in
    let r' : p < length xs = omega (arith, r, length-set d.proposers p (waits i)) in
    let found : answer d₁ i ≡ sends p = ground (arith, lookup-insert_self i p d.chans) in
    (
      d₃,
      later
          (later (later here (registers p i h a refl))
            (applies i a (ap (λ (x : Applier). record d₁ { applier = x }) found)))
          (expires p i (get_elem?-set_self d.proposers p (waits i) r) refl),
      λ t s.
          (Reach-IsDeadlocked p i
            (record { sending = refl; gone = get_elem?-set_self xs p (late i) r' }) s).sending,
    )
