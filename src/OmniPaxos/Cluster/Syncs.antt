-- ===== src/OmniPaxos/Cluster/Syncs.antt =====
-- The AcceptSyncs with which a round begins.
use omni_paxos_kv.Prelude.{
  ℕ, ◌≤◌, ◌≡◌, refl, ap, ◌∙◌, inl, inr, Option, some, none, List, [], ◌∷◌, arith, eqb,
  if◌then◌else◌, Bool-cases, length, drop, Assoc,
}
use omni_paxos_kv.OmniPaxos.Ballot.{Ballot, ballot_beq}
use omni_paxos_kv.OmniPaxos.Types.{OmniPaxos, Promise, AcceptSyncRequest}
use omni_paxos_kv.OmniPaxos.Log.{suffix}
use omni_paxos_kv.OmniPaxos.Promise.{sync_message, sync_all}
use omni_paxos_kv.OmniPaxos.Cluster.{sync, ordered_for, unordered}
use omni_paxos_kv.OmniPaxos.Cluster.Round.{entries}

module _ {C : Type 0} where
  -- The promise of peer `j`.
  abbrev pub promise_from : ℕ → Assoc ℕ (Promise C) → Option (Promise C)
  promise_from j [] = none
  promise_from j ((_, p) ∷ ps) = let rest = promise_from j ps in if eqb p.f j then some p else rest

  -- The index from which the leader sends its log.
  abbrev pub sync_from : Promise C → Promise C → ℕ
  sync_from top p = if ballot_beq p.acc_rnd top.acc_rnd then p.log_idx else p.dec_idx

  abbrev pub the_sync : OmniPaxos C → Ballot → ℕ → AcceptSyncRequest C
  the_sync op n i = record { l = op.me; n = n; sfx = suffix op i; sync_idx = i }

  pub ordered_for-outsider :
      (j : ℕ) (op : OmniPaxos C) (n : Ballot) (top : Promise C) (ps : Assoc ℕ (Promise C))
      → entries j ps ≡ 0
      → ordered_for j (sync_all op n top ps) ≡ []
  unfolding sync_all sync_message
  ordered_for-outsider j op n top [] h = refl
  ordered_for-outsider j op n top ((k, p) ∷ ps) h = elim (Bool-cases (eqb p.f j)) [
    | inl e ↦ absurd (ground arith)
    | inr e ↦ rw e (ordered_for-outsider j op n top ps (ground arith))
  ]

  pub ordered_for-member :
      (j : ℕ) (op : OmniPaxos C) (n : Ballot) (top : Promise C) (ps : Assoc ℕ (Promise C))
      → entries j ps ≡ 1
      → (p : Promise C) × (promise_from j ps ≡ some p)
        × (ordered_for j (sync_all op n top ps) ≡ sync (the_sync op n (sync_from top p)) ∷ [])
  unfolding sync_all sync_message
  ordered_for-member j op n top [] h = absurd (ground arith)
  ordered_for-member j op n top ((k, p) ∷ ps) h = elim (Bool-cases (eqb p.f j)) [
    | inl e ↦
        let nothing = ordered_for-outsider j op n top ps (ground arith) in
        (p, rw e refl, rw e (ap (◌∷◌ (sync (the_sync op n (sync_from top p)))) nothing))
    | inr e ↦ let (q, a, b) = ordered_for-member j op n top ps (ground arith) in (q, rw e a, rw e b)
  ]

  pub unordered-sync_all :
      (op : OmniPaxos C) (n : Ballot) (top : Promise C) (ps : Assoc ℕ (Promise C))
      → unordered (sync_all op n top ps) ≡ []
  unfolding sync_all sync_message
  unordered-sync_all op n top [] = refl
  unordered-sync_all op n top ((k, p) ∷ ps) = unordered-sync_all op n top ps

  suffix_inside : (op : OmniPaxos C) (i : ℕ) → i ≤ length op.os.log → suffix op i ≡ drop i op.os.log
  unfolding suffix
  suffix_inside op i h = ground arith

  pub suffix_of :
      (op : OmniPaxos C) (log : List C) (i : ℕ)
      → op.os.log ≡ log
      → i ≤ length log
      → suffix op i ≡ drop i log
  suffix_of op log i e h =
      let s : suffix op i ≡ drop i op.os.log = suffix_inside op i (omega (arith, ap length e, h)) in
      s ∙ ap (drop i) e
