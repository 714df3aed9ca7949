-- ===== src/OmniPaxos/Cluster/Decided.antt =====
-- What is decided while one leader stays.
use omni_paxos_kv.Prelude.{
  ℕ, zero, suc, ◌+◌, ◌≤◌, ◌≡◌, refl, sym, ap, subst, ◌∙◌, inl, inr, some, replicate,
  length-replicate, arith, Option-cases, length, store_at, length-store_at, Assoc,
}
use omni_paxos_kv.OmniPaxos.Ballot.{Ballot}
use omni_paxos_kv.OmniPaxos.Types.{OmniPaxos, Promise, Outbox, Codec}
use omni_paxos_kv.OmniPaxos.Log.{persist}
use omni_paxos_kv.OmniPaxos.Promise.{max_promise, adopt, start_accept}
use omni_paxos_kv.OmniPaxos.Cluster.{Cluster}
use omni_paxos_kv.OmniPaxos.Cluster.Begins.{Begins, Begins-nothing_else}
use omni_paxos_kv.OmniPaxos.Cluster.Holders.{Bounded, Bounded-store_at, AllHeld, held}
use omni_paxos_kv.OmniPaxos.Cluster.Majority.{Counts}
use omni_paxos_kv.OmniPaxos.Cluster.Held.{Kept}

zeros-Bounded : (h : ℕ → ℕ) (k m : ℕ) → Bounded h k (replicate m 0)
zeros-Bounded h k zero i a e = absurd (ground arith)
zeros-Bounded h k (suc m) zero a e = ground arith
zeros-Bounded h k (suc m) (suc i) a e =
    let s : k + 1 + i ≡ k + suc i = omega arith in
    let tail = zeros-Bounded h (k + 1) m i a e in rw s at tail

module _ {C : Type 0} ⦃codec : Codec C⦄ (n : Ballot) (l : ℕ) (ps : Assoc ℕ (Promise C)) where
  begun-Counts :
      (op op' : OmniPaxos C) (out : Outbox C) (h : ℕ → ℕ)
      → start_accept op n ≡ some (op', out)
      → op.accepted ≡ replicate op.peers 0
      → length op'.os.log ≤ h op.me
      → Counts op'.os.decided_idx h op'
  unfolding start_accept persist
  begun-Counts op op' out h e zeros held =
      let log = adopt op (max_promise op) in
      elim (Option-cases (store_at op.accepted op.me (length log))) [
        | inl f ↦ absurd (ground arith)
        | inr (accepted, at) ↦
            let same_log : log ≡ op'.os.log = ground arith in
            let same : accepted ≡ op'.accepted = ground arith in
            let peers : op.peers ≡ op'.peers = ground arith in
            let old : Bounded h 0 op.accepted =
              subst (Bounded h 0) (sym zeros) (zeros-Bounded h 0 op.peers) in
            record {
              bounded = subst (Bounded h 0) same (
                  Bounded-store_at h op.accepted op.me (length log) accepted old at
                    (omega (arith, held, ap length same_log)));
              size =
                  ap length (sym same)
                  ∙ length-store_at op.accepted op.me (length log) accepted at
                  ∙ ap length zeros
                  ∙ length-replicate op.peers 0
                  ∙ peers;
              majority = inl refl;
            }
      ]

  pub Begins-Kept :
      (s : Cluster C) (b : Begins n l ps s)
      → b.before.accepted ≡ replicate b.before.peers 0
      → Kept l ps (s.peers l).os.decided_idx s
  Begins-Kept s b zeros =
      let h = held l ps s.peers in
      record {
        counts =
            begun-Counts b.before (s.peers l) b.out h b.starts zeros
              (let me = b.me in ground arith);
        soup = subst (AllHeld h) (sym (Begins-nothing_else n l ps s b)) tt;
      }
