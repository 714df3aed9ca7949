-- ===== src/OmniPaxos/Quorums.antt =====
-- Majorities and the choice of a leader.
use omni_paxos_kv.Prelude.{
  ℕ, suc, ◌+◌, ◌%◌, ◌≤◌, ◌<◌, ◌≡◌, refl, ◌⊎◌, inl, inr, List, [], ◌∷◌, arith, leb, Bool-cases,
  length, get_elem?, some,
}
use omni_paxos_kv.OmniPaxos.Ballot.{Ballot, compare, positive, negative, max}
use omni_paxos_kv.OmniPaxos.Ballot.Order.{
  AtMost, AtMost-refl, AtMost-trans, AtMost-of_negative, AtMost-of_positive, Among, max_greatest,
}
use omni_paxos_kv.OmniPaxos.Types.{OmniPaxos, Codec}
use omni_paxos_kv.OmniPaxos.Log.{persist, quorum, count_accepted}
use omni_paxos_kv.OmniPaxos.Election.{candidates, trigger_leader, check_leader}

-- At which places both lists of accepted lengths reach their bounds.
both_reach :
    (v w : ℕ) (xs ys : List ℕ)
    → length xs ≡ length ys
    → length xs < count_accepted v xs + count_accepted w ys
    → (i : ℕ) × (x : ℕ) × (y : ℕ) × (get_elem? xs i ≡ some x)
      × (get_elem? ys i ≡ some y)
      × (v ≤ x)
      × (w ≤ y)
unfolding count_accepted
both_reach v w [] [] same h = absurd (omega arith)
both_reach v w [] (y ∷ ys) same h = absurd (omega arith)
both_reach v w (x ∷ xs) [] same h = absurd (omega arith)
both_reach v w (x ∷ xs) (y ∷ ys) same h = elim (Bool-cases (leb v x)) [
  | inl a ↦ elim (Bool-cases (leb w y)) [
    | inl b ↦ (0, x, y, refl, refl, ground arith, ground arith)
    | inr b ↦
        let (i, x', y', p, q, r, s) = both_reach v w xs ys (omega arith) (ground arith) in
        (suc i, x', y', p, q, r, s)
  ]
  | inr a ↦
      let (i, x', y', p, q, r, s) = both_reach v w xs ys (omega arith) (ground arith) in
      (suc i, x', y', p, q, r, s)
]

-- With an odd number of peers two sets that both pass the test of `hasMajorityAccepted`, in two
-- lists of accepted lengths, have a peer in common.
pub majorities_meet :
    (peers v w : ℕ) (xs ys : List ℕ)
    → peers % 2 ≡ 1
    → length xs ≡ peers
    → length ys ≡ peers
    → quorum peers ≤ count_accepted v xs
    → quorum peers ≤ count_accepted w ys
    → (i : ℕ) × (x : ℕ) × (y : ℕ) × (get_elem? xs i ≡ some x)
      × (get_elem? ys i ≡ some y)
      × (v ≤ x)
      × (w ≤ y)
majorities_meet peers v w xs ys odd sx sy h k = both_reach v w xs ys (omega arith) (omega arith)

-- With an even number two halves pass it, so two sets may have no peer in common.
pub halves_pass : (peers : ℕ) → peers % 2 ≡ 0 → quorum peers + quorum peers ≡ peers
halves_pass peers even = omega arith

module _ {C : Type 0} ⦃codec : Codec C⦄ where
  l-trigger_leader : (op : OmniPaxos C) (n : Ballot) → (trigger_leader op n.pid n).0.os.l ≡ op.os.l
  unfolding trigger_leader
  l-trigger_leader op n = ground arith

  -- After `checkLeader` the leader's ballot is the old one or the greatest candidate, whichever is
  -- larger: no candidate is above it, and it does not fall.
  pub check_leader_outranks :
      (op : OmniPaxos C)
      → ((b : Ballot) → Among b (candidates op.ballots) → AtMost b (check_leader op).0.os.l)
        × AtMost op.os.l (check_leader op).0.os.l
        × (((check_leader op).0.os.l ≡ op.os.l)
            ⊎ ((check_leader op).0.os.l ≡ max (candidates op.ballots)))
  unfolding check_leader persist
  check_leader_outranks op =
      let top = max (candidates op.ballots) in
      let above = (max_greatest (candidates op.ballots)).0 in
      let elected = l-trigger_leader (persist (record op { os = record op.os { l = top } })) top in
      elim (Bool-cases (negative (compare top op.os.l))) [
        | inl e ↦ rw e (
          λ b m. AtMost-trans b top op.os.l (above b m) (AtMost-of_negative top op.os.l e),
          AtMost-refl op.os.l,
          inl refl,
        )
        | inr e ↦ elim (Bool-cases (positive (compare top op.os.l))) [
          | inl e' ↦
              rw (e, e', elected) (λ b m. above b m, AtMost-of_positive top op.os.l e', inr refl)
          | inr e' ↦
              rw (e, e')
                (λ b m. AtMost-trans b top op.os.l (above b m) e', AtMost-refl op.os.l, inl refl)
        ]
      ]
