-- ===== src/OmniPaxos/Ballot.antt =====
-- a2-omnipaxos/omnipaxos.go: ballots, their order and the largest ballot of a set.
pub mod Order
use omni_paxos_kv.Prelude.{
  ℕ, ◌+◌, ◌≤◌, ◌<◌, ◌≡◌, refl, ◌↔◌, ◌⊎◌, inl, inr, Bool, true, false, ◌&&◌, List, [], ◌∷◌, arith,
  if◌then◌else◌, Eq, ◌==◌, ℤ, pos, negsuc, pos_part, neg_part, ltb_ℤ, eqb_ℤ, eq_of_parts, eqb_ℤ_iff,
  Assoc,
}

pub record Ballot : Type 0 where
  pub n : ℤ
  pub pid : ℤ

-- -1, 0 or 1
unfoldable pub compare : Ballot → Ballot → ℤ
compare b o =
    if ltb_ℤ b.n o.n
    then negsuc 0
    else if eqb_ℤ b.n o.n
    then (if ltb_ℤ b.pid o.pid then negsuc 0 else if eqb_ℤ b.pid o.pid then pos 0 else pos 1)
    else pos 1

-- The tests `c > 0` and `c < 0` on the result of `compare`.
abbrev pub positive : ℤ → Bool
positive c = ltb_ℤ (pos 0) c

abbrev pub negative : ℤ → Bool
negative c = ltb_ℤ c (pos 0)

-- Go's `==` on the struct.
abbrev pub ballot_beq : Ballot → Ballot → Bool
ballot_beq a b = eqb_ℤ a.n b.n && eqb_ℤ a.pid b.pid

pub ballot_beq_iff : (a b : Ballot) → (ballot_beq a b ≡ true) ↔ (a ≡ b)
ballot_beq_iff a b = ground (arith, eq_of_parts a.n b.n, eq_of_parts a.pid b.pid)

instance abbrev pub ballot_eq : Eq Ballot
ballot_eq = record { beq = ballot_beq; beq_iff = ballot_beq_iff }

-- the loop of `max`, from the best ballot so far
pub max_from : Ballot → List Ballot → Ballot
max_from res [] = res
max_from res (b ∷ bs) = max_from (if negative (compare res b) then b else res) bs

unfoldable pub max : List Ballot → Ballot
unfolding max_from
max bs = max_from (record { n = negsuc 0; pid = negsuc 1 }) bs
