-- ===== src/OmniPaxos/Ballot/Order.antt =====
-- The order of ballots: `compare` is a total order, and `max` finds its greatest element.
use omni_paxos_kv.Prelude.{
  ◌+◌, ◌≡◌, refl, ◌↔◌, ◌⊎◌, inl, inr, true, false, List, [], ◌∷◌, arith, Bool-cases, Bool, ◌∙◌,
  if◌then◌else◌, pos, negsuc, ◌<ℤ◌, ◌≤ℤ◌, pos_part, neg_part, eq_of_parts, eqb_ℤ,
}
use omni_paxos_kv.OmniPaxos.Ballot.{Ballot, compare, positive, negative, max_from, max}

-- `a` is not above `b`.
abbrev pub AtMost : Ballot → Ballot → Type 0
AtMost a b = positive (compare a b) ≡ false

pub AtMost-refl : (a : Ballot) → AtMost a a
unfolding compare
AtMost-refl a = ground arith

-- The lexicographic order, with numbers that `omega` reads.
abbrev Lex : Ballot → Ballot → Type 0
Lex a b =
    (a.n <ℤ b.n) ⊎ ((pos_part a.n + neg_part b.n ≡ pos_part b.n + neg_part a.n) × (a.pid ≤ℤ b.pid))

AtMost-Lex : (a b : Ballot) → AtMost a b → Lex a b
unfolding compare
AtMost-Lex a b h = ground arith

Lex-AtMost : (a b : Ballot) → Lex a b → AtMost a b
unfolding compare
Lex-AtMost a b (inl h) = ground arith
Lex-AtMost a b (inr h) = ground arith

Lex-trans : (a b c : Ballot) → Lex a b → Lex b c → Lex a c
Lex-trans a b c (inl h) (inl k) = inl (omega arith)
Lex-trans a b c (inl h) (inr k) = inl (omega arith)
Lex-trans a b c (inr h) (inl k) = inl (omega arith)
Lex-trans a b c (inr h) (inr k) = inr (omega arith)

pub AtMost-trans : (a b c : Ballot) → AtMost a b → AtMost b c → AtMost a c
AtMost-trans a b c h k = Lex-AtMost a c (Lex-trans a b c (AtMost-Lex a b h) (AtMost-Lex b c k))

pub compare-eq_zero : (a b : Ballot) → (compare a b ≡ pos 0) ↔ (a ≡ b)
unfolding compare
compare-eq_zero a b = ground (arith, eq_of_parts a.n b.n, eq_of_parts a.pid b.pid)

pub eqb-compare : (a b : Ballot) → eqb_ℤ (compare a b) (pos 0) ≡ true → a ≡ b
unfolding compare
eqb-compare a b h = ground (arith, eq_of_parts a.n b.n, eq_of_parts a.pid b.pid)

pub AtMost-of_negative : (a b : Ballot) → negative (compare a b) ≡ true → AtMost a b
AtMost-of_negative a b h = ground arith

pub AtMost-of_not_negative : (a b : Ballot) → negative (compare a b) ≡ false → AtMost b a
unfolding compare
AtMost-of_not_negative a b h = ground arith

pub AtMost-of_positive : (a b : Ballot) → positive (compare a b) ≡ true → AtMost b a
unfolding compare
AtMost-of_positive a b h = ground arith

pub AtMost-antisymm : (a b : Ballot) → AtMost a b → AtMost b a → a ≡ b
unfolding compare
AtMost-antisymm a b h k = ground (arith, eq_of_parts a.n b.n, eq_of_parts a.pid b.pid)

abbrev pub lowest : Ballot
lowest = record { n = negsuc 0; pid = negsuc 1 }

-- The members of a list, as a predicate that the tactics read.
abbrev pub Among : Ballot → List Ballot → Type 0
Among b [] = ⊥
Among b (x ∷ xs) = (b ≡ x) ⊎ Among b xs

max_from-le : (res b : Ballot) (bs : List Ballot) → AtMost b res → AtMost b (max_from res bs)
unfolding max_from
max_from-le res b [] h = h
max_from-le res b (x ∷ xs) h = elim (Bool-cases (negative (compare res x))) [
  | inl e ↦ rw e (max_from-le x b xs (AtMost-trans b res x h (AtMost-of_negative res x e)))
  | inr e ↦ rw e (max_from-le res b xs h)
]

max_from_bounds : (res b : Ballot) (bs : List Ballot) → Among b bs → AtMost b (max_from res bs)
unfolding max_from
max_from_bounds res b [] h = absurd h
max_from_bounds res b (x ∷ xs) (inl p) = elim (Bool-cases (negative (compare res x))) [
  | inl e ↦ rw (e, p) (max_from-le x x xs (AtMost-refl x))
  | inr e ↦ rw (e, p) (max_from-le res x xs (AtMost-of_not_negative res x e))
]
max_from_bounds res b (x ∷ xs) (inr m) = elim (Bool-cases (negative (compare res x))) [
  | inl e ↦ rw e (max_from_bounds x b xs m)
  | inr e ↦ rw e (max_from_bounds res b xs m)
]

picked : (res x : Ballot) (t : Bool) → let y = if t then x else res in (y ≡ x) ⊎ (y ≡ res)
picked res x true = inl refl
picked res x false = inr refl

one_more :
    (res x y m : Ballot) (xs : List Ballot)
    → (y ≡ x) ⊎ (y ≡ res)
    → (m ≡ y) ⊎ Among m xs
    → (m ≡ res) ⊎ Among m (x ∷ xs)
one_more res x y m xs (inl p) (inl q) = inr (inl (q ∙ p))
one_more res x y m xs (inr p) (inl q) = inl (q ∙ p)
one_more res x y m xs p (inr q) = inr (inr q)

max_from-Among :
    (res : Ballot) (bs : List Ballot) → (max_from res bs ≡ res) ⊎ Among (max_from res bs) bs
unfolding max_from
max_from-Among res [] = inl refl
max_from-Among res (x ∷ xs) =
    let t = negative (compare res x) in
    one_more res x (if t then x else res) (max_from (if t then x else res) xs) xs (picked res x t)
      (max_from-Among (if t then x else res) xs)

-- `max` is above every ballot of its list, and is one of them unless it is the ballot (-1, -2)
-- that the search starts from.
pub max_greatest :
    (bs : List Ballot)
    → ((b : Ballot) → Among b bs → AtMost b (max bs)) × ((max bs ≡ lowest) ⊎ Among (max bs) bs)
unfolding max
max_greatest bs = (λ b m. max_from_bounds _ b bs m, max_from-Among (lowest) bs)

max-le_of_Among :
    (xs ys : List Ballot) → ((b : Ballot) → Among b xs → Among b ys) → AtMost (max xs) (max ys)
unfolding max
max-le_of_Among xs ys f = elim (max_from-Among lowest xs) [
  | inl e ↦ rw e (max_from-le lowest lowest ys (AtMost-refl lowest))
  | inr m ↦ max_from_bounds lowest _ ys (f _ m)
]

-- The order in which Go visits a map does not matter: two lists of ballots with the same members
-- have the same `max`.
pub max_unique :
    (xs ys : List Ballot)
    → ((b : Ballot) → Among b xs → Among b ys)
    → ((b : Ballot) → Among b ys → Among b xs)
    → max xs ≡ max ys
max_unique xs ys f g =
    AtMost-antisymm (max xs) (max ys) (max-le_of_Among xs ys f) (max-le_of_Among ys xs g)
