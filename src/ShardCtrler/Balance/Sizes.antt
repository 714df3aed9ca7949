-- ===== src/ShardCtrler/Balance/Sizes.antt =====
-- Sizes of groups, and the measure that a move of `balance` lowers.
use omni_paxos_kv.Prelude.{
  nat_eq, ℕ, zero, suc, ◌+◌, ◌*◌, ◌≤◌, ◌<◌, ◌≡◌, ◌≢◌, ◌⊎◌, ap, refl, inl, inr, Bool, true, false,
  ◌||◌, List, [], ◌∷◌, ◌++◌, arith, eqb, if◌then◌else◌, length, length-append, lookup, lookup_or,
  lookup-insert, insert, Assoc,
}
use omni_paxos_kv.ShardCtrler.Types.{Owners}
use omni_paxos_kv.ShardCtrler.Balance.{size_of, move_first}

abbrev pub has_key : {V : Type 0} → ℕ → Assoc ℕ V → Bool
has_key k [] = false
has_key k ((j, _) ∷ all) = eqb j k || has_key k all

pub has_key-insert :
    (j k : ℕ) (v : List ℕ) (all : Owners) → has_key j (insert k v all) ≡ (eqb k j || has_key j all)
unfolding insert
has_key-insert j k v [] = ground arith
has_key-insert j k v ((i, w) ∷ all) = ground (arith, has_key-insert j k v all)

pub size_of-insert :
    (k j : ℕ) (v : List ℕ) (all : Owners)
    → size_of (insert k v all) j ≡ (if eqb k j then length v else size_of all j)
size_of-insert k j v all = ground (arith, lookup-insert k j v all)

pub size_of_absent : (k : ℕ) (all : Owners) → has_key k all ≡ false → size_of all k ≡ 0
unfolding lookup
size_of_absent k [] h = refl
size_of_absent k ((j, v) ∷ all) h = ground (arith, size_of_absent k all)

-- 1 + 2 + ... + n
abbrev pub triangle : ℕ → ℕ
triangle zero = 0
triangle (suc n) = suc n + triangle n

abbrev pub potential : Owners → ℕ
potential [] = 0
potential ((_, v) ∷ all) = triangle (length v) + potential all

abbrev pub total : Owners → ℕ
total [] = 0
total ((_, v) ∷ all) = length v + total all

pub total-insert :
    (k : ℕ) (v : List ℕ) (all : Owners)
    → total (insert k v all) + size_of all k ≡ total all + length v
unfolding insert lookup
total-insert k v [] = omega arith
total-insert k v ((j, w) ∷ all) = ground (arith, total-insert k v all)

potential-insert :
    (k : ℕ) (v : List ℕ) (all : Owners)
    → potential (insert k v all) + triangle (size_of all k) ≡ potential all + triangle (length v)
unfolding insert lookup
potential-insert k v [] = omega arith
potential-insert k v ((j, w) ∷ all) = ground (arith, potential-insert k v all)

pub size_of-le-total : (k : ℕ) (all : Owners) → size_of all k ≤ total all
unfolding lookup
size_of-le-total k [] = omega arith
size_of-le-total k ((j, w) ∷ all) = ground (arith, size_of-le-total k all)

-- Shards without a group count most.
abbrev pub measure : Owners → ℕ
measure all = potential all + 12 * size_of all 0

next_triangle : (n : ℕ) → triangle (n + 1) ≡ suc n + triangle n
next_triangle n = let e : n + 1 ≡ suc n = omega arith in rw e refl

triangle-le : (n : ℕ) → n ≤ 10 → triangle n ≤ 10 * n
triangle-le zero h = omega arith
triangle-le (suc n) h = omega (arith, triangle-le n)

potential-le : (all : Owners) → total all ≤ 10 → potential all ≤ 10 * total all
potential-le [] h = omega arith
potential-le ((k, v) ∷ all) h = omega (arith, triangle-le (length v), potential-le all)

pub measure_bound : (all : Owners) → total all ≤ 10 → measure all ≤ 220
measure_bound all h = omega (arith, potential-le all h, size_of-le-total 0 all)

module _ (all : Owners) (max min first : ℕ) (rest : List ℕ) (apart : max ≢ min)
    (front : lookup_or [] max all ≡ first ∷ rest) where
  abbrev moved_all : Owners
  moved_all = move_first all max min first rest

  pub lookup-move_first :
      (k : ℕ)
      → lookup_or [] k (move_first all max min first rest) ≡ (
          if eqb min k
          then lookup_or [] min all ++ first ∷ []
          else if eqb max k
          then rest
          else lookup_or [] k all)
  unfolding move_first
  lookup-move_first k =
      let all' = insert max rest all in
      ground (
        arith,
        lookup-insert max min rest all,
        lookup-insert max k rest all,
        lookup-insert min k (lookup_or [] min all' ++ first ∷ []) all',
      )

  pub total-move_first : total (move_first all max min first rest) ≡ total all
  unfolding move_first
  total-move_first =
      let all' = insert max rest all in
      let l = lookup_or [] min all' ++ first ∷ [] in
      ground (
        arith,
        total-insert max rest all,
        total-insert min l all',
        size_of-insert max min rest all,
        length-append (lookup_or [] min all') (first ∷ []),
        front,
      )

  pub has_key-move_first :
      (k : ℕ) → has_key k all ≡ true → has_key k (move_first all max min first rest) ≡ true
  unfolding move_first
  has_key-move_first k h =
      let all' = insert max rest all in
      ground (
        arith,
        has_key-insert k max rest all,
        has_key-insert k min (lookup_or [] min all' ++ first ∷ []) all',
      )

  pub size_of-move_first :
      (k : ℕ)
      → size_of (move_first all max min first rest) k ≡ (
          if eqb min k
          then size_of all min + 1
          else if eqb max k
          then length rest
          else size_of all k)
  size_of-move_first k =
      ground (arith, lookup-move_first k, length-append (lookup_or [] min all) (first ∷ []))

  potential-move_first :
      potential (move_first all max min first rest)
        + triangle (size_of all max)
        + triangle (size_of all min)
      ≡ potential all + triangle (length rest) + triangle (size_of all min + 1)
  unfolding move_first
  potential-move_first =
      let all' = insert max rest all in
      let l = lookup_or [] min all' ++ first ∷ [] in
      let same : size_of all' min ≡ size_of all min =
        ground (arith, size_of-insert max min rest all) in
      let more : length l ≡ size_of all min + 1 =
        omega (arith, length-append (lookup_or [] min all') (first ∷ []), same) in
      omega (
        arith,
        potential-insert max rest all,
        potential-insert min l all',
        ap triangle more,
        ap triangle same,
      )

  -- A shard without a group gets one, or the sizes of two groups come closer.
  pub measure-move_first :
      total all ≤ 10
      → (max ≡ 0) ⊎ ((min ≢ 0) × (max ≢ 0) × (size_of all min + 1 < size_of all max))
      → measure (move_first all max min first rest) < measure all
  measure-move_first few h =
      let p = potential-move_first in
      let few_min : size_of all min ≤ 10 = omega (arith, size_of-le-total min all, few) in
      let size_max : size_of all max ≡ suc (length rest) = ground (arith, front) in
      let grows : triangle (size_of all min + 1)
          ≡ suc (size_of all min) + triangle (size_of all min) =
        next_triangle (size_of all min) in
      let shrinks : triangle (size_of all max) ≡ suc (length rest) + triangle (length rest) =
        ap triangle size_max in
      elim h [
        | inl e ↦
            let zero_size : size_of (move_first all max min first rest) 0 + 1 ≡ size_of all 0 =
              ground (arith, size_of-move_first 0, size_max) in
            omega (arith, p, few_min, grows, shrinks, zero_size)
        | inr (a, b, lt) ↦
            let zero_size : size_of (move_first all max min first rest) 0 ≡ size_of all 0 =
              ground (arith, size_of-move_first 0) in
            omega (arith, p, grows, shrinks, zero_size, size_max, lt)
      ]
