-- ===== src/ShardCtrler/Balance/Ends.antt =====
-- `balance` ends, and the groups that it looks at have then as many shards, up to one.
use omni_paxos_kv.Prelude.{
  get_elem?-inside, nat_eq, ℕ, zero, suc, ◌+◌, ◌≤◌, ◌<◌, ◌≡◌, ◌≢◌, ◌⊎◌, refl, ap, sym, ◌∙◌, inl,
  inr, Bool, true, false, none, some, List, [], ◌∷◌, ◌++◌, arith, eqb, ltb, if◌then◌else◌,
  Bool-cases, length, lookup_or, get_elem?, get_elem?-set_self, get_elem?-set_ne, set, length-set,
  store_at-some,
}
use omni_paxos_kv.ShardCtrler.Types.{Owners}
use omni_paxos_kv.ShardCtrler.Balance.{
  size_of, max_group, min_group, even_enough, move_first, moved, stop, go, turn, done, balance,
}
use omni_paxos_kv.ShardCtrler.Balance.Sizes.{
  has_key, total, size_of-le-total, measure, lookup-move_first, total-move_first,
  has_key-move_first, size_of-move_first, measure-move_first,
}
use omni_paxos_kv.ShardCtrler.Balance.Extremes.{
  max_group-zero, max_group-largest, min_group-smallest,
}

-- How often a number stands in a list; with the owners of the shards, how many shards a group has.
abbrev pub count : ℕ → List ℕ → ℕ
count g [] = 0
count g (x ∷ xs) = (if eqb x g then 1 else 0) + count g xs

pub count-append :
    (g x : ℕ) (xs : List ℕ) → count g (xs ++ x ∷ []) ≡ count g xs + (if eqb x g then 1 else 0)
count-append g x [] = ground arith
count-append g x (y ∷ xs) = ground (arith, count-append g x xs)

abbrev pub owns : List ℕ → ℕ → ℕ → Bool
owns shards i g = elim (get_elem? shards i) [ some o ↦ eqb o g | none ↦ false ]

count-set :
    (g i o v : ℕ) (shards : List ℕ)
    → get_elem? shards i ≡ some o
    → count g (set shards i v) + (if eqb o g then 1 else 0)
      ≡ count g shards + (if eqb v g then 1 else 0)
count-set g i o v [] h = absurd (ground arith)
count-set g zero o v (x ∷ shards) h = ground arith
count-set g (suc i) o v (x ∷ shards) h = omega (arith, count-set g i o v shards h)

-- The lists of the groups are the shards, each once and under its owner; a group is among them.
pub record Fits (all : Owners) (shards : List ℕ) : Type 0 where
  pub few : total all ≤ 10
  pub some_shard : 0 < length shards
  pub placed : (g i : ℕ) → count i (lookup_or [] g all) ≡ (if owns shards i g then 1 else 0)
  pub counted : (g : ℕ) → size_of all g ≡ count g shards

owner_of_first :
    (all : Owners) (shards : List ℕ) (g first : ℕ) (rest : List ℕ)
    → Fits all shards
    → lookup_or [] g all ≡ first ∷ rest
    → get_elem? shards first ≡ some g
owner_of_first all shards g first rest v e = ground (arith, v.placed g first)

module _ (all : Owners) (shards : List ℕ) (max min first : ℕ) (rest : List ℕ) (v : Fits all shards)
    (apart : max ≢ min) (front : lookup_or [] max all ≡ first ∷ rest) where
  move_first-Fits : Fits (move_first all max min first rest) (set shards first min)
  move_first-Fits =
      let o : get_elem? shards first ≡ some max =
        owner_of_first all shards max first rest v front in
      let r : first < length shards = get_elem?-inside shards first max o in
      record {
        few = rw (total-move_first all max min first rest apart front) v.few;
        some_shard = rw (length-set shards first min) v.some_shard;
        placed = λ g i. ground (
          arith,
          lookup-move_first all max min first rest apart front g,
          count-append i first (lookup_or [] min all),
          v.placed g i,
          front,
          get_elem?-set_self shards first min r,
          get_elem?-set_ne shards first i min,
          o,
        );
        counted = λ g. ground (
          arith,
          size_of-move_first all max min first rest apart front g,
          v.counted g,
          front,
          count-set g first max min shards o,
        );
      }

nonempty : (l : List ℕ) → 0 < length l → (x : ℕ) × (xs : List ℕ) × (l ≡ x ∷ xs)
nonempty [] h = absurd (omega arith)
nonempty (x ∷ xs) h = (x, xs, refl)

some_group : (all : Owners) (shards : List ℕ) → Fits all shards → (g : ℕ) × (0 < size_of all g)
some_group all [] v = absurd (omega (arith, v.some_shard))
some_group all (o ∷ shards) v = (o, ground (arith, v.counted o))

largest_is_a_group :
    (all : Owners) (shards : List ℕ) → Fits all shards → size_of all 0 ≡ 0 → max_group all ≢ 0
largest_is_a_group all shards v z e =
    let (g, p) = some_group all shards v in
    let q : size_of all (max_group all) ≡ 0 = ap (size_of all) e ∙ z in
    omega (arith, max_group-largest all g z, p, q)

-- The largest and the smallest group, where `balance` goes on.
turn-goes :
    (all : Owners) (shards : List ℕ) (k : ℕ)
    → Fits all shards
    → has_key k all ≡ true
    → k ≢ 0
    → even_enough all 1 (max_group all) (min_group all) ≡ false
    → (first : ℕ) × (rest : List ℕ) × (lookup_or [] (max_group all) all ≡ first ∷ rest)
      × (max_group all ≢ min_group all)
      × ((max_group all ≡ 0)
          ⊎ ((min_group all ≢ 0)
              × (max_group all ≢ 0)
              × (size_of all (min_group all) + 1 < size_of all (max_group all))))
turn-goes all shards k v h n e =
    let few : size_of all k ≤ 10 = omega (arith, size_of-le-total k all, v.few) in
    let (mn, _) = min_group-smallest all k h n (omega (arith, few)) in
    elim (Bool-cases (ltb 0 (size_of all 0))) [
      | inl p ↦
          let z : max_group all ≡ 0 = max_group-zero all (ground arith) in
          let (x, xs, l) = nonempty (lookup_or [] 0 all) (ground arith) in
          (x, xs, rw z l, λ q. mn (sym q ∙ z), inl z)
      | inr p ↦
          let mx : max_group all ≢ 0 = largest_is_a_group all shards v (ground arith) in
          let lt : size_of all (min_group all) + 1 < size_of all (max_group all) = ground arith in
          let (x, xs, l) = nonempty (lookup_or [] (max_group all) all) (omega (arith, lt)) in
          (x, xs, l, λ q. omega (arith, ap (size_of all) q, lt), inr (mn, mx, lt))
    ]

-- The end of `balance`: all shards have a group, and any two groups that it looked at differ by at
-- most one in the number of their shards.
pub record IsEven (shards : List ℕ) (keys : Owners) : Type 0 where
  pub no_zero : count 0 shards ≡ 0
  pub close :
      (g h : ℕ)
      → has_key g keys ≡ true
      → has_key h keys ≡ true
      → g ≢ 0
      → h ≢ 0
      → count g shards ≤ count h shards + 1

stop-IsEven :
    (all keys : Owners) (shards : List ℕ)
    → Fits all shards
    → ((g : ℕ) → has_key g keys ≡ true → has_key g all ≡ true)
    → even_enough all 1 (max_group all) (min_group all) ≡ true
    → IsEven shards keys
stop-IsEven all keys shards v sub e =
    let z : size_of all 0 ≡ 0 = ground (arith, max_group-zero all) in
    let le : size_of all (max_group all) ≤ 1 + size_of all (min_group all) = ground arith in
    record {
      no_zero = omega (arith, v.counted 0, z);
      close = λ g h kg kh ng nh.
          let few : size_of all h ≤ 10 = omega (arith, size_of-le-total h all, v.few) in
          let (_, least) = min_group-smallest all h (sub h kh) nh (omega (arith, few)) in
          omega (arith, max_group-largest all g z, le, least, v.counted g, v.counted h);
    }

turn_stops :
    (all : Owners) (shards : List ℕ)
    → even_enough all 1 (max_group all) (min_group all) ≡ true
    → turn all shards 1 ≡ stop
unfolding turn
turn_stops all shards e = ground (arith, e)

turn_moves :
    (all : Owners) (shards : List ℕ) (first : ℕ) (rest : List ℕ)
    → even_enough all 1 (max_group all) (min_group all) ≡ false
    → lookup_or [] (max_group all) all ≡ first ∷ rest
    → first < length shards
    → turn all shards 1
      ≡ go
          (move_first all (max_group all) (min_group all) first rest)
          (set shards first (min_group all))
unfolding turn moved
turn_moves all shards first rest e l r =
    ground (arith, e, l, store_at-some shards first (min_group all) r)

pub balance-IsEven :
    (fuel : ℕ) (all keys : Owners) (shards : List ℕ) (k : ℕ)
    → Fits all shards
    → ((g : ℕ) → has_key g keys ≡ true → has_key g all ≡ true)
    → has_key k keys ≡ true
    → k ≢ 0
    → measure all < fuel
    → (all' : Owners) × (shards' : List ℕ) × (balance fuel all shards 1 ≡ done all' shards')
      × (length shards' ≡ length shards)
      × IsEven shards' keys
unfolding balance
balance-IsEven zero all keys shards k v sub h n m = absurd (omega arith)
balance-IsEven (suc fuel) all keys shards k v sub h n m =
    let max = max_group all in
    let min = min_group all in
    elim (Bool-cases (even_enough all 1 max min)) [
      | inl e ↦ (
        all,
        shards,
        rw (turn_stops all shards e, balance) refl,
        refl,
        stop-IsEven all keys shards v sub e,
      )
      | inr e ↦
          let (first, rest, l, apart, why) = turn-goes all shards k v (sub k h) n e in
          let o : get_elem? shards first ≡ some max =
            owner_of_first all shards max first rest v l in
          let r : first < length shards = get_elem?-inside shards first max o in
          let less : measure (move_first all max min first rest) < fuel =
            omega (arith, measure-move_first all max min first rest apart l v.few why, m) in
          let sub' = λ (g : ℕ) (q : has_key g keys ≡ true).
            has_key-move_first all max min first rest apart l g (sub g q) in
          let (all', shards', b, size, even) =
            balance-IsEven fuel (move_first all max min first rest) keys (set shards first min) k
              (move_first-Fits all shards max min first rest v apart l) sub' h n less in
          (
            all',
            shards',
            rw (turn_moves all shards first rest e l r, balance) b,
            size ∙ length-set shards first min,
            even,
          )
    ]
