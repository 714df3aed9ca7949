-- ===== src/ShardCtrler/Balance.antt =====
-- a3b-sharding/shardctrler/server.go: the largest and the smallest group, and `balance`.
pub mod Sizes
pub mod Extremes
pub mod Ends
pub mod Lengths
use omni_paxos_kv.Prelude.{
  nat_eq, ℕ, zero, suc, ◌+◌, Bool, not, ◌&&◌, none, some, List, [], ◌∷◌, ◌++◌, ltb, leb, eqb,
  if◌then◌else◌, length, store_at, lookup_or, insert, replicate,
}
use omni_paxos_kv.ShardCtrler.Types.{Owners}

-- `sort.Ints`
insert_sorted : ℕ → List ℕ → List ℕ
insert_sorted k [] = k ∷ []
insert_sorted k (x ∷ xs) = let rest = insert_sorted k xs in if leb k x then k ∷ x ∷ xs else x ∷ rest

unfoldable pub sort : List ℕ → List ℕ
unfolding insert_sorted
sort [] = []
sort (x ∷ xs) = insert_sorted x (sort xs)

pub keys_of : Owners → List ℕ
keys_of [] = []
keys_of ((k, _) ∷ all) = k ∷ keys_of all

-- `make([]int, len(all))` holds zeros already, and the keys come behind them.
unfoldable pub sorted_keys : Owners → List ℕ
unfolding sort keys_of
sorted_keys all = sort (replicate (length all) 0 ++ keys_of all)

-- `len(all[k])`
abbrev pub size_of : Owners → ℕ → ℕ
size_of all k = length (lookup_or [] k all)

unfoldable pub max_loop : Owners → ℕ → ℕ → List ℕ → ℕ
max_loop all max gid [] = gid
max_loop all max gid (k ∷ keys) =
    let t = ltb max (size_of all k) in
    max_loop all (if t then size_of all k else max) (if t then k else gid) keys

unfoldable pub max_group : Owners → ℕ
unfolding max_loop sorted_keys
max_group all = if ltb 0 (size_of all 0) then 0 else max_loop all 0 0 (sorted_keys all)

unfoldable pub min_loop : Owners → ℕ → ℕ → List ℕ → ℕ
min_loop all min gid [] = gid
min_loop all min gid (k ∷ keys) =
    let t = ltb (size_of all k) min && not (eqb k 0) in
    min_loop all (if t then size_of all k else min) (if t then k else gid) keys

-- `math.MaxUint32`
abbrev pub max_uint32 : ℕ
max_uint32 = 4294967295

unfoldable pub min_group : Owners → ℕ
unfolding min_loop sorted_keys
min_group all = min_loop all max_uint32 0 (sorted_keys all)

-- How a call of `balance` ends: the owners and the shards, a panic of an index out of range, or more
-- calls than the fuel allows.
pub data Balanced : Type 0 where
  done : Owners → List ℕ → Balanced
  panics : Balanced
  unfinished : Balanced

-- The test that ends `balance`.
abbrev pub even_enough : Owners → ℕ → ℕ → ℕ → Bool
even_enough all d max min = not (eqb max 0) && leb (size_of all max) (d + size_of all min)

-- Shard `first` goes from the front of `max` to the end of `min`.
unfoldable pub move_first : Owners → ℕ → ℕ → ℕ → List ℕ → Owners
move_first all max min first rest =
    let all' = insert max rest all in insert min (lookup_or [] min all' ++ first ∷ []) all'

-- What one call of `balance` does before it calls itself.
pub data Turn : Type 0 where
  stop : Turn
  fault : Turn
  go : Owners → List ℕ → Turn

unfoldable pub moved : Owners → List ℕ → ℕ → ℕ → List ℕ → Turn
moved all shards max min [] = fault
moved all shards max min (first ∷ rest) = elim (store_at shards first min) [
  | none ↦ fault
  | some shards' ↦ go (move_first all max min first rest) shards'
]

unfoldable pub turn : Owners → List ℕ → ℕ → Turn
unfolding moved
turn all shards d =
    let max = max_group all in
    let min = min_group all in
    if even_enough all d max min then stop else moved all shards max min (lookup_or [] max all)

unfoldable pub balance : ℕ → Owners → List ℕ → ℕ → Balanced
balance zero all shards d = unfinished
balance (suc fuel) all shards d = elim (turn all shards d) [
  | stop ↦ done all shards
  | fault ↦ panics
  | go all' shards' ↦ balance fuel all' shards' d
]
