-- ===== src/ShardCtrler/Loops.antt =====
-- `balance` without groups.
use omni_paxos_kv.Prelude.{
  nat_eq, ℕ, zero, suc, ◌<◌, ◌≡◌, refl, none, List, [], ◌∷◌, ◌++◌, arith, length, length-append,
  set, length-set, store_at-some, lookup, insert,
}
use omni_paxos_kv.ShardCtrler.Types.{ControllerCommand, start_server, zero_config}
use omni_paxos_kv.ShardCtrler.Balance.{
  max_group, min_group, move_first, unfinished, balance, go, turn,
}
use omni_paxos_kv.ShardCtrler.Apply.{apply_join, finish_join, add_servers, add_shards, get_conf}

abbrev AllBelow : ℕ → List ℕ → Type 0
AllBelow n [] = Unit
AllBelow n (x ∷ xs) = (x < n) × AllBelow n xs

AllBelow-append : (n x : ℕ) (xs : List ℕ) → AllBelow n xs → x < n → AllBelow n (xs ++ x ∷ [])
AllBelow-append n x [] h lt = (lt, tt)
AllBelow-append n x (y ∷ ys) (a, h) lt = (a, AllBelow-append n x ys h lt)

max_group-lone : (x : ℕ) (xs : List ℕ) → max_group ((0, x ∷ xs) ∷ []) ≡ 0
unfolding max_group lookup
max_group-lone x xs = ground arith

min_group-lone : (xs : List ℕ) → min_group ((0, xs) ∷ []) ≡ 0
unfolding min_group
min_group-lone xs = ground arith

move_first-lone :
    (x : ℕ) (xs : List ℕ) → move_first ((0, x ∷ xs) ∷ []) 0 0 x xs ≡ (0, xs ++ x ∷ []) ∷ []
unfolding move_first insert lookup
move_first-lone x xs = ground arith

turn-lone :
    (x : ℕ) (xs shards : List ℕ) (d : ℕ)
    → x < length shards
    → turn ((0, x ∷ xs) ∷ []) shards d ≡ go ((0, xs ++ x ∷ []) ∷ []) (set shards x 0)
unfolding turn lookup
turn-lone x xs shards d lt = ground (
  arith,
  max_group-lone x xs,
  min_group-lone (x ∷ xs),
  store_at-some shards x 0 lt,
  move_first-lone x xs,
)

balance-lone :
    (fuel : ℕ) (xs shards : List ℕ) (d : ℕ)
    → 0 < length xs
    → AllBelow (length shards) xs
    → balance fuel ((0, xs) ∷ []) shards d ≡ unfinished
unfolding balance
balance-lone zero xs shards d some_left h = refl
balance-lone (suc fuel) [] shards d some_left h = absurd (omega arith)
balance-lone (suc fuel) (x ∷ xs) shards d some_left (lt, h) =
    let size : length (set shards x 0) ≡ length shards = length-set shards x 0 in
    let next : balance fuel ((0, xs ++ x ∷ []) ∷ []) (set shards x 0) d ≡ unfinished =
      balance-lone fuel (xs ++ x ∷ []) (set shards x 0) d (omega (arith, length-append xs (x ∷ [])))
        (rw size (AllBelow-append (length shards) x xs h lt)) in
    rw (turn-lone x xs shards d lt, balance) next

-- A Join of no groups, when no group has joined yet, never comes back from `balance`: every shard
-- belongs to group 0, which is the largest and the smallest group, and no amount of calls ends it.
pub empty_join_never_ends :
    (fuel : ℕ) (op : ControllerCommand)
    → op.servers ≡ []
    → (balance fuel (add_shards 0 zero_config.shards []) zero_config.shards 1 ≡ unfinished)
      × (apply_join fuel op start_server ≡ none)
unfolding apply_join get_conf add_servers add_shards start_server finish_join lookup insert
empty_join_never_ends fuel op none_join =
    let spins : balance fuel ((0, 0 ∷ 1 ∷ 2 ∷ 3 ∷ 4 ∷ 5 ∷ 6 ∷ 7 ∷ 8 ∷ 9 ∷ []) ∷ [])
          zero_config.shards 1
        ≡ unfinished =
      balance-lone fuel _ zero_config.shards 1 (omega arith) (omega arith) in
    (spins, rw (none_join, spins) refl)
