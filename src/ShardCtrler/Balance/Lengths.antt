-- ===== src/ShardCtrler/Balance/Lengths.antt =====
-- `balance` moves shards between groups, and keeps their number.
use omni_paxos_kv.Prelude.{
  nat_eq, ℕ, zero, suc, ◌≡◌, refl, ◌∙◌, inl, inr, List, [], ◌∷◌, Option-cases, Bool-cases, length,
  store_at, length-store_at, lookup_or,
}
use omni_paxos_kv.ShardCtrler.Types.{Owners}
use omni_paxos_kv.ShardCtrler.Balance.{
  Balanced, done, panics, unfinished, Turn, stop, fault, go, turn, moved, max_group, min_group,
  even_enough, balance,
}

abbrev SameLength : List ℕ → Turn → Type 0
SameLength shards stop = Unit
SameLength shards fault = Unit
SameLength shards (go _ shards') = length shards' ≡ length shards

moved-SameLength :
    (all : Owners) (shards : List ℕ) (max min : ℕ) (l : List ℕ)
    → SameLength shards (moved all shards max min l)
unfolding moved
moved-SameLength all shards max min [] = tt
moved-SameLength all shards max min (first ∷ rest) =
    elim (Option-cases (store_at shards first min)) [
      | inl e ↦ rw (e, SameLength) tt
      | inr (shards', e) ↦ rw (e, SameLength) (length-store_at shards first min shards' e)
    ]

turn-SameLength : (all : Owners) (shards : List ℕ) (d : ℕ) → SameLength shards (turn all shards d)
unfolding turn
turn-SameLength all shards d =
    elim (Bool-cases (even_enough all d (max_group all) (min_group all))) [
      | inl e ↦ rw e tt
      | inr e ↦ rw e (
          moved-SameLength all shards (max_group all) (min_group all)
            (lookup_or [] (max_group all) all))
    ]

abbrev pub Keeps : List ℕ → Balanced → Type 0
Keeps shards (done _ shards') = length shards' ≡ length shards
Keeps shards panics = Unit
Keeps shards unfinished = Unit

Keeps-of_length :
    (shards shards' : List ℕ) (b : Balanced)
    → length shards' ≡ length shards
    → Keeps shards' b
    → Keeps shards b
Keeps-of_length shards shards' (done _ _) h k = k ∙ h
Keeps-of_length shards shards' panics h k = tt
Keeps-of_length shards shards' unfinished h k = tt

pub balance-Keeps :
    (fuel : ℕ) (all : Owners) (shards : List ℕ) (d : ℕ) → Keeps shards (balance fuel all shards d)
unfolding balance
balance-Keeps zero all shards d = tt
balance-Keeps (suc fuel) all shards d =
    ends fuel d all shards (turn all shards d) (turn-SameLength all shards d)
      (λ all' shards'. balance-Keeps fuel all' shards' d)
  where
    ends :
        (fuel d : ℕ) (all : Owners) (shards : List ℕ) (t : Turn)
        → SameLength shards t
        → ((all' : Owners) (shards' : List ℕ) → Keeps shards' (balance fuel all' shards' d))
        → Keeps shards (elim t [
          | stop ↦ done all shards
          | fault ↦ panics
          | go all' shards' ↦ balance fuel all' shards' d
        ])
    ends fuel d all shards stop h k = refl
    ends fuel d all shards fault h k = tt
    ends fuel d all shards (go all' shards') h k =
        Keeps-of_length shards shards' (balance fuel all' shards' d) h (k all' shards')
