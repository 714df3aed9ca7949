-- ===== src/Examples/Waiting.antt =====
-- `Wait`, at concrete runs.
use omni_paxos_kv.Prelude.{
  nat_eq, ℕ, ◌≤◌, ◌≡◌, arith, refl, Bool, true, false, some, [], ◌∷◌, get_elem?, length, leb,
}
use omni_paxos_kv.Futures.Wait.{
  Wait, waits, sent, offers, ended, selects, woken, returned, start, Reach, accepts, rejects,
  counts, meets, returns, here, later, chan_to_slice,
}
use omni_paxos_kv.Futures.Invariant.{all_pass}
use omni_paxos_kv.Futures.Results.{AllGo, wait_returns, wait_wakes}
use omni_paxos_kv.Futures.Leak.{worker_left_behind}

-- The values up to 3 pass.
abbrev small : ℕ → Bool
small a = leb a 3

-- Of three futures the second one brings 2, which is counted, and the first one 7.
abbrev served : Wait ℕ
served = record {
  workers = ended ∷ ended ∷ waits ∷ [];
  done_values = [];
  done_count = 1;
  caller = returned true (2 ∷ []);
}

abbrev passed : Wait ℕ
passed = record {
  workers = waits ∷ sent ∷ waits ∷ [];
  done_values = 2 ∷ [];
  done_count = 0;
  caller = selects;
}

to_passed : Reach small 1 (start 3) passed
unfolding start
to_passed = later here (accepts 1 2 refl refl refl)

to_served : Reach small 1 (start 3) served
unfolding start chan_to_slice
to_served =
    later
      (later (later (later to_passed (counts 1 refl refl refl)) (rejects 0 7 refl refl refl))
        (meets 1 refl refl refl))
      (returns true refl refl)

wait_returns_example :
    (all_pass small (2 ∷ []) ≡ true)
    × (length {A = ℕ} (2 ∷ []) ≤ 1)
    × (length {A = ℕ} (2 ∷ []) ≤ 3)
    × (true ≡ true → length {A = ℕ} (2 ∷ []) ≡ 1)
wait_returns_example = wait_returns small 1 3 served true (2 ∷ []) to_served refl

wait_wakes_example : (t : Wait ℕ) × (p : Reach small 1 passed t) × AllGo p × (t.caller ≡ woken true)
wait_wakes_example = wait_wakes small 1 3 passed (omega arith) to_passed refl (omega arith)

-- The timeout came before the first value was counted, and its goroutine offers the wake-up too late.
abbrev left : Wait ℕ
left = record {
  workers = offers ∷ sent ∷ waits ∷ [];
  done_values = 2 ∷ [];
  done_count = 1;
  caller = returned false (1 ∷ []);
}

abbrev left_later : Wait ℕ
left_later = record left { workers = offers ∷ sent ∷ ended ∷ [] }

worker_left_behind_example :
    (get_elem? left_later.workers 0 ≡ some offers) × (left_later.done_count ≡ left.done_count)
worker_left_behind_example =
    worker_left_behind small 1 0 left left_later refl (λ h. absurd (ground arith))
      (later here (rejects 2 7 refl refl refl))
