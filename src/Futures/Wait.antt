-- ===== src/Futures/Wait.antt =====
-- a1-futures/future.go: `Wait`. One goroutine for each future, and the caller, as steps.
use omni_paxos_kv.Prelude.{
  ℕ, ◌+◌, ◌≡◌, Bool, true, false, some, List, [], ◌∷◌, ◌++◌, leb, if◌then◌else◌, get_elem?, set,
  take, drop, replicate,
}

-- Where a goroutine stands: before its future, after the send on `doneValues`, at the send on `doneN`
-- with the lock, or at its end.
pub data Worker : Type 0 where
  waits sent offers ended : Worker

-- Where the caller stands: in the select, after it, or back with its values. `woken true` was woken
-- by `doneN`, and `woken false` by the timeout.
pub data Caller (A : Type 0) : Type 0 where
  selects : Caller A
  woken : Bool → Caller A
  returned : Bool → List A → Caller A

pub record Wait (A : Type 0) : Type 0 where
  pub workers : List Worker
  pub done_values : List A
  pub done_count : ℕ
  pub caller : Caller A

unfoldable pub start : {A : Type 0} → ℕ → Wait A
start futures = record {
  workers = replicate futures waits;
  done_values = [];
  done_count = 0;
  caller = selects;
}

-- Whether a goroutine holds the lock.
abbrev pub locked : List Worker → Bool
locked [] = false
locked (offers ∷ workers) = true
locked (waits ∷ workers) = locked workers
locked (sent ∷ workers) = locked workers
locked (ended ∷ workers) = locked workers

-- `chanToSlice`: the values in the channel, `n` at most, and what is left in the channel.
unfoldable pub chan_to_slice : {A : Type 0} → List A → ℕ → List A × List A
chan_to_slice ch n = (take n ch, drop n ch)

-- `logic` is the test of the values, `n` how many are waited for.
module _ {A : Type 0} (logic : A → Bool) (n : ℕ) where
  pub data Step (w : Wait A) : Wait A → Type 0 where
    accepts :
        (i : ℕ) (a : A) {w' : Wait A}
        → get_elem? w.workers i ≡ some waits
        → logic a ≡ true
        → record w { workers = set w.workers i sent; done_values = w.done_values ++ a ∷ [] } ≡ w'
        → Step w w'
    rejects :
        (i : ℕ) (a : A) {w' : Wait A}
        → get_elem? w.workers i ≡ some waits
        → logic a ≡ false
        → record w { workers = set w.workers i ended } ≡ w'
        → Step w w'
    counts :
        (i : ℕ) {w' : Wait A}
        → get_elem? w.workers i ≡ some sent
        → locked w.workers ≡ false
        → record w {
          workers = set w.workers i (if leb n (w.done_count + 1) then offers else ended);
          done_count = w.done_count + 1;
        }
          ≡ w'
        → Step w w'
    meets :
        (i : ℕ) {w' : Wait A}
        → get_elem? w.workers i ≡ some offers
        → w.caller ≡ selects
        → record w { workers = set w.workers i ended; caller = woken true } ≡ w'
        → Step w w'
    expires :
        {w' : Wait A} → w.caller ≡ selects → record w { caller = woken false } ≡ w' → Step w w'
    returns :
        (full : Bool) {w' : Wait A}
        → w.caller ≡ woken full
        → record w {
          done_values = (chan_to_slice w.done_values n).1;
          caller = returned full (chan_to_slice w.done_values n).0;
        }
          ≡ w'
        → Step w w'

  pub data Reach (w : Wait A) : Wait A → Type 0 where
    here : Reach w w
    later : {s t : Wait A} → Reach w s → Step s t → Reach w t
