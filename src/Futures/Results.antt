-- ===== src/Futures/Results.antt =====
-- What `Wait` returns, and that it does not miss the n-th value.
use omni_paxos_kv.Prelude.{
  ℕ, zero, suc, ◌+◌, ◌≤◌, ◌<◌, ◌≡◌, inl, inr, refl, Bool, true, false, some, List, leb, get_elem?,
  length, arith, Bool-cases,
}
use omni_paxos_kv.Futures.Wait.{
  sent, selects, woken, returned, Wait, start, locked, Step, Reach, accepts, rejects, expires,
  returns, counts, meets, here, later,
}
use omni_paxos_kv.Futures.Tally.{locked-tally, some_offers, some_sent}
use omni_paxos_kv.Futures.Invariant.{all_pass, is_returned, Inv, start-Inv, Step-Inv, Reach-Inv}

-- Whatever the order in which `k` futures complete, and whenever the timeout comes: what `Wait`
-- returns for `n` are at most `n` values and at most `k`, all of them pass the test, and they are
-- exactly `n` if it was not the timeout that ended the wait.
pub wait_returns :
    {A : Type 0} (logic : A → Bool) (n k : ℕ) (w : Wait A) (full : Bool) (vs : List A)
    → Reach logic n (start k) w
    → w.caller ≡ returned full vs
    → (all_pass logic vs ≡ true) × (length vs ≤ n) × (length vs ≤ k) × (full ≡ true → length vs ≡ n)
wait_returns logic n k w full vs r c =
    (Reach-Inv logic n k (start-Inv logic n k) r).served full vs c

Reach-next :
    {A : Type 0} {logic : A → Bool} {n : ℕ} {r s t : Wait A}
    → Step logic n r s
    → Reach logic n s t
    → Reach logic n r t
Reach-next st here = later here st
Reach-next st (later r s) = later (Reach-next st r) s

-- Steps of the goroutines after their values have passed: no future completes, the timeout does not
-- come, and the caller does nothing but wake up.
abbrev Goes : {A : Type 0} {logic : A → Bool} {n : ℕ} {w t : Wait A} → Step logic n w t → Type 0
Goes (accepts _ _ _ _ _) = ⊥
Goes (rejects _ _ _ _ _) = ⊥
Goes (counts _ _ _ _) = Unit
Goes (meets _ _ _ _) = Unit
Goes (expires _ _) = ⊥
Goes (returns _ _ _) = ⊥

abbrev pub AllGo :
    {A : Type 0} {logic : A → Bool} {n : ℕ} {w t : Wait A} → Reach logic n w t → Type 0
AllGo here = Unit
AllGo (later r s) = AllGo r × Goes s

AllGo-next :
    {A : Type 0} {logic : A → Bool} {n : ℕ} {r s t : Wait A} (st : Step logic n r s)
    (p : Reach logic n s t)
    → Goes st
    → AllGo p
    → AllGo (Reach-next st p)
unfolding Reach-next
AllGo-next st here g v = (tt, g)
AllGo-next st (later p s) g (v, h) = (AllGo-next st p g v, h)

module _ {A : Type 0} (logic : A → Bool) (n k : ℕ) (some_wanted : 0 < n) where
  -- While fewer than `n` are counted, a goroutine can count its value.
  can_count :
      (w : Wait A)
      → Inv logic n k w
      → w.caller ≡ selects
      → n ≤ length w.done_values
      → w.done_count < n
      → (i : ℕ) × (get_elem? w.workers i ≡ some sent) × (locked w.workers ≡ false)
  can_count w v c enough lt =
      let still : is_returned w.caller ≡ false = rw c refl in
      let (i, e) = some_sent w.workers (omega (arith, v.counted still, enough, lt)) in
      (
        i,
        e,
        elim (locked-tally w.workers) [
          | inl u ↦ u
          | inr o ↦ absurd (omega (arith, v.offering o, lt))
        ],
      )

  wakes_from :
      (fuel : ℕ) (w : Wait A)
      → Inv logic n k w
      → w.caller ≡ selects
      → n ≤ length w.done_values
      → n ≤ w.done_count + fuel
      → (t : Wait A) × (p : Reach logic n w t) × AllGo p × (t.caller ≡ woken true)
  wakes_from zero w v c enough le =
      let (i, o) = some_offers w.workers (v.wakes c (omega (arith, le)) some_wanted) in
      (_, later here (meets i o c refl), (tt, tt), refl)
  wakes_from (suc fuel) w v c enough le = elim (Bool-cases (leb n w.done_count)) [
    | inl e ↦
        let (i, o) = some_offers w.workers (v.wakes c (ground arith) some_wanted) in
        (_, later here (meets i o c refl), (tt, tt), refl)
    | inr e ↦
        let (i, o, u) = can_count w v c enough (ground arith) in
        let step = counts i o u refl in
        let (t, r, g, d) =
          wakes_from fuel _ (Step-Inv logic n k v step) c enough (omega (arith, le)) in
        (t, Reach-next step r, AllGo-next step r tt g, d)
  ]

-- No wake-up is lost: if at least `n` values, and `n` is not 0, have passed and the caller still
-- waits, then the goroutines can go on until they wake it, by steps in which no further future
-- completes, the timeout does not come and the caller does nothing else.
pub wait_wakes :
    {A : Type 0} (logic : A → Bool) (n k : ℕ) (w : Wait A)
    → 0 < n
    → Reach logic n (start k) w
    → w.caller ≡ selects
    → n ≤ length w.done_values
    → (t : Wait A) × (p : Reach logic n w t) × AllGo p × (t.caller ≡ woken true)
wait_wakes logic n k w pos r c enough =
    wakes_from logic n k pos n w (Reach-Inv logic n k (start-Inv logic n k) r) c enough
      (omega arith)
