-- ===== src/Futures/Invariant.antt =====
-- a1-futures/future.go: what holds in every state of `Wait`.
use omni_paxos_kv.Prelude.{
  subst, ℕ, zero, suc, ◌+◌, ◌≤◌, ◌<◌, ◌≡◌, refl, Bool, true, false, ◌&&◌, some, List, [], ◌∷◌, ◌++◌,
  leb, if◌then◌else◌, get_elem?, set, take, length, length-append, length-take, arith,
}
use omni_paxos_kv.Futures.Wait.{
  waits, sent, offers, ended, Caller, selects, woken, returned, Wait, start, locked, chan_to_slice,
  Step, Reach, accepts, rejects, counts, meets, expires, returns, here, later,
}
use omni_paxos_kv.Futures.Tally.{
  is_waits, is_sent, is_offers, tally, tally-set, tally-start, all_wait, unlocked_tally,
}

module _ {A : Type 0} (logic : A → Bool) where
  -- Whether all values pass the test.
  abbrev pub all_pass : List A → Bool
  all_pass [] = true
  all_pass (a ∷ vs) = logic a && all_pass vs

  all_pass-append :
      (xs : List A) (a : A) → all_pass xs ≡ true → logic a ≡ true → all_pass (xs ++ a ∷ []) ≡ true
  all_pass-append [] a h p = ground arith
  all_pass-append (x ∷ xs) a h p = ground (arith, all_pass-append xs a)

  all_pass-take : (n : ℕ) (xs : List A) → all_pass xs ≡ true → all_pass (take n xs) ≡ true
  all_pass-take zero xs h = refl
  all_pass-take (suc n) [] h = refl
  all_pass-take (suc n) (x ∷ xs) h = ground (arith, all_pass-take n xs)

abbrev pub is_returned : {A : Type 0} → Caller A → Bool
is_returned selects = false
is_returned (woken _) = false
is_returned (returned _ _) = true

module _ {A : Type 0} (logic : A → Bool) (n k : ℕ) where
  -- What the caller brings back.
  abbrev pub Served : Bool → List A → Type 0
  Served full vs =
      (all_pass logic vs ≡ true) × (length vs ≤ n) × (length vs ≤ k) × (full ≡ true → length vs ≡ n)

  -- Until the caller is back, the channel holds all values that passed.
  pub record Inv (w : Wait A) : Type 0 where
    pub counted :
        is_returned w.caller ≡ false → w.done_count + tally is_sent w.workers ≡ length w.done_values
    pub few : is_returned w.caller ≡ false → length w.done_values + tally is_waits w.workers ≤ k
    pub passed : is_returned w.caller ≡ false → all_pass logic w.done_values ≡ true
    pub offering : 0 < tally is_offers w.workers → n ≤ w.done_count
    pub wakes : w.caller ≡ selects → n ≤ w.done_count → 0 < n → 0 < tally is_offers w.workers
    pub full : w.caller ≡ woken true → n ≤ length w.done_values
    pub served : (b : Bool) (vs : List A) → w.caller ≡ returned b vs → Served b vs

  pub start-Inv : Inv (start k)
  unfolding start
  start-Inv = record {
    counted = λ h. omega (arith, tally-start is_sent k refl);
    few = λ h. omega (arith, all_wait k);
    passed = λ h. refl;
    offering = λ h. omega (arith, h, tally-start is_offers k refl);
    wakes = λ h le pos. omega (arith, le, pos);
    full = λ h. absurd (ground arith);
    served = λ b vs h. absurd (ground arith);
  }

  accepts-Inv :
      (w : Wait A) (i : ℕ) (a : A)
      → Inv w
      → get_elem? w.workers i ≡ some waits
      → logic a ≡ true
      → Inv (record w { workers = set w.workers i sent; done_values = w.done_values ++ a ∷ [] })
  accepts-Inv w i a v e p =
      let size : length (w.done_values ++ a ∷ []) ≡ length w.done_values + 1 =
        length-append w.done_values (a ∷ []) in
      let t₁ = tally-set is_sent w.workers i waits sent e in
      let t₂ = tally-set is_waits w.workers i waits sent e in
      let t₃ = tally-set is_offers w.workers i waits sent e in
      record {
        counted = λ h. omega (arith, size, t₁, v.counted h);
        few = λ h. omega (arith, size, t₂, v.few h);
        passed = λ h. all_pass-append logic w.done_values a (v.passed h) p;
        offering = λ h. v.offering (omega (arith, t₃, h));
        wakes = λ h le pos. omega (arith, t₃, v.wakes h le pos);
        full = λ h. omega (arith, size, v.full h);
        served = v.served;
      }

  rejects-Inv :
      (w : Wait A) (i : ℕ)
      → Inv w
      → get_elem? w.workers i ≡ some waits
      → Inv (record w { workers = set w.workers i ended })
  rejects-Inv w i v e =
      let t₁ = tally-set is_sent w.workers i waits ended e in
      let t₂ = tally-set is_waits w.workers i waits ended e in
      let t₃ = tally-set is_offers w.workers i waits ended e in
      record {
        counted = λ h. omega (arith, t₁, v.counted h);
        few = λ h. omega (arith, t₂, v.few h);
        passed = v.passed;
        offering = λ h. v.offering (omega (arith, t₃, h));
        wakes = λ h le pos. omega (arith, t₃, v.wakes h le pos);
        full = v.full;
        served = v.served;
      }

  counts-Inv :
      (w : Wait A) (i : ℕ)
      → Inv w
      → get_elem? w.workers i ≡ some sent
      → locked w.workers ≡ false
      → Inv (record w {
        workers = set w.workers i (if leb n (w.done_count + 1) then offers else ended);
        done_count = w.done_count + 1;
      })
  counts-Inv w i v e u =
      let new = if leb n (w.done_count + 1) then offers else ended in
      let t₁ = tally-set is_sent w.workers i sent new e in
      let t₂ = tally-set is_waits w.workers i sent new e in
      let t₃ = tally-set is_offers w.workers i sent new e in
      let none_offers = unlocked_tally w.workers u in
      record {
        counted = λ h. ground (arith, t₁, v.counted h);
        few = λ h. ground (arith, t₂, v.few h);
        passed = v.passed;
        offering = λ h. ground (arith, t₃, h, none_offers);
        wakes = λ h le pos. ground (arith, t₃, le, none_offers);
        full = v.full;
        served = v.served;
      }

  meets-Inv :
      (w : Wait A) (i : ℕ)
      → Inv w
      → get_elem? w.workers i ≡ some offers
      → w.caller ≡ selects
      → Inv (record w { workers = set w.workers i ended; caller = woken true })
  meets-Inv w i v e c =
      let t₁ = tally-set is_sent w.workers i offers ended e in
      let t₂ = tally-set is_waits w.workers i offers ended e in
      let t₃ = tally-set is_offers w.workers i offers ended e in
      let still : is_returned w.caller ≡ false = rw c refl in
      record {
        counted = λ h. omega (arith, t₁, v.counted still);
        few = λ h. omega (arith, t₂, v.few still);
        passed = λ h. v.passed still;
        offering = λ h. v.offering (omega (arith, t₃, h));
        wakes = λ h. absurd (ground arith);
        full = λ h. omega (arith, v.counted still, v.offering (omega (arith, t₃)));
        served = λ b vs h. absurd (ground arith);
      }

  expires-Inv : (w : Wait A) → Inv w → w.caller ≡ selects → Inv (record w { caller = woken false })
  expires-Inv w v c =
      let still : is_returned w.caller ≡ false = rw c refl in
      record {
        counted = λ h. v.counted still;
        few = λ h. v.few still;
        passed = λ h. v.passed still;
        offering = v.offering;
        wakes = λ h. absurd (ground arith);
        full = λ h. absurd (ground arith);
        served = λ b vs h. absurd (ground arith);
      }

  returns-Inv :
      (w : Wait A) (b : Bool)
      → Inv w
      → w.caller ≡ woken b
      → Inv (record w {
        done_values = (chan_to_slice w.done_values n).1;
        caller = returned b (chan_to_slice w.done_values n).0;
      })
  unfolding chan_to_slice
  returns-Inv w b v c =
      let still : is_returned w.caller ≡ false = rw c refl in
      let size = length-take n w.done_values in
      let good = all_pass-take logic n w.done_values (v.passed still) in
      let enough : b ≡ true → n ≤ length w.done_values = λ t. v.full (rw (← t) c) in
      record {
        counted = λ h. absurd (ground arith);
        few = λ h. absurd (ground arith);
        passed = λ h. absurd (ground arith);
        offering = v.offering;
        wakes = λ h. absurd (ground arith);
        full = λ h. absurd (ground arith);
        served = λ b' vs h.
            let same : take n w.done_values ≡ vs = ground arith in
            let b_same : b ≡ b' = ground arith in
            rw (← same, ← b_same)
              (
                good,
                omega (arith, size),
                omega (arith, size, v.few still),
                λ t. omega (arith, size, enough t),
              );
      }

  pub Step-Inv : {w w' : Wait A} → Inv w → Step logic n w w' → Inv w'
  Step-Inv {w} v (accepts i a e p q) = subst (Inv) q (accepts-Inv w i a v e p)
  Step-Inv {w} v (rejects i a e p q) = subst (Inv) q (rejects-Inv w i v e)
  Step-Inv {w} v (counts i e u q) = subst (Inv) q (counts-Inv w i v e u)
  Step-Inv {w} v (meets i e c q) = subst (Inv) q (meets-Inv w i v e c)
  Step-Inv {w} v (expires c q) = subst (Inv) q (expires-Inv w v c)
  Step-Inv {w} v (returns b c q) = subst (Inv) q (returns-Inv w b v c)

  pub Reach-Inv : {w w' : Wait A} → Inv w → Reach logic n w w' → Inv w'
  Reach-Inv v here = v
  Reach-Inv v (later r s) = Step-Inv (Reach-Inv v r) s
