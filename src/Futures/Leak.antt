-- ===== src/Futures/Leak.antt =====
-- A goroutine that `Wait` leaves behind.
use omni_paxos_kv.Prelude.{
  ℕ, zero, suc, ◌≡◌, ◌≢◌, refl, subst, ◌∙◌, Bool, true, some, List, [], ◌∷◌, get_elem?,
  get_elem?-set_ne, set, arith,
}
use omni_paxos_kv.Futures.Wait.{
  Worker, waits, sent, offers, ended, selects, Wait, locked, Step, Reach, accepts, rejects, counts,
  meets, expires, returns, here, later,
}

offers_locked : (xs : List Worker) (i : ℕ) → get_elem? xs i ≡ some offers → locked xs ≡ true
offers_locked [] i h = absurd (ground arith)
offers_locked (x ∷ xs) zero h = ground arith
offers_locked (waits ∷ xs) (suc i) h = offers_locked xs i h
offers_locked (sent ∷ xs) (suc i) h = offers_locked xs i h
offers_locked (offers ∷ xs) (suc i) h = refl
offers_locked (ended ∷ xs) (suc i) h = offers_locked xs i h

-- The goroutine `i` waits at `doneN`, nobody receives there any more, and `c` values are counted.
record Stuck {A : Type 0} (i c : ℕ) (w : Wait A) : Type 0 where
  offering : get_elem? w.workers i ≡ some offers
  gone : w.caller ≢ selects
  count : w.done_count ≡ c

same_place :
    (xs : List Worker) (i j : ℕ) (old : Worker)
    → get_elem? xs i ≡ some offers
    → get_elem? xs j ≡ some old
    → j ≡ i
    → old ≡ offers
same_place xs i j old h e p = let e' : get_elem? xs i ≡ some old = rw p at e in ground arith

others_kept :
    (xs : List Worker) (i j : ℕ) (old new : Worker)
    → get_elem? xs i ≡ some offers
    → get_elem? xs j ≡ some old
    → old ≢ offers
    → get_elem? (set xs j new) i ≡ some offers
others_kept xs i j old new h e n =
    let apart : j ≢ i = λ p. n (same_place xs i j old h e p) in
    get_elem?-set_ne xs j i new apart ∙ h

module _ {A : Type 0} (logic : A → Bool) (n i c : ℕ) where
  Step-Stuck : {w w' : Wait A} → Stuck i c w → Step logic n w w' → Stuck i c w'
  Step-Stuck {w} v (accepts j a e p q) = subst (Stuck i c) q (record {
    offering = others_kept w.workers i j waits sent v.offering e (λ x. ground arith);
    gone = v.gone;
    count = v.count;
  })
  Step-Stuck {w} v (rejects j a e p q) = subst (Stuck i c) q (record {
    offering = others_kept w.workers i j waits ended v.offering e (λ x. ground arith);
    gone = v.gone;
    count = v.count;
  })
  Step-Stuck {w} v (counts j e u q) =
      let l = offers_locked w.workers i v.offering in absurd (ground arith)
  Step-Stuck {w} v (meets j e s q) = absurd (v.gone s)
  Step-Stuck {w} v (expires s q) = absurd (v.gone s)
  Step-Stuck {w} v (returns b s q) =
      subst (Stuck i c) q
        (record { offering = v.offering; gone = λ x. ground arith; count = v.count })

  Reach-Stuck : {w w' : Wait A} → Stuck i c w → Reach logic n w w' → Stuck i c w'
  Reach-Stuck v here = v
  Reach-Stuck v (later r s) = Step-Stuck (Reach-Stuck v r) s

-- A goroutine that offers its wake-up when the caller no longer waits is left behind: it stays at
-- its send with the lock for ever, and no other goroutine counts its value any more.
pub worker_left_behind :
    {A : Type 0} (logic : A → Bool) (n i : ℕ) (w t : Wait A)
    → get_elem? w.workers i ≡ some offers
    → w.caller ≢ selects
    → Reach logic n w t
    → (get_elem? t.workers i ≡ some offers) × (t.done_count ≡ w.done_count)
worker_left_behind logic n i w t o g r =
    let v =
      Reach-Stuck logic n i w.done_count (record { offering = o; gone = g; count = refl }) r in
    (v.offering, v.count)
