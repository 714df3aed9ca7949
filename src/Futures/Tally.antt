-- ===== src/Futures/Tally.antt =====
-- a1-futures/future.go: how many goroutines of `Wait` stand where.
use omni_paxos_kv.Prelude.{
  ℕ, zero, suc, ◌+◌, ◌<◌, ◌≡◌, ◌⊎◌, inl, inr, refl, false, some, List, [], ◌∷◌, get_elem?, set,
  replicate, arith,
}
use omni_paxos_kv.Futures.Wait.{Worker, waits, sent, offers, ended, locked}

abbrev pub is_waits : Worker → ℕ
is_waits waits = 1
is_waits sent = 0
is_waits offers = 0
is_waits ended = 0

abbrev pub is_sent : Worker → ℕ
is_sent waits = 0
is_sent sent = 1
is_sent offers = 0
is_sent ended = 0

abbrev pub is_offers : Worker → ℕ
is_offers waits = 0
is_offers sent = 0
is_offers offers = 1
is_offers ended = 0

abbrev pub tally : (Worker → ℕ) → List Worker → ℕ
tally f [] = 0
tally f (x ∷ xs) = f x + tally f xs

pub tally-set :
    (f : Worker → ℕ) (xs : List Worker) (i : ℕ) (old new : Worker)
    → get_elem? xs i ≡ some old
    → tally f (set xs i new) + f old ≡ tally f xs + f new
tally-set f [] i old new h = absurd (ground arith)
tally-set f (x ∷ xs) zero old new h = ground arith
tally-set f (x ∷ xs) (suc i) old new h = omega (arith, tally-set f xs i old new h)

pub tally-start : (f : Worker → ℕ) (k : ℕ) → f waits ≡ 0 → tally f (replicate k waits) ≡ 0
tally-start f zero h = refl
tally-start f (suc k) h = omega (arith, h, tally-start f k h)

pub all_wait : (k : ℕ) → tally is_waits (replicate k waits) ≡ k
all_wait zero = refl
all_wait (suc k) = omega (arith, all_wait k)

pub locked-tally : (xs : List Worker) → (locked xs ≡ false) ⊎ (0 < tally is_offers xs)
locked-tally [] = inl refl
locked-tally (waits ∷ xs) = ground (arith, locked-tally xs)
locked-tally (sent ∷ xs) = ground (arith, locked-tally xs)
locked-tally (ended ∷ xs) = ground (arith, locked-tally xs)
locked-tally (offers ∷ xs) = inr (omega arith)

pub unlocked_tally : (xs : List Worker) → locked xs ≡ false → tally is_offers xs ≡ 0
unlocked_tally [] h = refl
unlocked_tally (waits ∷ xs) h = omega (arith, unlocked_tally xs h)
unlocked_tally (sent ∷ xs) h = omega (arith, unlocked_tally xs h)
unlocked_tally (ended ∷ xs) h = omega (arith, unlocked_tally xs h)
unlocked_tally (offers ∷ xs) h = absurd (ground arith)

pub some_offers :
    (xs : List Worker) → 0 < tally is_offers xs → (i : ℕ) × (get_elem? xs i ≡ some offers)
some_offers [] h = absurd (omega (arith, h))
some_offers (offers ∷ xs) h = (0, refl)
some_offers (waits ∷ xs) h = let (i, e) = some_offers xs (omega (arith, h)) in (suc i, e)
some_offers (sent ∷ xs) h = let (i, e) = some_offers xs (omega (arith, h)) in (suc i, e)
some_offers (ended ∷ xs) h = let (i, e) = some_offers xs (omega (arith, h)) in (suc i, e)

pub some_sent : (xs : List Worker) → 0 < tally is_sent xs → (i : ℕ) × (get_elem? xs i ≡ some sent)
some_sent [] h = absurd (omega (arith, h))
some_sent (sent ∷ xs) h = (0, refl)
some_sent (waits ∷ xs) h = let (i, e) = some_sent xs (omega (arith, h)) in (suc i, e)
some_sent (offers ∷ xs) h = let (i, e) = some_sent xs (omega (arith, h)) in (suc i, e)
some_sent (ended ∷ xs) h = let (i, e) = some_sent xs (omega (arith, h)) in (suc i, e)
