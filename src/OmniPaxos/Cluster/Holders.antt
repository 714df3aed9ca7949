-- ===== src/OmniPaxos/Cluster/Holders.antt =====
-- How much of the leader's log each peer is known to have, and how many peers have a part of it.
use omni_paxos_kv.Prelude.{
  ℕ, zero, suc, ◌+◌, ◌≤◌, ◌≡◌, ◌≢◌, ◌⊎◌, refl, ap, subst, inl, inr, ◌&&◌, some, List, [], ◌∷◌, ◌++◌,
  arith, eqb, leb, if◌then◌else◌, Option-cases, length, store_at, get_elem?, Assoc,
}
use omni_paxos_kv.OmniPaxos.Types.{OmniPaxos, Promise, Phase, Message, Outbox}
use omni_paxos_kv.OmniPaxos.Log.{count_accepted}
use omni_paxos_kv.OmniPaxos.Accept.{is_accept}
use omni_paxos_kv.OmniPaxos.Cluster.{update, ordered, unordered}
use omni_paxos_kv.OmniPaxos.Cluster.Loose.{AllDecides}
use omni_paxos_kv.OmniPaxos.Cluster.Round.{entries}

-- How many of the `m` peers from `k` on have at least `d` entries.
abbrev pub count_holders : (ℕ → ℕ) → ℕ → ℕ → ℕ → ℕ
count_holders h d k zero = 0
count_holders h d k (suc m) =
    let rest = count_holders h d (k + 1) m in if leb d (h k) then suc rest else rest

pub count_holders-grows :
    (h h' : ℕ → ℕ) (d k m : ℕ)
    → ((j : ℕ) → h j ≤ h' j)
    → count_holders h d k m ≤ count_holders h' d k m
count_holders-grows h h' d k zero le = omega arith
count_holders-grows h h' d k (suc m) le =
    ground (arith, count_holders-grows h h' d (k + 1) m le, le k)

abbrev pub Bounded : (ℕ → ℕ) → ℕ → List ℕ → Type 0
Bounded h k xs = (i a : ℕ) → get_elem? xs i ≡ some a → a ≤ h (k + i)

pub count_accepted-count_holders :
    (h : ℕ → ℕ) (d k : ℕ) (xs : List ℕ)
    → Bounded h k xs
    → count_accepted d xs ≤ count_holders h d k (length xs)
unfolding count_accepted
count_accepted-count_holders h d k [] b = omega arith
count_accepted-count_holders h d k (x ∷ xs) b =
    let tail : Bounded h (k + 1) xs =
      λ i a e. let s : k + 1 + i ≡ k + suc i = omega arith in rw s (b (suc i) a e) in
    let z : k + 0 ≡ k = omega arith in
    let head : x ≤ h k = rw z at (b 0 x refl) in
    ground (arith, count_accepted-count_holders h d (k + 1) xs tail, head)

store_at-get_tail :
    (x : ℕ) (xs : List ℕ) (i v : ℕ) (zs : List ℕ) (j a : ℕ)
    → ((k : ℕ) → get_elem? zs k ≡ some a → ((i ≡ k) × (a ≡ v)) ⊎ (get_elem? xs k ≡ some a))
    → get_elem? (x ∷ zs) j ≡ some a
    → ((suc i ≡ j) × (a ≡ v)) ⊎ (get_elem? (x ∷ xs) j ≡ some a)
store_at-get_tail x xs i v zs zero a tail e = inr e
store_at-get_tail x xs i v zs (suc j) a tail e = elim (tail j e) [
  | inl (s, t) ↦ inl (ap suc s, t)
  | inr t ↦ inr t
]

store_at-get :
    (xs : List ℕ) (i v : ℕ) (ys : List ℕ) (j a : ℕ)
    → store_at xs i v ≡ some ys
    → get_elem? ys j ≡ some a
    → ((i ≡ j) × (a ≡ v)) ⊎ (get_elem? xs j ≡ some a)
store_at-get [] i v ys j a h e = absurd (ground arith)
store_at-get (x ∷ xs) zero v ys zero a h e = ground arith
store_at-get (x ∷ xs) zero v ys (suc j) a h e = ground arith
store_at-get (x ∷ xs) (suc i) v ys j a h e = elim (Option-cases (store_at xs i v)) [
  | inl q ↦ absurd (ground arith)
  | inr (zs, q) ↦
      let same : x ∷ zs ≡ ys = ground arith in
      store_at-get_tail x xs i v zs j a (λ k f. store_at-get xs i v zs k a q f) (rw same e)
]

pub Bounded-store_at :
    (h : ℕ → ℕ) (xs : List ℕ) (i v : ℕ) (ys : List ℕ)
    → Bounded h 0 xs
    → store_at xs i v ≡ some ys
    → v ≤ h i
    → Bounded h 0 ys
Bounded-store_at h xs i v ys b e le j a f =
    let z : 0 + j ≡ j = omega arith in
    elim (store_at-get xs i v ys j a e f) [
      | inl (s, t) ↦ let le' : v ≤ h j = rw s at le in rw (t, z) le'
      | inr t ↦ b j a t
    ]

module _ {C : Type 0} where
  abbrev pub IsHeld : (ℕ → ℕ) → Message C → Type 0
  IsHeld h (Message.prepare _) = Unit
  IsHeld h (Message.promise _) = Unit
  IsHeld h (Message.accept_sync _) = Unit
  IsHeld h (Message.decide _) = Unit
  IsHeld h (Message.accepted r) = r.log_idx ≤ h r.f
  IsHeld h (Message.accept _) = Unit
  IsHeld h (Message.prepare_req _) = Unit
  IsHeld h (Message.reconnected _) = Unit

  -- A report of a length is not above what the peer has.
  abbrev pub AllHeld : (ℕ → ℕ) → Outbox C → Type 0
  AllHeld h [] = Unit
  AllHeld h ((i, m) ∷ out) = IsHeld h m × AllHeld h out

  IsHeld-grows : (h h' : ℕ → ℕ) (m : Message C) → ((j : ℕ) → h j ≤ h' j) → IsHeld h m → IsHeld h' m
  IsHeld-grows h h' (Message.prepare _) le v = tt
  IsHeld-grows h h' (Message.promise _) le v = tt
  IsHeld-grows h h' (Message.accept_sync _) le v = tt
  IsHeld-grows h h' (Message.decide _) le v = tt
  IsHeld-grows h h' (Message.accepted r) le v = omega (arith, v, le r.f)
  IsHeld-grows h h' (Message.accept _) le v = tt
  IsHeld-grows h h' (Message.prepare_req _) le v = tt
  IsHeld-grows h h' (Message.reconnected _) le v = tt

  pub AllHeld-grows :
      (h h' : ℕ → ℕ) (out : Outbox C) → ((j : ℕ) → h j ≤ h' j) → AllHeld h out → AllHeld h' out
  AllHeld-grows h h' [] le v = tt
  AllHeld-grows h h' ((i, m) ∷ out) le (a, v) =
      (IsHeld-grows h h' m le a, AllHeld-grows h h' out le v)

  pub AllHeld-append :
      (h : ℕ → ℕ) (xs ys : Outbox C) → AllHeld h xs → AllHeld h ys → AllHeld h (xs ++ ys)
  AllHeld-append h [] ys v w = w
  AllHeld-append h ((i, m) ∷ xs) ys (a, v) w = (a, AllHeld-append h xs ys v w)

  pub AllHeld-get :
      (h : ℕ → ℕ) (xs : Outbox C) (k i : ℕ) (m : Message C)
      → AllHeld h xs
      → get_elem? xs k ≡ some (i, m)
      → IsHeld h m
  AllHeld-get h [] k i m v e = absurd (ground arith)
  AllHeld-get h ((j, m') ∷ xs) zero i m (a, v) e =
      let s : m' ≡ m = ground arith in subst (IsHeld h) s a
  AllHeld-get h (x ∷ xs) (suc k) i m (a, v) e = AllHeld-get h xs k i m v e

  pub unordered-AllHeld : (h : ℕ → ℕ) (out : Outbox C) → AllHeld h out → AllHeld h (unordered out)
  unordered-AllHeld h [] v = tt
  unordered-AllHeld h ((i, m) ∷ out) (a, v) = elim (Option-cases (ordered m)) [
    | inl e ↦ rw (e, unordered, AllHeld) (a, unordered-AllHeld h out v)
    | inr (o, e) ↦ rw (e, unordered, AllHeld) (unordered-AllHeld h out v)
  ]

  pub AllDecides-AllHeld : (h : ℕ → ℕ) (out : Outbox C) → AllDecides out → AllHeld h out
  AllDecides-AllHeld h [] v = tt
  AllDecides-AllHeld h ((i, Message.decide _) ∷ out) (a, v) = (tt, AllDecides-AllHeld h out v)
  AllDecides-AllHeld h ((i, Message.prepare _) ∷ out) (a, v) = absurd a
  AllDecides-AllHeld h ((i, Message.promise _) ∷ out) (a, v) = absurd a
  AllDecides-AllHeld h ((i, Message.accept_sync _) ∷ out) (a, v) = absurd a
  AllDecides-AllHeld h ((i, Message.accepted _) ∷ out) (a, v) = absurd a
  AllDecides-AllHeld h ((i, Message.accept _) ∷ out) (a, v) = absurd a
  AllDecides-AllHeld h ((i, Message.prepare_req _) ∷ out) (a, v) = absurd a
  AllDecides-AllHeld h ((i, Message.reconnected _) ∷ out) (a, v) = absurd a

-- What leader `l` and those that promised have of the leader's log.
module _ {C : Type 0} (l : ℕ) (ps : Assoc ℕ (Promise C)) where
  abbrev pub held : (ℕ → OmniPaxos C) → ℕ → ℕ
  held peers j =
      if eqb j l
      then length (peers j).os.log
      else if eqb (entries j ps) 1 && is_accept (peers j).state.phase
      then length (peers j).os.log
      else 0

  -- What a peer has does not get less.
  pub held-update :
      (peers : ℕ → OmniPaxos C) (i : ℕ) (op' : OmniPaxos C)
      → ((i ≢ l) × ((peers i).state.phase ≡ Phase.prepare))
        ⊎ ((op'.state.phase ≡ (peers i).state.phase)
            × (length (peers i).os.log ≤ length op'.os.log))
      → (j : ℕ) → held peers j ≤ held (update peers i op') j
  held-update peers i op' (inl (ne, waits)) j = ground arith
  held-update peers i op' (inr (same, more)) j = ground arith
