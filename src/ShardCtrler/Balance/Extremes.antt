-- ===== src/ShardCtrler/Balance/Extremes.antt =====
-- What `maxGroup` and `minGroup` find.
use omni_paxos_kv.Prelude.{
  nat_eq, ℕ, zero, suc, ◌≤◌, ◌<◌, ◌≡◌, ◌≢◌, ◌⊎◌, refl, ap, subst, inl, inr, Bool, true, false, ◌||◌,
  ◌&&◌, not, List, [], ◌∷◌, ◌++◌, arith, eqb, ltb, ltb→lt, if◌then◌else◌, Bool-cases, length,
  replicate,
}
use omni_paxos_kv.ShardCtrler.Types.{Owners}
use omni_paxos_kv.ShardCtrler.Balance.{
  insert_sorted, sort, keys_of, sorted_keys, size_of, max_loop, max_group, min_loop, min_group,
  max_uint32,
}
use omni_paxos_kv.ShardCtrler.Balance.Sizes.{has_key, size_of_absent}

abbrev pub member : ℕ → List ℕ → Bool
member k [] = false
member k (x ∷ xs) = eqb x k || member k xs

member-append : (k : ℕ) (xs ys : List ℕ) → member k (xs ++ ys) ≡ (member k xs || member k ys)
member-append k [] ys = refl
member-append k (x ∷ xs) ys = ground (arith, member-append k xs ys)

member-insert_sorted :
    (k x : ℕ) (xs : List ℕ) → member k (insert_sorted x xs) ≡ (eqb x k || member k xs)
unfolding insert_sorted
member-insert_sorted k x [] = refl
member-insert_sorted k x (y ∷ xs) = ground (arith, member-insert_sorted k x xs)

member-sort : (k : ℕ) (xs : List ℕ) → member k (sort xs) ≡ member k xs
unfolding sort
member-sort k [] = refl
member-sort k (x ∷ xs) = ground (arith, member-sort k xs, member-insert_sorted k x (sort xs))

member-keys_of : (k : ℕ) (all : Owners) → member k (keys_of all) ≡ has_key k all
unfolding keys_of
member-keys_of k [] = refl
member-keys_of k ((j, v) ∷ all) = ground (arith, member-keys_of k all)

-- The keys are among the sorted ones; the other sorted ones are zeros.
member-sorted_keys :
    (k : ℕ) (all : Owners) → has_key k all ≡ true → member k (sorted_keys all) ≡ true
unfolding sorted_keys
member-sorted_keys k all h = ground (
  arith,
  member-sort k (replicate (length all) 0 ++ keys_of all),
  member-append k (replicate (length all) 0) (keys_of all),
  member-keys_of k all,
)

max_loop-ge :
    (all : Owners) (m gid : ℕ) (keys : List ℕ)
    → size_of all gid ≡ m
    → m ≤ size_of all (max_loop all m gid keys)
unfolding max_loop
max_loop-ge all m gid [] h = omega (arith, h)
max_loop-ge all m gid (k ∷ keys) h = elim (Bool-cases (ltb m (size_of all k))) [
  | inl e ↦ rw e (omega (arith, max_loop-ge all (size_of all k) k keys refl, ltb→lt _ _ e))
  | inr e ↦ rw e (max_loop-ge all m gid keys h)
]

max_loop-member :
    (all : Owners) (m gid : ℕ) (keys : List ℕ) (k : ℕ)
    → size_of all gid ≡ m
    → member k keys ≡ true
    → size_of all k ≤ size_of all (max_loop all m gid keys)
unfolding max_loop
max_loop-member all m gid [] k h i = absurd (ground arith)
max_loop-member all m gid (x ∷ keys) k h i = elim (Bool-cases (ltb m (size_of all x))) [
  | inl e ↦ rw e (elim (Bool-cases (eqb x k)) [
    | inl t ↦
        let p : x ≡ k = ground arith in
        subst (λ (y : ℕ). size_of all y ≤ size_of all (max_loop all (size_of all x) x keys)) p
          (max_loop-ge all (size_of all x) x keys refl)
    | inr t ↦ max_loop-member all (size_of all x) x keys k refl (ground arith)
  ])
  | inr e ↦ rw e (elim (Bool-cases (eqb x k)) [
    | inl t ↦
        let p : x ≡ k = ground arith in
        let q : size_of all k ≤ m = subst (λ (y : ℕ). size_of all y ≤ m) p (ground arith) in
        omega (arith, q, max_loop-ge all m gid keys h)
    | inr t ↦ max_loop-member all m gid keys k h (ground arith)
  ])
]

-- As long as shards have no group, they are taken first; afterwards no group is larger.
pub max_group-zero : (all : Owners) → 0 < size_of all 0 → max_group all ≡ 0
unfolding max_group
max_group-zero all h = ground arith

pub max_group-largest :
    (all : Owners) (k : ℕ) → size_of all 0 ≡ 0 → size_of all k ≤ size_of all (max_group all)
unfolding max_group
max_group-largest all k h = elim (Bool-cases (has_key k all)) [
  | inl e ↦
      ground (arith, max_loop-member all 0 0 (sorted_keys all) k h (member-sorted_keys k all e))
  | inr e ↦ omega (arith, size_of_absent k all e)
]

min_loop-kept :
    (all : Owners) (m gid : ℕ) (keys : List ℕ)
    → gid ≢ 0
    → size_of all gid ≡ m
    → (min_loop all m gid keys ≢ 0) × (size_of all (min_loop all m gid keys) ≤ m)
unfolding min_loop
min_loop-kept all m gid [] n h = (n, omega (arith, h))
min_loop-kept all m gid (k ∷ keys) n h =
    elim (Bool-cases (ltb (size_of all k) m && not (eqb k 0))) [
      | inl e ↦
          let lt : size_of all k < m = ground arith in
          let (a, b) = min_loop-kept all (size_of all k) k keys (ground arith) refl in
          rw e (a, omega (arith, b, lt))
      | inr e ↦ rw e (min_loop-kept all m gid keys n h)
    ]

min_loop-member :
    (all : Owners) (m gid : ℕ) (keys : List ℕ) (k : ℕ)
    → ((gid ≢ 0) × (size_of all gid ≡ m)) ⊎ (m ≡ max_uint32)
    → k ≢ 0
    → size_of all k < max_uint32
    → member k keys ≡ true
    → (min_loop all m gid keys ≢ 0) × (size_of all (min_loop all m gid keys) ≤ size_of all k)
unfolding min_loop
min_loop-member all m gid [] k v n b i = absurd (ground arith)
min_loop-member all m gid (x ∷ keys) k v n b i =
    elim (Bool-cases (ltb (size_of all x) m && not (eqb x 0))) [
      | inl e ↦
          let nx : x ≢ 0 = ground arith in
          rw e (elim (Bool-cases (eqb x k)) [
            | inl t ↦
                let p : x ≡ k = ground arith in
                let (a, le) = min_loop-kept all (size_of all x) x keys nx refl in
                (a, omega (arith, le, ap (size_of all) p))
            | inr t ↦
                min_loop-member all (size_of all x) x keys k (inl (nx, refl)) n b (ground arith)
          ])
      | inr e ↦ rw e (elim (Bool-cases (eqb x k)) [
        | inl t ↦
            let p : x ≡ k = ground arith in
            let q : size_of all x ≡ size_of all k = ap (size_of all) p in
            let le : m ≤ size_of all k = ground arith in
            elim v [
              | inl (a, s) ↦
                  let (c, d) = min_loop-kept all m gid keys a s in (c, omega (arith, d, le))
              | inr top ↦ absurd (omega (arith, top, le, b))
            ]
        | inr t ↦ min_loop-member all m gid keys k v n b (ground arith)
      ])
    ]

-- With a group there is a smallest one.
pub min_group-smallest :
    (all : Owners) (k : ℕ)
    → has_key k all ≡ true
    → k ≢ 0
    → size_of all k < max_uint32
    → (min_group all ≢ 0) × (size_of all (min_group all) ≤ size_of all k)
unfolding min_group
min_group-smallest all k h n b =
    min_loop-member all max_uint32 0 (sorted_keys all) k (inr refl) n b (member-sorted_keys k all h)

picked_member :
    (r gid k : ℕ) (t : Bool) (keys : List ℕ)
    → (r ≡ (if t then k else gid)) ⊎ (member r keys ≡ true)
    → (r ≡ gid) ⊎ (member r (k ∷ keys) ≡ true)
picked_member r gid k t keys h = ground arith

min_loop-member_or :
    (all : Owners) (m gid : ℕ) (keys : List ℕ)
    → (min_loop all m gid keys ≡ gid) ⊎ (member (min_loop all m gid keys) keys ≡ true)
unfolding min_loop
min_loop-member_or all m gid [] = inl refl
min_loop-member_or all m gid (k ∷ keys) =
    let t = ltb (size_of all k) m && not (eqb k 0) in
    let m' = if t then size_of all k else m in
    let gid' = if t then k else gid in
    picked_member (min_loop all m' gid' keys) gid k t keys (min_loop-member_or all m' gid' keys)

member-replicate : (k n : ℕ) → member k (replicate n 0) ≡ true → k ≡ 0
member-replicate k zero h = absurd (ground arith)
member-replicate k (suc n) h = ground (arith, member-replicate k n)

-- `minGroup` finds a key, or 0.
pub min_group-has_key : (all : Owners) → (min_group all ≡ 0) ⊎ (has_key (min_group all) all ≡ true)
unfolding min_group sorted_keys
min_group-has_key all =
    let keys = replicate (length all) 0 ++ keys_of all in
    let g = min_group all in
    ground (
      arith,
      min_loop-member_or all max_uint32 0 (sorted_keys all),
      member-sort g keys,
      member-append g (replicate (length all) 0) (keys_of all),
      member-keys_of g all,
      member-replicate g (length all),
    )
