-- ===== src/ShardKv/Arrivals.antt =====
-- a3b-sharding/shardkv/reconf.go: the lists of `shardsToTransfer` hold each shard that arrives, under the
-- group that has it.
use omni_paxos_kv.Prelude.{
  subst, ap, Bool-cases, zero, suc, ◌||◌, ◌&&◌, nat_eq, int_eq, list_eq, ℕ, ◌<◌, ◌≡◌, ◌⊎◌, inl, inr,
  Bool, true, false, not, List, [], ◌∷◌, ◌++◌, arith, eqb, if◌then◌else◌, lookup, lookup_or, insert,
  Assoc, range,
}
use omni_paxos_kv.ShardCtrler.Types.{Config}
use omni_paxos_kv.ShardKv.Types.{ShardKv, owner}
use omni_paxos_kv.ShardKv.Reconf.{arrives, collect}
use omni_paxos_kv.ShardKv.Handover.{has}

-- Whether a shard stands in the lists only under group `o`, and whether it stands there at all.
abbrev pub owned : ℕ → ℕ → Assoc ℕ (List ℕ) → Bool
owned o sid [] = true
owned o sid ((g, sids) ∷ m) = (not (has sid sids) || eqb g o) && owned o sid m

abbrev pub listed : ℕ → Assoc ℕ (List ℕ) → Bool
listed sid [] = false
listed sid ((g, sids) ∷ m) = has sid sids || listed sid m

pub has-append : (sid i : ℕ) (xs : List ℕ) → has sid (xs ++ i ∷ []) ≡ (has sid xs || eqb sid i)
has-append sid i [] = ground arith
has-append sid i (x ∷ xs) = ground (arith, has-append sid i xs)

pub has-range : (sid n : ℕ) → sid < n → has sid (range n) ≡ true
has-range sid zero h = absurd (omega arith)
has-range sid (suc n) h = elim (Bool-cases (eqb sid n)) [
  | inl e ↦ ground (arith, has-append sid n (range n))
  | inr e ↦ ground (arith, has-append sid n (range n), has-range sid n (ground arith))
]

owned-lookup :
    (o sid g : ℕ) (m : Assoc ℕ (List ℕ))
    → owned o sid m ≡ true
    → has sid (lookup_or [] g m) ≡ true
    → g ≡ o
unfolding lookup
owned-lookup o sid g [] h k = absurd (ground arith)
owned-lookup o sid g ((j, sids) ∷ m) h k = ground (arith, owned-lookup o sid g m)

owned-insert :
    (o sid g : ℕ) (l : List ℕ) (m : Assoc ℕ (List ℕ))
    → owned o sid m ≡ true
    → (not (has sid l) || eqb g o) ≡ true
    → owned o sid (insert g l m) ≡ true
unfolding insert
owned-insert o sid g l [] h k = ground arith
owned-insert o sid g l ((j, sids) ∷ m) h k = ground (arith, owned-insert o sid g l m)

listed-insert :
    (sid g : ℕ) (l : List ℕ) (m : Assoc ℕ (List ℕ))
    → has sid l ≡ true
    → listed sid (insert g l m) ≡ true
unfolding insert
listed-insert sid g l [] h = ground arith
listed-insert sid g l ((j, sids) ∷ m) h = ground (arith, listed-insert sid g l m h)

listed-keeps :
    (sid g : ℕ) (l : List ℕ) (m : Assoc ℕ (List ℕ))
    → listed sid m ≡ true
    → (has sid (lookup_or [] g m) ≡ true → has sid l ≡ true)
    → listed sid (insert g l m) ≡ true
unfolding insert lookup
listed-keeps sid g l [] h k = absurd (ground arith)
listed-keeps sid g l ((j, sids) ∷ m) h k = elim (Bool-cases (eqb j g)) [
  | inl e ↦ ground (arith, k)
  | inr e ↦
      let k' : has sid (lookup_or [] g m) ≡ true → has sid l ≡ true = λ t. k (ground arith) in
      elim (Bool-cases (has sid sids)) [
        | inl t ↦ ground arith
        | inr t ↦ ground (arith, listed-keeps sid g l m (ground arith) k')
      ]
]

one_more_owned :
    (kv : ShardKv) (sid i : ℕ) (m : Assoc ℕ (List ℕ))
    → let o = owner kv.config sid in
      let g = owner kv.config i in
      owned o sid m ≡ true → (not (has sid (lookup_or [] g m ++ i ∷ [])) || eqb g o) ≡ true
one_more_owned kv sid i m h =
    let o = owner kv.config sid in
    let g = owner kv.config i in
    let a = has-append sid i (lookup_or [] g m) in
    elim (Bool-cases (has sid (lookup_or [] g m))) [
      | inl e ↦ let p : g ≡ o = owned-lookup o sid g m h e in ground (arith, p)
      | inr e ↦ elim (Bool-cases (eqb sid i)) [
        | inl f ↦
            let q : sid ≡ i = ground arith in
            let p : o ≡ g = ap (owner kv.config) q in ground (arith, p)
        | inr f ↦ ground (arith, a)
      ]
    ]

pub collect-owned :
    (kv : ShardKv) (conf : Config) (sid : ℕ) (is : List ℕ) (m : Assoc ℕ (List ℕ))
    → owned (owner kv.config sid) sid m ≡ true
    → owned (owner kv.config sid) sid (collect kv conf is m) ≡ true
unfolding collect
collect-owned kv conf sid [] m h = h
collect-owned kv conf sid (i ∷ is) m h =
    let o = owner kv.config sid in
    let g = owner kv.config i in
    let l = lookup_or [] g m ++ i ∷ [] in
    let k : (not (has sid l) || eqb g o) ≡ true = one_more_owned kv sid i m h in
    collect-owned kv conf sid is (if arrives kv conf i then insert g l m else m)
      (ground (arith, owned-insert o sid g l m h k))

listed_next :
    (kv : ShardKv) (conf : Config) (sid i : ℕ) (is : List ℕ) (m : Assoc ℕ (List ℕ))
    → arrives kv conf sid ≡ true
    → (listed sid m ≡ true) ⊎ (has sid (i ∷ is) ≡ true)
    → let g = owner kv.config i in
      let l = lookup_or [] g m ++ i ∷ [] in
      (listed sid (if arrives kv conf i then insert g l m else m) ≡ true) ⊎ (has sid is ≡ true)
listed_next kv conf sid i is m a h =
    let g = owner kv.config i in
    let l = lookup_or [] g m ++ i ∷ [] in
    let n : has sid l ≡ (has sid (lookup_or [] g m) || eqb sid i) =
      has-append sid i (lookup_or [] g m) in
    elim (Bool-cases (eqb sid i)) [
      | inl e ↦
          let p : sid ≡ i = ground arith in
          let a' : arrives kv conf i ≡ true = subst (λ x. arrives kv conf x ≡ true) p a in
          let t : listed sid (insert g l m) ≡ true = listed-insert sid g l m (ground (arith, n)) in
          inl (ground (arith, a', t))
      | inr e ↦ elim h [
        | inl o ↦
            let k : has sid (lookup_or [] g m) ≡ true → has sid l ≡ true = λ t. ground (arith, n) in
            let t : listed sid (insert g l m) ≡ true = listed-keeps sid g l m o k in
            inl (ground (arith, t, o))
        | inr o ↦ inr (ground arith)
      ]
    ]

pub collect-listed :
    (kv : ShardKv) (conf : Config) (sid : ℕ) (is : List ℕ) (m : Assoc ℕ (List ℕ))
    → arrives kv conf sid ≡ true
    → (listed sid m ≡ true) ⊎ (has sid is ≡ true)
    → listed sid (collect kv conf is m) ≡ true
unfolding collect
collect-listed kv conf sid [] m a (inl h) = h
collect-listed kv conf sid [] m a (inr h) = absurd (ground arith)
collect-listed kv conf sid (i ∷ is) m a h =
    let g = owner kv.config i in
    let l = lookup_or [] g m ++ i ∷ [] in
    let q : (listed sid (if arrives kv conf i then insert g l m else m) ≡ true)
        ⊎ (has sid is ≡ true) =
      listed_next kv conf sid i is m a h in
    collect-listed kv conf sid is (if arrives kv conf i then insert g l m else m) a q
