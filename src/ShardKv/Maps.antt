-- ===== src/ShardKv/Maps.antt =====
-- a3b-sharding/shardkv/server.go and apply.go: copying maps, and merging the clients' last requests.
-- A loop over a map visits its list from the end; Go leaves the order open.
use omni_paxos_kv.Prelude.{
  Bool-cases, eqb_ℤ, int_eq, ◌≡◌, refl, none, some, [], ◌∷◌, arith, if◌then◌else◌, Eq, inl, inr, ℤ,
  pos, ltb_ℤ, Assoc, lookup, lookup_or, insert, lookup-insert, ◌≤ℤ◌,
}

module _ {ℓ κ} {K : Type ℓ} {V : Type κ} ⦃e : Eq K⦄ where
  unfoldable pub copy_map : Assoc K V → Assoc K V → Assoc K V
  copy_map [] dst = dst
  copy_map ((k, v) ∷ src) dst = insert k v (copy_map src dst)

  -- After the copy a key has its value in the source, or its old one if the source lacks it.
  pub lookup-copy_map :
      (src dst : Assoc K V) (k : K)
      → lookup k (copy_map src dst) ≡ elim (lookup k src) [ some v ↦ some v | none ↦ lookup k dst ]
  unfolding copy_map lookup
  lookup-copy_map [] dst k = refl
  lookup-copy_map ((j, v) ∷ src) dst k =
      ground (arith, lookup-insert j k v (copy_map src dst), lookup-copy_map src dst k)

-- Go's `max` on `int64`
abbrev pub max_ℤ : ℤ → ℤ → ℤ
max_ℤ a b = if ltb_ℤ a b then b else a

unfoldable pub merge_prev : Assoc ℤ ℤ → Assoc ℤ ℤ → Assoc ℤ ℤ
merge_prev [] dst = dst
merge_prev ((c, n) ∷ src) dst =
    let rest = merge_prev src dst in insert c (max_ℤ (lookup_or (pos 0) c rest) n) rest

-- A merge forgets no request: for each client the merged number is at least the old one, and at
-- least the source's one.
pub merge_prev-le :
    (src dst : Assoc ℤ ℤ) (c : ℤ)
    → (lookup_or (pos 0) c dst ≤ℤ lookup_or (pos 0) c (merge_prev src dst))
      × ((n : ℤ) → lookup c src ≡ some n → n ≤ℤ lookup_or (pos 0) c (merge_prev src dst))
unfolding merge_prev lookup
merge_prev-le [] dst c = (omega arith, λ n h. cc)
merge_prev-le ((j, v) ∷ src) dst c =
    let rest = merge_prev src dst in
    let m = max_ℤ (lookup_or (pos 0) j rest) v in
    let (lo, hi) = merge_prev-le src dst c in
    (
      ground (arith, lookup-insert j c m rest, int_eq.beq_iff j c, lo),
      λ n h. ground (arith, lookup-insert j c m rest, int_eq.beq_iff j c, hi n),
    )

-- What a client has in the target keeps a number that is at least the old one.
pub merge_prev-keeps :
    (src dst : Assoc ℤ ℤ) (c p : ℤ)
    → lookup c dst ≡ some p
    → (q : ℤ) × (lookup c (merge_prev src dst) ≡ some q) × (p ≤ℤ q)
unfolding merge_prev lookup
merge_prev-keeps [] dst c p h = (p, h, omega arith)
merge_prev-keeps ((j, v) ∷ src) dst c p h =
    let (q, e, le) = merge_prev-keeps src dst c p h in
    let rest = merge_prev src dst in
    let m = max_ℤ (lookup_or (pos 0) j rest) v in
    elim (Bool-cases (eqb_ℤ j c)) [
      | inl t ↦
          (m, ground (arith, lookup-insert j c m rest), ground (arith, int_eq.beq_iff j c, e, le))
      | inr f ↦ (q, ground (arith, lookup-insert j c m rest), le)
    ]
