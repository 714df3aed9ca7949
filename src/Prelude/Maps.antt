-- ===== src/Prelude/Maps.antt =====
-- Go's maps as association lists, newest key last. A loop over a map visits the list in its order,
-- so a theorem over every list covers every order of Go's `range`.
use mathlib.Core.Path.{◌≡◌, refl}
use mathlib.Core.List.{List, [], ◌∷◌}
use mathlib.Core.Option.{Option, none, some}
use native.Mathlib.Omega.{arith}
use omni_paxos_kv.Prelude.Tests.{if◌then◌else◌, Eq, ◌==◌, beq_self}

abbrev pub Assoc {ℓ κ} : Type ℓ → Type κ → Type (ℓ ⊔ κ)
Assoc K V = List (K × V)

abbrev pub get_or {ℓ} : {A : Type ℓ} → Option A → A → A
get_or none d = d
get_or (some a) d = a

module _ {ℓ κ} {K : Type ℓ} {V : Type κ} ⦃e : Eq K⦄ where
  unfoldable pub lookup : K → Assoc K V → Option V
  lookup k [] = none
  lookup k ((j, v) ∷ m) = if j == k then some v else lookup k m

  -- `m[k] = v`
  unfoldable pub insert : K → V → Assoc K V → Assoc K V
  insert k v [] = (k, v) ∷ []
  insert k v ((j, w) ∷ m) = if j == k then (k, v) ∷ m else (j, w) ∷ insert k v m

  -- `delete(m, k)`
  unfoldable pub erase : K → Assoc K V → Assoc K V
  erase k [] = []
  erase k ((j, v) ∷ m) = let rest = erase k m in if j == k then rest else (j, v) ∷ rest

  -- `m[k]` where a missing key reads as the zero value
  abbrev pub lookup_or : V → K → Assoc K V → V
  lookup_or d k m = get_or (lookup k m) d

  pub lookup-insert :
      (key other : K) (value : V) (map : Assoc K V)
      → lookup other (insert key value map)
        ≡ (if key == other then some value else lookup other map)
  unfolding insert lookup
  lookup-insert key other value [] = refl
  lookup-insert key other value ((first, old) ∷ map) = ground (
    arith,
    lookup-insert key other value map,
    e.beq_iff first other,
    e.beq_iff first key,
    e.beq_iff key other,
  )

  pub lookup-insert_self :
      (key : K) (value : V) (map : Assoc K V) → lookup key (insert key value map) ≡ some value
  lookup-insert_self key value map = rw (lookup-insert, beq_self key)

  pub lookup-erase :
      (k j : K) (m : Assoc K V) → lookup j (erase k m) ≡ (if k == j then none else lookup j m)
  unfolding lookup erase
  lookup-erase k j [] = ground arith
  lookup-erase k j ((i, v) ∷ m) =
      ground (arith, lookup-erase k j m, e.beq_iff i k, e.beq_iff i j, e.beq_iff k j)
