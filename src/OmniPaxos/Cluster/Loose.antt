-- ===== src/OmniPaxos/Cluster/Loose.antt =====
-- Accepted and Decide, the messages of a round whose order does not matter.
use omni_paxos_kv.Prelude.{ℕ, zero, suc, ◌≡◌, refl, subst, some, [], ◌∷◌, ◌++◌, arith, get_elem?}
use omni_paxos_kv.OmniPaxos.Types.{Message, Outbox}
use omni_paxos_kv.OmniPaxos.Cluster.{ordered, ordered_for, unordered}
use omni_paxos_kv.Prelude.{none}

module _ {C : Type 0} where
  -- The messages of a round that are not ordered: Accepted and Decide.
  abbrev pub Loose : Message C → Type 0
  Loose (Message.prepare _) = ⊥
  Loose (Message.promise _) = ⊥
  Loose (Message.accept_sync _) = ⊥
  Loose (Message.decide _) = Unit
  Loose (Message.accepted _) = Unit
  Loose (Message.accept _) = ⊥
  Loose (Message.prepare_req _) = ⊥
  Loose (Message.reconnected _) = ⊥

  abbrev pub AllLoose : Outbox C → Type 0
  AllLoose [] = Unit
  AllLoose ((i, m) ∷ out) = Loose m × AllLoose out

  abbrev pub IsDecide : Message C → Type 0
  IsDecide (Message.prepare _) = ⊥
  IsDecide (Message.promise _) = ⊥
  IsDecide (Message.accept_sync _) = ⊥
  IsDecide (Message.decide _) = Unit
  IsDecide (Message.accepted _) = ⊥
  IsDecide (Message.accept _) = ⊥
  IsDecide (Message.prepare_req _) = ⊥
  IsDecide (Message.reconnected _) = ⊥

  abbrev pub AllDecides : Outbox C → Type 0
  AllDecides [] = Unit
  AllDecides ((i, m) ∷ out) = IsDecide m × AllDecides out

  IsDecide-Loose : (m : Message C) → IsDecide m → Loose m
  IsDecide-Loose (Message.prepare _) h = h
  IsDecide-Loose (Message.promise _) h = h
  IsDecide-Loose (Message.accept_sync _) h = h
  IsDecide-Loose (Message.decide _) h = h
  IsDecide-Loose (Message.accepted _) h = tt
  IsDecide-Loose (Message.accept _) h = h
  IsDecide-Loose (Message.prepare_req _) h = h
  IsDecide-Loose (Message.reconnected _) h = h

  pub AllDecides-AllLoose : (out : Outbox C) → AllDecides out → AllLoose out
  AllDecides-AllLoose [] h = tt
  AllDecides-AllLoose ((i, m) ∷ out) (a, h) = (IsDecide-Loose m a, AllDecides-AllLoose out h)

  Loose-ordered : (m : Message C) → Loose m → ordered m ≡ none
  Loose-ordered (Message.prepare _) l = refl
  Loose-ordered (Message.promise _) l = refl
  Loose-ordered (Message.accept_sync _) l = absurd l
  Loose-ordered (Message.decide _) l = refl
  Loose-ordered (Message.accepted _) l = refl
  Loose-ordered (Message.accept _) l = absurd l
  Loose-ordered (Message.prepare_req _) l = refl
  Loose-ordered (Message.reconnected _) l = refl

  pub ordered_for-AllLoose : (j : ℕ) (out : Outbox C) → AllLoose out → ordered_for j out ≡ []
  ordered_for-AllLoose j [] v = refl
  ordered_for-AllLoose j ((i, m) ∷ out) (a, v) =
      rw (Loose-ordered m a, ordered_for) (ordered_for-AllLoose j out v)

  pub unordered-AllLoose : (out : Outbox C) → AllLoose out → AllLoose (unordered out)
  unordered-AllLoose [] v = tt
  unordered-AllLoose ((i, m) ∷ out) (a, v) =
      rw (Loose-ordered m a, AllLoose, unordered) (a, unordered-AllLoose out v)

  pub AllLoose-append : (xs ys : Outbox C) → AllLoose xs → AllLoose ys → AllLoose (xs ++ ys)
  AllLoose-append [] ys v w = w
  AllLoose-append ((i, m) ∷ xs) ys (a, v) w = (a, AllLoose-append xs ys v w)

  pub AllLoose-get :
      (xs : Outbox C) (k i : ℕ) (m : Message C)
      → AllLoose xs
      → get_elem? xs k ≡ some (i, m)
      → Loose m
  AllLoose-get [] k i m v h = absurd (ground arith)
  AllLoose-get ((j, m') ∷ xs) zero i m (a, v) h = let e : m' ≡ m = ground arith in subst Loose e a
  AllLoose-get (x ∷ xs) (suc k) i m (a, v) h = AllLoose-get xs k i m v h
