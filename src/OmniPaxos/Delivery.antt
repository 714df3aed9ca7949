-- ===== src/OmniPaxos/Delivery.antt =====
-- What `addToApplyChan` sends: consecutive entries of the log, under their indices.
use omni_paxos_kv.Prelude.{
  ℕ, zero, suc, ◌+◌, ◌-◌, ◌≤◌, ◌≡◌, refl, inl, inr, true, some, List, [], ◌∷◌, ◌++◌, map,
  append_assoc, arith, Option-cases, length, take, take-suc, get_elem?, add-zero, append-nil,
  get_elem?-some, range',
}
use omni_paxos_kv.OmniPaxos.Types.{OmniPaxos, ApplyMsg}
use omni_paxos_kv.OmniPaxos.Log.{apply_msgs, add_to_apply_chan}

module _ {C : Type 0} where
  abbrev pub indices : List (ApplyMsg C) → List ℕ
  indices = map (λ m. m.command_index)

  abbrev pub commands : List (ApplyMsg C) → List C
  commands = map (λ m. m.command)

  pub indices-apply_msgs :
      (log : List C) (from n : ℕ) (ms : List (ApplyMsg C))
      → apply_msgs log from n ≡ some ms
      → indices ms ≡ range' from n
  unfolding apply_msgs
  indices-apply_msgs log from zero ms h = ground arith
  indices-apply_msgs log from (suc n) ms h = elim (Option-cases (get_elem? log from)) [
    | inl e ↦ ground arith
    | inr (c, e) ↦ elim (Option-cases (apply_msgs log (from + 1) n)) [
      | inl e' ↦ ground arith
      | inr (rest, e') ↦ ground (arith, indices-apply_msgs log (from + 1) n rest e')
    ]
  ]

  -- Within the log nothing panics.
  pub apply_msgs-some :
      (log : List C) (from n : ℕ)
      → from + n ≤ length log
      → (ms : List (ApplyMsg C)) × (apply_msgs log from n ≡ some ms)
  unfolding apply_msgs
  apply_msgs-some log from zero h = ([], refl)
  apply_msgs-some log from (suc n) h =
      let (c, e) = get_elem?-some log from (omega arith) in
      let (rest, e') = apply_msgs-some log (from + 1) n (omega arith) in
      (record { command_valid = true; command = c; command_index = from } ∷ rest, rw (e', e) refl)

  -- The commands of a run of messages are the log's entries.
  pub commands-apply_msgs :
      (log : List C) (from n : ℕ) (ms : List (ApplyMsg C))
      → apply_msgs log from n ≡ some ms
      → take (from + n) log ≡ take from log ++ commands ms
  unfolding apply_msgs
  commands-apply_msgs log from zero ms h =
      let e : [] ≡ ms = ground arith in rw (add-zero, ← e, append-nil)
  commands-apply_msgs log from (suc n) ms h = elim (Option-cases (get_elem? log from)) [
    | inl e ↦ ground arith
    | inr (c, e) ↦ elim (Option-cases (apply_msgs log (from + 1) n)) [
      | inl e' ↦ ground arith
      | inr (rest, e') ↦
          let assoc : from + suc n ≡ from + 1 + n = omega arith in
          let next : from + 1 ≡ suc from = omega arith in
          let shape : commands ms ≡ c ∷ commands rest = ground arith in
          rw (
            assoc,
            commands-apply_msgs log (from + 1) n rest e',
            next,
            take-suc from log c e,
            shape,
            append_assoc,
          )
    ]
  ]

  -- What a successful delivery adds is the run of messages from `from` up to `to`.
  pub add_to_apply_chan-some :
      (log : List C) (from to : ℕ) (op op' : OmniPaxos C)
      → add_to_apply_chan log from to op ≡ some op'
      → (ms : List (ApplyMsg C)) × (apply_msgs log from (to - from) ≡ some ms)
        × (op' ≡ record op { applied = op.applied ++ ms })
  unfolding add_to_apply_chan
  add_to_apply_chan-some log from to op op' h =
      elim (Option-cases (apply_msgs log from (to - from))) [
        | inl e ↦ ground arith
        | inr (ms, e) ↦ (ms, e, ground arith)
      ]
