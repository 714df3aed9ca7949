-- ===== src/OmniPaxos/Takeover.antt =====
-- A new leader's log: the best promise, and what adopting it keeps.
pub mod Survival
use omni_paxos_kv.Prelude.{
  ℕ, zero, suc, ◌+◌, ◌-◌, ◌≤◌, ◌<◌, ◌≡◌, ◌≢◌, ◌⊎◌, refl, sym, ap, subst, ◌∙◌, inl, inr, Bool, true,
  false, ◌&&◌, ◌||◌, Option, some, none, List, [], ◌∷◌, ◌++◌, append_assoc, arith, eqb, ltb, leb,
  if◌then◌else◌, Bool-cases, Option-cases, length, take, drop, take-append-drop, take-append_left,
  take-take, take_of_le, length-append, length-take, length-drop, min, pos, Assoc,
}
use omni_paxos_kv.OmniPaxos.Ballot.{Ballot, compare, positive, ballot_beq, ballot_beq_iff}
use omni_paxos_kv.OmniPaxos.Ballot.Order.{
  AtMost, AtMost-refl, AtMost-trans, AtMost-of_positive, AtMost-antisymm, compare-eq_zero,
}
use omni_paxos_kv.OmniPaxos.Types.{OmniPaxos, Promise, PrepareRequest, Codec}
use omni_paxos_kv.OmniPaxos.Log.{suffix, prefix}
use omni_paxos_kv.OmniPaxos.Prepare.{find_suffix}
use omni_paxos_kv.OmniPaxos.Promise.{no_promise, max_promise_from, max_promise, adopt}

module _ {C : Type 0} where
  abbrev pub Given : Promise C → Assoc ℕ (Promise C) → Type 0
  Given p [] = ⊥
  Given p ((_, q) ∷ ps) = (p ≡ q) ⊎ Given p ps

  -- The order of the promises: by the accepted round, then by the length of the log.
  abbrev pub Below : Promise C → Promise C → Type 0
  Below p q = AtMost p.acc_rnd q.acc_rnd × (p.acc_rnd ≡ q.acc_rnd → p.log_idx ≤ q.log_idx)

  Below-refl : (p : Promise C) → Below p p
  Below-refl p = (AtMost-refl p.acc_rnd, λ e. omega arith)

  Below-trans : (p q r : Promise C) → Below p q → Below q r → Below p r
  Below-trans p q r (a, f) (b, g) = (
    AtMost-trans p.acc_rnd q.acc_rnd r.acc_rnd a b,
    λ e.
        let up : AtMost q.acc_rnd p.acc_rnd = subst (AtMost q.acc_rnd) (sym e) b in
        let same : p.acc_rnd ≡ q.acc_rnd = AtMost-antisymm p.acc_rnd q.acc_rnd a up in
        omega (arith, f same, g (sym same ∙ e)),
  )

  -- One turn of the loop keeps the better of two.
  better_Below :
      (best p : Promise C)
      → let y =
          if positive (compare p.acc_rnd best.acc_rnd)
            || ballot_beq p.acc_rnd best.acc_rnd && ltb best.log_idx p.log_idx
          then p
          else best in
        Below best y × Below p y × ((y ≡ p) ⊎ (y ≡ best))
  better_Below best p = elim (Bool-cases (positive (compare p.acc_rnd best.acc_rnd))) [
    | inl a ↦
        let apart : best.acc_rnd ≢ p.acc_rnd = λ e.
          let t : AtMost p.acc_rnd best.acc_rnd =
            subst (AtMost p.acc_rnd) (sym e) (AtMost-refl p.acc_rnd) in
          absurd (ground arith) in
        rw a (
          (AtMost-of_positive p.acc_rnd best.acc_rnd a, λ e. absurd (apart e)),
          Below-refl p,
          inl refl,
        )
    | inr a ↦ elim (Bool-cases (ballot_beq p.acc_rnd best.acc_rnd && ltb best.log_idx p.log_idx)) [
      | inl b ↦
          let t : ballot_beq p.acc_rnd best.acc_rnd ≡ true = ground arith in
          let same : p.acc_rnd ≡ best.acc_rnd = (ballot_beq_iff p.acc_rnd best.acc_rnd).0 t in
          let below : Below best p =
            (subst (λ b. AtMost b p.acc_rnd) same (AtMost-refl p.acc_rnd), λ e. ground arith) in
          rw (a, b) (below, Below-refl p, inl refl)
      | inr b ↦
          let below : Below p best = (
            a,
            λ e.
                let t : ballot_beq p.acc_rnd best.acc_rnd ≡ true =
                  (ballot_beq_iff p.acc_rnd best.acc_rnd).1 e in
                ground arith,
          ) in
          rw (a, b) (Below-refl best, below, inr refl)
    ]
  ]

  better : Promise C → Promise C → Promise C
  better best p =
      if positive (compare p.acc_rnd best.acc_rnd)
        || ballot_beq p.acc_rnd best.acc_rnd && ltb best.log_idx p.log_idx
      then p
      else best

  -- `maxPromise` takes the best promise, or the one that it starts from.
  pub max_promise_from_best :
      (best : Promise C) (ps : Assoc ℕ (Promise C))
      → Below best (max_promise_from best ps)
        × ((p : Promise C) → Given p ps → Below p (max_promise_from best ps))
        × ((max_promise_from best ps ≡ best) ⊎ Given (max_promise_from best ps) ps)
  unfolding max_promise_from better
  max_promise_from_best best [] = (Below-refl best, λ p g. absurd g, inl refl)
  max_promise_from_best best ((k, q) ∷ ps) =
      let y = better best q in
      let (up, up', which) = better_Below best q in
      let (a, b, c) = max_promise_from_best y ps in
      let top = max_promise_from y ps in
      let q_up : Below q top = Below-trans q y top up' a in
      let given : (p : Promise C) → Given p ((k, q) ∷ ps) → Below p top =
        λ p g. elim g [ inl e ↦ subst (λ p. Below p top) (sym e) q_up | inr g ↦ b p g ] in
      let source : (top ≡ best) ⊎ Given top ((k, q) ∷ ps) = elim c [
        | inr g ↦ inr (inr g)
        | inl e ↦ elim which [ inl f ↦ inr (inl (e ∙ f)) | inr f ↦ inl (e ∙ f) ]
      ] in
      (Below-trans best y top up a, given, source)

take_extend :
    {C : Type 0} (x v y rest : List C)
    → take (length v) x ≡ take (length x) v
    → take (length v) y ≡ v
    → take (length v) (x ++ ((if ltb (length y) (length x) then [] else drop (length x) y) ++ rest))
      ≡ v
take_extend x v y rest part whole =
    let n = length v in
    elim (Bool-cases (leb n (length x))) [
      | inl e ↦
          let le : n ≤ length x = ground arith in
          take-append_left n x
            ((if ltb (length y) (length x) then [] else drop (length x) y) ++ rest) le
          ∙ part
          ∙ take_of_le (length x) v le
      | inr e ↦
          let lt : length x < n = ground arith in
          let size : n ≡ min n (length y) = ap length (sym whole) ∙ length-take n y in
          let same : x ≡ take (length x) y =
            sym (take_of_le n x (omega (arith, lt)))
            ∙ part
            ∙ ap (take (length x)) (sym whole)
            ∙ take-take (length x) n y (omega (arith, lt)) in
          let no_less : ltb (length y) (length x) ≡ false = ground (arith, size, lt) in
          let all : x ++ (drop (length x) y ++ rest) ≡ y ++ rest =
            sym (append_assoc x (drop (length x) y) rest)
            ∙ ap (λ z. z ++ drop (length x) y ++ rest) same
            ∙ ap (λ z. z ++ rest) (take-append-drop (length x) y) in
          rw no_less (ap (take n) all ∙ take-append_left n y rest (omega (arith, size)) ∙ whole)
    ]

module _ {C : Type 0} where
  -- The Prepare of a leader, and the promise with which a peer answers it.
  abbrev pub asked : OmniPaxos C → PrepareRequest
  asked op = record {
    l = op.me;
    n = op.current_rnd;
    acc_rnd = op.os.accepted_rnd;
    log_idx = length op.os.log;
    dec_idx = op.os.decided_idx;
  }

  abbrev pub promised_by : OmniPaxos C → OmniPaxos C → Promise C
  promised_by op q = record {
    f = q.me;
    acc_rnd = q.os.accepted_rnd;
    log_idx = length q.os.log;
    dec_idx = q.os.decided_idx;
    log = find_suffix q (asked op);
  }

  -- No round after `n` was accepted, and a log that was accepted in it goes on from `v`, or is on the
  -- way to it.
  pub record Agrees (n : Ballot) (v : List C) (q : OmniPaxos C) : Type 0 where
    pub newest : AtMost q.os.accepted_rnd n
    pub same : q.os.accepted_rnd ≡ n → take (length v) q.os.log ≡ take (length q.os.log) v

  has_all :
      (n : Ballot) (v : List C) (q : OmniPaxos C)
      → Agrees n v q
      → q.os.accepted_rnd ≡ n
      → length v ≤ length q.os.log
      → take (length v) q.os.log ≡ v
  has_all n v q a e le = a.same e ∙ take_of_le (length q.os.log) v le

  adopt_promised :
      (op q : OmniPaxos C) (n : Ballot) (v : List C)
      → Agrees n v op
      → op.os.decided_idx ≤ length op.os.log
      → take (length v) (take op.os.decided_idx op.os.log) ≡ take op.os.decided_idx v
      → q.os.accepted_rnd ≡ n
      → take (length v) q.os.log ≡ v
      → take (length v) (adopt op (promised_by op q)) ≡ v
  unfolding adopt find_suffix suffix prefix
  adopt_promised op q n v a inside part at whole =
      elim (Bool-cases (ballot_beq q.os.accepted_rnd op.os.accepted_rnd)) [
        | inl e ↦
            let s : q.os.accepted_rnd ≡ op.os.accepted_rnd =
              (ballot_beq_iff q.os.accepted_rnd op.os.accepted_rnd).0 e in
            let z : compare q.os.accepted_rnd op.os.accepted_rnd ≡ pos 0 =
              (compare-eq_zero q.os.accepted_rnd op.os.accepted_rnd).1 s in
            rw (e, z) (take_extend op.os.log v q.os.log op.buffer (a.same (sym s ∙ at)) whole)
        | inr e ↦
            let d = op.os.decided_idx in
            let apart : q.os.accepted_rnd ≢ op.os.accepted_rnd = λ s.
              let t = (ballot_beq_iff q.os.accepted_rnd op.os.accepted_rnd).1 s in
              absurd (ground arith) in
            let up : positive (compare q.os.accepted_rnd op.os.accepted_rnd) ≡ true =
              elim (Bool-cases (positive (compare q.os.accepted_rnd op.os.accepted_rnd))) [
                | inl t ↦ t
                | inr t ↦
                    let le : AtMost op.os.accepted_rnd q.os.accepted_rnd = rw at a.newest in
                    absurd (apart (AtMost-antisymm q.os.accepted_rnd op.os.accepted_rnd t le))
              ] in
            let cut : prefix op d ≡ take d op.os.log = ground (arith, inside) in
            let size : length (take d op.os.log) ≡ d =
              omega (arith, length-take d op.os.log, inside) in
            let kept =
              take_extend (take d op.os.log) v q.os.log op.buffer
                (part ∙ ap (λ k. take k v) (sym size)) whole in
            let kept' : take (length v) (
                  take d op.os.log
                  ++ ((if ltb (length q.os.log) d then [] else drop d q.os.log) ++ op.buffer))
                ≡ v =
              subst
                (λ k.
                  take (length v) (
                    take d op.os.log
                    ++ ((if ltb (length q.os.log) k then [] else drop k q.os.log) ++ op.buffer))
                  ≡ v)
                size kept in
            rw (e, up) (rw cut kept')
      ]
