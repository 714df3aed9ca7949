-- ===== src/OmniPaxos/Promise.antt =====
-- a2-omnipaxos/omnipaxos.go: `PromiseHandler`, which moves a leader to its second phase.
use omni_paxos_kv.Prelude.{
  nat_eq, ℕ, not, ◌&&◌, ◌||◌, Option, some, List, [], ◌∷◌, ◌++◌, ltb, if◌then◌else◌, ◌>>=◌, length,
  store_at, pos, negsuc, eqb_ℤ, Assoc, insert,
}
use omni_paxos_kv.OmniPaxos.Ballot.{Ballot, compare, positive, ballot_beq}
use omni_paxos_kv.OmniPaxos.Types.{
  OmniPaxos, Promise, Phase, leader, follower, Message, Outbox, Outcome, PromiseRequest, Codec,
}
use omni_paxos_kv.OmniPaxos.Log.{suffix, prefix, persist, quorum}

module _ {C : Type 0} where
  -- the loop of `maxPromise`, from the best promise so far
  unfoldable pub max_promise_from : Promise C → Assoc ℕ (Promise C) → Promise C
  max_promise_from best [] = best
  max_promise_from best ((_, p) ∷ ps) =
      max_promise_from
        (if positive (compare p.acc_rnd best.acc_rnd)
            || ballot_beq p.acc_rnd best.acc_rnd && ltb best.log_idx p.log_idx
          then p
          else best)
        ps

  abbrev pub no_promise : Promise C
  no_promise = record {
    f = 0;
    acc_rnd = record { n = negsuc 0; pid = negsuc 0 };
    log_idx = 0;
    dec_idx = 0;
    log = [];
  }

  unfoldable pub max_promise : OmniPaxos C → Promise C
  unfolding max_promise_from
  max_promise op = max_promise_from no_promise op.promises

  -- steps P3 to P5: the log of the new round (`stopped` returns false)
  unfoldable pub adopt : OmniPaxos C → Promise C → List C
  unfolding prefix
  adopt op top =
      (if ballot_beq top.acc_rnd op.os.accepted_rnd then op.os.log else prefix op op.os.decided_idx)
      ++ (top.log ++ op.buffer)

  -- the AcceptSync for one promise
  unfoldable pub sync_message : OmniPaxos C → Ballot → ℕ → ℕ → ℕ × Message C
  unfolding suffix
  sync_message op n f sync_idx = (
    f,
    Message.accept_sync
        (record { l = op.me; n = n; sfx = suffix op sync_idx; sync_idx = sync_idx }),
  )

  unfoldable pub sync_all : OmniPaxos C → Ballot → Promise C → Assoc ℕ (Promise C) → Outbox C
  unfolding sync_message
  sync_all op n top [] = []
  sync_all op n top ((_, p) ∷ ps) =
      sync_message op n p.f (if ballot_beq p.acc_rnd top.acc_rnd then p.log_idx else p.dec_idx)
      ∷ sync_all op n top ps

  -- step A3
  decide_message : OmniPaxos C → Ballot → ℕ → ℕ → Outbox C
  decide_message op n f dec_idx =
      if ltb dec_idx op.os.decided_idx
      then (f, Message.decide (record { l = op.me; n = n; dec_idx = op.os.decided_idx })) ∷ []
      else []

  unfoldable pub record_promise : OmniPaxos C → PromiseRequest C → OmniPaxos C
  record_promise op req = record op {
    promises =
        insert req.f
          (record {
            f = req.f;
            acc_rnd = req.acc_rnd;
            log_idx = req.log_idx;
            dec_idx = req.dec_idx;
            log = req.sfx;
          })
          op.promises;
  }

module _ {C : Type 0} ⦃codec : Codec C⦄ where
  -- steps P2 to P6, with a majority of promises
  unfoldable pub start_accept : OmniPaxos C → Ballot → Option (Outcome C)
  unfolding sync_all
  start_accept op n =
      let top = max_promise op in
      let log = adopt op top in
      do
        accepted ← store_at op.accepted op.me (length log)
        let op' = record op {
          max_prom = some top;
          os = record op.os { log = log; accepted_rnd = op.current_rnd };
          accepted = accepted;
          state = record { role = leader; phase = Phase.accept };
        }
        some (persist op', sync_all op' n top op.promises)

  -- steps A1 to A3: a promise that comes late
  unfoldable pub late_promise : OmniPaxos C → PromiseRequest C → Option (Outcome C)
  unfolding decide_message
  late_promise op req = do
    top ← op.max_prom
    let sync_idx = if ballot_beq req.acc_rnd top.acc_rnd then top.log_idx else req.dec_idx
    some (
      persist op,
      sync_message op req.n req.f sync_idx ∷ decide_message op req.n req.f req.dec_idx,
    )

  unfoldable pub on_promise : Phase → OmniPaxos C → PromiseRequest C → Option (Outcome C)
  on_promise Phase.prepare op req =
      if ltb (length op.promises) (quorum op.peers) then some (op, []) else start_accept op req.n
  on_promise Phase.accept op req = late_promise op req
  on_promise Phase.recover op req = some (persist op, [])

  unfoldable pub promise_handler : OmniPaxos C → PromiseRequest C → Option (Outcome C)
  promise_handler op req =
      if not (eqb_ℤ (compare req.n op.current_rnd) (pos 0))
      then some (op, [])
      else (let op' = record_promise op req in
          elim op.state.role [
            | leader ↦ on_promise op.state.phase op' req
            | follower ↦ some (op', [])
          ])
