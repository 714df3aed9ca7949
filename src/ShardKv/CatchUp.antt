-- ===== src/ShardKv/CatchUp.antt =====
-- a3b-sharding/shardkv/reconf.go: `catchUp`, the rounds in which a leader follows the configurations.
use omni_paxos_kv.Prelude.{
  subst, ◌-◌, ℕ, zero, suc, ◌+◌, ◌≤◌, ◌<◌, ◌≡◌, ◌≢◌, refl, sym, ap, ◌∙◌, Bool, true, false, Option,
  none, some, List, [], ◌∷◌, Assoc, leb, arith, if◌then◌else◌, Bool-cases, Option-cases, inl, inr,
}
use omni_paxos_kv.ShardCtrler.Types.{Config}
use omni_paxos_kv.ShardKv.Types.{
  Kind, Op, Result, ShardKv, Store, PrevReq, TransferReply, empty_store,
}
use omni_paxos_kv.ShardKv.Maps.{merge_prev}
use omni_paxos_kv.ShardKv.Apply.{apply, apply_change}
use omni_paxos_kv.ShardKv.Reconf.{
  is_ok, first_ok, take_shards, fetch_all, shards_to_transfer, get_change_op,
}
use omni_paxos_kv.ShardKv.Server.{expected, propose}
use omni_paxos_kv.ShardKv.Fetch.{change_op-fields}

-- What stands outside: the controller's configurations, the answers of the groups in a round of the
-- inner loop, and for a proposal whether this server leads, what comes on the channel before the
-- timeout, and the state that the applied operations have left by then.
pub record Outside : Type 0 where
  pub query : ℕ → Config
  pub answers : ℕ → ℕ → List (Option TransferReply)
  pub decided : ℕ → ShardKv → Op → Bool × Option Result × ShardKv

-- One turn of the inner loop: whether it goes on, and the state after it.
unfoldable pub catch_up_turn : Outside → ℕ → ℕ → ShardKv → Bool × ShardKv
catch_up_turn out latest i kv =
    if leb (i + kv.config.num) latest
    then elim (get_change_op kv (out.query (i + kv.config.num)) (out.answers i)) [
      | none ↦ (false, kv)
      | some op ↦
          let (leads, received, kv') = out.decided i kv op in
          (is_ok (propose op leads received).err, kv')
    ]
    else (false, kv)

-- The inner loop; `i` grows in each turn, so `latest` turns are enough.
unfoldable pub catch_up_loop : Outside → ℕ → ℕ → ℕ → ShardKv → ShardKv
catch_up_loop out latest zero i kv = kv
catch_up_loop out latest (suc fuel) i kv =
    let t = catch_up_turn out latest i kv in
    elim t.0 [ true ↦ catch_up_loop out latest fuel (i + 1) t.1 | false ↦ t.1 ]

-- One round; `latest` is the number of the configuration that `Query(-1)` brings.
unfoldable pub catch_up : Outside → ℕ → Bool → ShardKv → ShardKv
catch_up out latest is_leader kv = if is_leader then catch_up_loop out latest latest 1 kv else kv

-- Several rounds of a leader.
unfoldable pub catch_up_rounds : Outside → ℕ → ℕ → ShardKv → ShardKv
catch_up_rounds out latest zero kv = kv
catch_up_rounds out latest (suc rounds) kv =
    catch_up_rounds out latest rounds (catch_up out latest true kv)

-- The controller numbers its configurations up to the latest one, all groups answer, and this
-- server's proposals are decided and applied at once, with nothing between.
pub record Undisturbed (out : Outside) (latest : ℕ) : Type 0 where
  pub numbered : (n : ℕ) → n ≤ latest → (out.query n).num ≡ n
  pub answered : (i gid : ℕ) → first_ok (out.answers i gid) ≢ none
  pub applied :
      (i : ℕ) (kv : ShardKv) (op : Op)
      → out.decided i kv op ≡ (true, some (apply kv op).1, (apply kv op).0)

fetch_all-answered :
    (answers : ℕ → List (Option TransferReply)) (all : Assoc ℕ (List ℕ)) (acc : Store × PrevReq)
    → ((gid : ℕ) → first_ok (answers gid) ≢ none)
    → fetch_all answers all acc ≢ none
unfolding fetch_all
fetch_all-answered answers [] acc h e = ground arith
fetch_all-answered answers ((gid, sids) ∷ all) (store, prev) h e =
    elim (Option-cases (first_ok (answers gid))) [
      | inl q ↦ h gid q
      | inr (reply, q) ↦
          fetch_all-answered answers all (take_shards sids reply store, merge_prev reply.prev prev)
            h (rw q at e)
    ]

get_change_op-answered :
    (kv : ShardKv) (c : Config) (answers : ℕ → List (Option TransferReply))
    → ((gid : ℕ) → first_ok (answers gid) ≢ none)
    → get_change_op kv c answers ≢ none
unfolding get_change_op
get_change_op-answered kv c answers h e =
    elim (Option-cases (fetch_all answers (shards_to_transfer kv c) (empty_store, []))) [
      | inl q ↦ fetch_all-answered answers (shards_to_transfer kv c) (empty_store, []) h q
      | inr (acc, q) ↦ ground arith
    ]

-- A change is recognized by its own result, whether it was applied or ignored.
change_succeeds :
    (kv : ShardKv) (op : Op)
    → op.command ≡ Kind.change
    → is_ok (propose op true (some (apply kv op).1)).err ≡ true
unfolding propose expected apply apply_change
change_succeeds kv op c = ground arith

change_ignored :
    (kv : ShardKv) (op : Op)
    → op.command ≡ Kind.change
    → op.config.num ≢ kv.config.num + 1
    → (apply kv op).0 ≡ kv
unfolding apply apply_change
change_ignored kv op c h = ground arith

change_applied :
    (kv : ShardKv) (op : Op)
    → op.command ≡ Kind.change
    → op.config.num ≡ kv.config.num + 1
    → (apply kv op).0.config ≡ op.config
unfolding apply apply_change
change_applied kv op c h = ground arith

module _ (out : Outside) (latest : ℕ) (v : Undisturbed out latest) where
  turn_goes_on :
      (i : ℕ) (kv : ShardKv)
      → i + kv.config.num ≤ latest
      → (op : Op) × (op.command ≡ Kind.change)
        × (op.config ≡ out.query (i + kv.config.num))
        × (catch_up_turn out latest i kv ≡ (true, (apply kv op).0))
  unfolding catch_up_turn
  turn_goes_on i kv h =
      let c = out.query (i + kv.config.num) in
      elim (Option-cases (get_change_op kv c (out.answers i))) [
        | inl e ↦ absurd (get_change_op-answered kv c (out.answers i) (v.answered i) e)
        | inr (op, e) ↦
            let (command, config, _) = change_op-fields kv c (out.answers i) op e in
            let fits : leb (i + kv.config.num) latest ≡ true = ground arith in
            (
              op,
              command,
              config,
              rw (fits, e, v.applied i kv op, change_succeeds kv op command) refl,
            )
      ]

  turn_stops :
      (i : ℕ) (kv : ShardKv)
      → latest < i + kv.config.num
      → catch_up_turn out latest i kv ≡ (false, kv)
  unfolding catch_up_turn
  turn_stops i kv h = ground arith

  loop_goes :
      (fuel i : ℕ) (kv kv' : ShardKv)
      → catch_up_turn out latest i kv ≡ (true, kv')
      → catch_up_loop out latest (suc fuel) i kv ≡ catch_up_loop out latest fuel (i + 1) kv'
  unfolding catch_up_loop
  loop_goes fuel i kv kv' h =
      ground
        (arith, ap (catch_up_loop out latest fuel (i + 1)) (ap (λ (t : Bool × ShardKv). t.1) h))

  loop_stops :
      (fuel i : ℕ) (kv kv' : ShardKv)
      → catch_up_turn out latest i kv ≡ (false, kv')
      → catch_up_loop out latest (suc fuel) i kv ≡ kv'
  unfolding catch_up_loop
  loop_stops fuel i kv kv' h = ground arith

  -- From the second turn on the loop asks for a configuration that it cannot apply yet.
  later_turns : (fuel i : ℕ) (kv : ShardKv) → 2 ≤ i → catch_up_loop out latest fuel i kv ≡ kv
  unfolding catch_up_loop
  later_turns zero i kv h = refl
  later_turns (suc fuel) i kv h = elim (Bool-cases (leb (i + kv.config.num) latest)) [
    | inl e ↦
        let (op, command, config, t) = turn_goes_on i kv (ground arith) in
        let num : op.config.num ≡ i + kv.config.num =
          ap (λ (c : Config). c.num) config ∙ v.numbered (i + kv.config.num) (ground arith) in
        let same : (apply kv op).0 ≡ kv =
          change_ignored kv op command (λ p. omega (arith, p, num)) in
        loop_goes fuel i kv (apply kv op).0 t
        ∙ ap (catch_up_loop out latest fuel (i + 1)) same
        ∙ later_turns fuel (i + 1) kv (omega arith)
    | inr e ↦ loop_stops fuel i kv kv (turn_stops i kv (ground arith))
  ]

  first_turn :
      (fuel : ℕ) (kv : ShardKv)
      → kv.config.num < latest
      → (catch_up_loop out latest (suc fuel) 1 kv).config ≡ out.query (kv.config.num + 1)
  unfolding catch_up_loop
  first_turn fuel kv h =
      let (op, command, config, t) = turn_goes_on 1 kv (omega arith) in
      let n : 1 + kv.config.num ≡ kv.config.num + 1 = omega arith in
      let config' : op.config ≡ out.query (kv.config.num + 1) = config ∙ ap out.query n in
      let num : op.config.num ≡ kv.config.num + 1 =
        ap (λ (c : Config). c.num) config' ∙ v.numbered (kv.config.num + 1) (omega arith) in
      let two : catch_up_loop out latest (suc fuel) 1 kv ≡ (apply kv op).0 =
        loop_goes fuel 1 kv (apply kv op).0 t
        ∙ later_turns fuel (1 + 1) (apply kv op).0 (omega arith) in
      ap (λ (s : ShardKv). s.config) two ∙ change_applied kv op command num ∙ config'

  round_advances :
      (kv : ShardKv)
      → kv.config.num < latest
      → (catch_up out latest true kv).config ≡ out.query (kv.config.num + 1)
  unfolding catch_up
  round_advances kv h =
      let e : latest ≡ suc (latest - 1) = omega arith in
      subst (λ (f : ℕ). (catch_up_loop out latest f 1 kv).config ≡ out.query (kv.config.num + 1))
        (sym e) (first_turn (latest - 1) kv h)

  rounds_advance :
      (rounds : ℕ) (kv : ShardKv)
      → kv.config.num + suc rounds ≤ latest
      → (catch_up_rounds out latest (suc rounds) kv).config ≡ out.query (kv.config.num + suc rounds)
  unfolding catch_up_rounds
  rounds_advance zero kv h = round_advances kv (omega arith)
  rounds_advance (suc rounds) kv h =
      let next = catch_up out latest true kv in
      let num : next.config.num ≡ kv.config.num + 1 =
        ap (λ (c : Config). c.num) (round_advances kv (omega arith))
        ∙ v.numbered (kv.config.num + 1) (omega arith) in
      let same : next.config.num + suc rounds ≡ kv.config.num + suc (suc rounds) =
        omega (arith, num) in
      rounds_advance rounds next (omega (arith, same)) ∙ ap out.query same

-- A leader catches up by one configuration in each round of `catchUp`, neither more nor less: when
-- the controller numbers its configurations up to the latest one, all groups answer, and the
-- proposals are decided and applied at once, then after `rounds` rounds, at least one, a group that
-- is at least so far behind the latest configuration has the one that is `rounds` further.
pub catches_up :
    (out : Outside) (latest rounds : ℕ) (kv : ShardKv)
    → Undisturbed out latest
    → 0 < rounds
    → kv.config.num + rounds ≤ latest
    → ((catch_up_rounds out latest rounds kv).config ≡ out.query (kv.config.num + rounds))
      × ((catch_up_rounds out latest rounds kv).config.num ≡ kv.config.num + rounds)
catches_up out latest zero kv v p h = absurd (omega (arith, p))
catches_up out latest (suc rounds) kv v p h =
    let e = rounds_advance out latest v rounds kv h in
    (e, ap (λ (c : Config). c.num) e ∙ v.numbered (kv.config.num + suc rounds) h)
