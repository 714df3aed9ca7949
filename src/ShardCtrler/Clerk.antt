-- ===== src/ShardCtrler/Clerk.antt =====
-- a3b-sharding/shardctrler/client.go: the clerk's loops over the servers. A request is sent until a
-- server answers without an error; what each call brings is an argument.
use omni_paxos_kv.Prelude.{
  Bool, true, false, Option, none, some, List, [], ◌∷◌, if◌then◌else◌, ℤ, pos, ◌+ℤ◌,
}
use omni_paxos_kv.ShardCtrler.Types.{Config, Result, no_error, not_leader, time_out}

pub record Clerk : Type 0 where
  pub client_id : ℤ
  pub request_id : ℤ

unfoldable pub make_clerk : ℤ → Clerk
make_clerk random = record { client_id = random; request_id = pos 1 }

-- `none` is a call that failed.
abbrev pub succeeds : Option Result → Bool
succeeds none = false
succeeds (some r) = elim r.err [ no_error ↦ true | not_leader ↦ false | time_out ↦ false ]

-- The answers to the calls in their order, over all rounds through the servers. The first answer
-- without an error ends the loop; `none` is a loop that has not ended yet.
unfoldable pub ask : Clerk → List (Option Result) → Option (Clerk × Config)
unfolding ◌+ℤ◌
ask ck [] = none
ask ck (none ∷ answers) = ask ck answers
ask ck (some r ∷ answers) =
    let rest = ask ck answers in
    if succeeds (some r)
    then some (record ck { request_id = ck.request_id +ℤ pos 1 }, r.config)
    else rest
