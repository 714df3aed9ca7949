-- ===== src/KvPaxos/Client.antt =====
-- a3-kvpaxos/client.go: the clerk's loops over the servers. A request keeps its id and is sent until
-- a server answers without an error; what each call brings is an argument.
use omni_paxos_kv.Prelude.{Option, none, some, List, [], ◌∷◌, if◌then◌else◌, Bool, true, false}
use omni_paxos_kv.KvPaxos.Ids.{Text, Clerk, get_id}
use omni_paxos_kv.KvPaxos.Server.{OpKind, put, append, GetArgs, PutAppendArgs}
use omni_paxos_kv.KvPaxos.Handlers.{
  Err, no_error, not_leader, try_again, timeout, GetReply, PutAppendReply,
}

abbrev pub is_ok : Err → Bool
is_ok no_error = true
is_ok not_leader = false
is_ok try_again = false
is_ok timeout = false

-- The calls in their order, over all rounds through the servers; `none` is a call that failed. The
-- result is `none` while the loop has not ended.
unfoldable pub get_loop : List (Option GetReply) → Option Text
get_loop [] = none
get_loop (none ∷ calls) = get_loop calls
get_loop (some reply ∷ calls) =
    let rest = get_loop calls in if is_ok reply.err then some reply.value else rest

unfoldable pub clerk_get : Text → (GetArgs → List (Option GetReply)) → Clerk → Clerk × Option Text
clerk_get key calls ck =
    let (ck', id) = get_id ck in (ck', get_loop (calls (record { key = key; id = id })))

unfoldable pub put_append_loop : List (Option PutAppendReply) → Bool
put_append_loop [] = false
put_append_loop (none ∷ calls) = put_append_loop calls
put_append_loop (some reply ∷ calls) =
    let rest = put_append_loop calls in if is_ok reply.err then true else rest

-- Whether the call has come back.
unfoldable pub clerk_put_append :
    Text → Text → OpKind → (PutAppendArgs → List (Option PutAppendReply)) → Clerk → Clerk × Bool
clerk_put_append key value op calls ck =
    let (ck', id) = get_id ck in
    (ck', put_append_loop (calls (record { key = key; value = value; op = op; id = id })))

unfoldable pub clerk_put :
    Text → Text → (PutAppendArgs → List (Option PutAppendReply)) → Clerk → Clerk × Bool
clerk_put key value = clerk_put_append key value put

unfoldable pub clerk_append :
    Text → Text → (PutAppendArgs → List (Option PutAppendReply)) → Clerk → Clerk × Bool
clerk_append key value = clerk_put_append key value append
