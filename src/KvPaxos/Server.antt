-- ===== src/KvPaxos/Server.antt =====
-- a3-kvpaxos/server.go: the server's state and `readApply`, which applies what was decided.
use omni_paxos_kv.Prelude.{
  nat_eq, list_eq, int_eq, ℕ, Bool, Option, some, List, [], ◌∷◌, ◌++◌, if◌then◌else◌, ◌>>=◌, ℤ, pos,
  ltb_ℤ, Assoc, insert, lookup_or,
}
use omni_paxos_kv.KvPaxos.Ids.{Text, parse_id}

-- `Op` is "Put", or any other text, which the server takes for an append.
pub data OpKind : Type 0 where
  put append : OpKind

pub record GetArgs : Type 0 where
  pub key : Text
  pub id : Text

pub record PutAppendArgs : Type 0 where
  pub key : Text
  pub value : Text
  pub op : OpKind
  pub id : Text

-- What `KVCommand.Command` may hold.
pub data Request : Type 0 where
  gets : GetArgs → Request
  writes : PutAppendArgs → Request

pub record KvCommand : Type 0 where
  pub id : ℕ
  pub command : Request

pub record Response : Type 0 where
  pub command : KvCommand
  pub value : Text

pub record KvServer : Type 0 where
  pub me : ℕ
  pub response : List Response
  pub seq : Assoc ℤ ℤ
  pub m : Assoc Text Text

abbrev pub init : ℕ → KvServer
init me = record { me = me; response = []; seq = []; m = [] }

-- Whether a request number is above the last one of its client.
abbrev pub is_new : KvServer → ℤ → ℤ → Bool
is_new kv cid seq_no = ltb_ℤ (lookup_or (pos 0) cid kv.seq) seq_no

unfoldable pub write : OpKind → Text → Text → Assoc Text Text → Assoc Text Text
write put key value m = insert key value m
write append key value m = insert key (lookup_or [] key m ++ value) m

unfoldable pub apply_get : KvServer → KvCommand → GetArgs → ℤ → ℤ → KvServer
apply_get kv msg arg cid seq_no = record kv {
  seq = if is_new kv cid seq_no then insert cid seq_no kv.seq else kv.seq;
  response = kv.response ++ record { command = msg; value = lookup_or [] arg.key kv.m } ∷ [];
}

unfoldable pub apply_put_append : KvServer → KvCommand → PutAppendArgs → ℤ → ℤ → KvServer
apply_put_append kv msg arg cid seq_no =
    let kv' =
      if is_new kv cid seq_no
      then record kv { m = write arg.op arg.key arg.value kv.m; seq = insert cid seq_no kv.seq }
      else kv in
    record kv' { response = kv'.response ++ record { command = msg; value = [] } ∷ [] }

-- One turn of the loop of `readApply`; `none` is the panic of an id with no `#`.
unfoldable pub read_apply : KvServer → KvCommand → Option KvServer
read_apply kv msg = elim msg.command [
  | gets arg ↦ (do (cid, seq_no) ← parse_id arg.id; some (apply_get kv msg arg cid seq_no))
  | writes arg ↦ (do (cid, seq_no) ← parse_id arg.id; some (apply_put_append kv msg arg cid seq_no))
]

unfoldable pub read_apply_all : KvServer → List KvCommand → Option KvServer
read_apply_all kv [] = some kv
read_apply_all kv (msg ∷ msgs) = do kv' ← read_apply kv msg; read_apply_all kv' msgs
