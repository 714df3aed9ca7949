-- ===== src/Examples/Store.antt =====
-- The key/value server, at concrete commands.
use omni_paxos_kv.Prelude.{
  list_eq, ℤ, if◌then◌else◌, nat_eq, int_eq, ℕ, ◌≡◌, refl, Option, some, none, List, [], ◌∷◌, pos,
}
use omni_paxos_kv.KvPaxos.Ids.{Text, get_id, parse_id, atoi, split, digits}
use omni_paxos_kv.KvPaxos.Server.{
  is_new, append, GetArgs, PutAppendArgs, gets, writes, KvCommand, Response, KvServer, init,
  read_apply, read_apply_all,
}
use omni_paxos_kv.KvPaxos.Decimal.{parse_id-get_id}
use omni_paxos_kv.KvPaxos.Replies.{id_of, value_of, effect, applied_exactly_once}
use omni_paxos_kv.KvPaxos.Refinement.{Stands, decided_after, server_refines_service}

parse_id-get_id_example :
    (parse_id (get_id (record { me = 305; seq = 9 })).1 ≡ some (pos 305, pos 10))
    × ((get_id (record { me = 305; seq = 9 })).0 ≡ record { me = 305; seq = 10 })
parse_id-get_id_example = parse_id-get_id (record { me = 305; seq = 9 })

-- `3#1` appends `xy` to the key `k`, `3#2` reads it.
abbrev pub add : PutAppendArgs
add = record {
  key = b'k' ∷ [];
  value = b'x' ∷ b'y' ∷ [];
  op = append;
  id = b'3' ∷ b'#' ∷ b'1' ∷ [];
}

abbrev pub ask : GetArgs
ask = record { key = b'k' ∷ []; id = b'3' ∷ b'#' ∷ b'2' ∷ [] }

abbrev pub add_command : KvCommand
add_command = record { id = 0; command = writes add }

abbrev pub ask_command : KvCommand
ask_command = record { id = 1; command = gets ask }

abbrev pub after : Option KvServer → KvServer
after none = init 0
after (some kv) = kv

unfoldable once : KvServer
once = after (read_apply (init 0) add_command)

unfoldable asked : KvServer
asked = after (read_apply_all once (ask_command ∷ []))

unfoldable twice : KvServer
twice = after (read_apply asked add_command)

applied_exactly_once_example :
    (cid : ℤ) × (seq_no : ℤ) × (parse_id (id_of add_command.command) ≡ some (cid, seq_no))
    × ((key : Text)
        → value_of once key ≡ (
            if is_new (init 0) cid seq_no
            then effect add_command.command (init 0) key
            else value_of (init 0) key))
    × (twice.m ≡ asked.m)
    × (twice.seq ≡ asked.seq)
unfolding twice asked once read_apply read_apply_all parse_id split
applied_exactly_once_example =
    applied_exactly_once (init 0) once asked twice add_command (ask_command ∷ []) refl refl refl

abbrev looks : ℕ → List Response
looks i = asked.response

server_refines_service_example :
    (kv : KvServer) × (read_apply_all (init 2) (add_command ∷ ask_command ∷ []) ≡ some kv)
    × Stands (decided_after (add_command ∷ ask_command ∷ []) []) kv
unfolding parse_id split atoi digits
server_refines_service_example =
    server_refines_service 2 (add_command ∷ ask_command ∷ [])
      (((pos 3, pos 1), refl), (((pos 3, pos 2), refl), tt))
