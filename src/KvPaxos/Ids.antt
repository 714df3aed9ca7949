-- ===== src/KvPaxos/Ids.antt =====
-- a3-kvpaxos/client.go and server.go: request ids. Texts are lists of bytes; of strconv and strings
-- the model has what these ids use: decimal numbers and the split at `#`.
use omni_paxos_kv.Prelude.{
  ℕ, zero, suc, ◌+◌, ◌-◌, ◌*◌, ◌/◌, ◌%◌, ◌&&◌, Option, none, some, List, [], ◌∷◌, ◌++◌, ltb, leb,
  eqb, if◌then◌else◌, ◌>>=◌, get_or, get_elem?, ℤ, pos, negsuc, ◌-ℤ◌,
}

abbrev pub Text : Type 0
Text = List ℕ

-- `strconv.Itoa`; the fuel is above the number, so above its count of digits.
unfoldable pub itoa_ℕ : ℕ → ℕ → Text
itoa_ℕ zero n = []
itoa_ℕ (suc fuel) n =
    let high = itoa_ℕ fuel (n / 10) in
    if ltb n 10 then (48 + n) ∷ [] else high ++ (48 + n % 10) ∷ []

unfoldable pub itoa : ℤ → Text
unfolding itoa_ℕ
itoa (pos n) = itoa_ℕ (suc n) n
itoa (negsuc n) = b'-' ∷ itoa_ℕ (suc (suc n)) (suc n)

unfoldable pub digits : ℕ → Text → Option ℕ
digits acc [] = some acc
digits acc (c ∷ cs) =
    let rest = digits (acc * 10 + (c - 48)) cs in if leb 48 c && leb c 57 then rest else none

-- a number needs at least one digit
unsigned : Text → Option ℕ
unsigned [] = none
unsigned (c ∷ cs) = digits 0 (c ∷ cs)

-- `strconv.Atoi` with its error dropped: a text that is no number gives 0.
unfoldable pub atoi : Text → ℤ
unfolding unsigned ◌-ℤ◌
atoi [] = pos 0
atoi (c ∷ cs) =
    if eqb c b'-'
    then pos 0 -ℤ pos (get_or (unsigned cs) 0)
    else if eqb c b'+'
    then pos (get_or (unsigned cs) 0)
    else pos (get_or (unsigned (c ∷ cs)) 0)

abbrev add_head : ℕ → List Text → List Text
add_head c [] = (c ∷ []) ∷ []
add_head c (w ∷ ws) = (c ∷ w) ∷ ws

-- `strings.Split(s, "#")`
unfoldable pub split : Text → List Text
split [] = [] ∷ []
split (c ∷ cs) = if eqb c b'#' then [] ∷ split cs else add_head c (split cs)

-- An id with no `#` has no second part, and indexing it panics.
unfoldable pub parse_id : Text → Option (ℤ × ℤ)
parse_id s = do
  first ← get_elem? (split s) 0
  second ← get_elem? (split s) 1
  some (atoi first, atoi second)

-- The clerk's identity and its count of requests; the servers stand outside the model.
pub record Clerk : Type 0 where
  pub me : ℕ
  pub seq : ℕ

unfoldable pub make_clerk : ℕ → Clerk
make_clerk nrand = record { me = nrand; seq = 0 }

unfoldable pub get_id : Clerk → Clerk × Text
get_id ck =
    let ck' = record ck { seq = ck.seq + 1 } in
    (ck', itoa (pos ck'.me) ++ (b'#' ∷ itoa (pos ck'.seq)))
