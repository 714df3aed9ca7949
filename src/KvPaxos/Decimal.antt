-- ===== src/KvPaxos/Decimal.antt =====
-- An id that a clerk prints is read back by the server.
use omni_paxos_kv.Prelude.{
  ℕ, zero, suc, ◌+◌, ◌-◌, ◌*◌, ◌/◌, ◌%◌, ◌≤◌, ◌<◌, ◌≡◌, refl, inl, inr, some, [], ◌∷◌, ◌++◌, arith,
  ltb, ◌>>=◌, Bool-cases, pos,
}
use omni_paxos_kv.KvPaxos.Ids.{Text, itoa_ℕ, itoa, digits, atoi, split, parse_id, Clerk, get_id}

-- Every byte is a digit.
abbrev AllDigits : Text → Type 0
AllDigits [] = Unit
AllDigits (c ∷ cs) = (48 ≤ c) × (c ≤ 57) × AllDigits cs

AllDigits-append : (xs ys : Text) → AllDigits xs → AllDigits ys → AllDigits (xs ++ ys)
AllDigits-append [] ys h k = k
AllDigits-append (x ∷ xs) ys (a, b, h) k = (a, b, AllDigits-append xs ys h k)

itoa_ℕ-AllDigits : (fuel n : ℕ) → AllDigits (itoa_ℕ fuel n)
unfolding itoa_ℕ
itoa_ℕ-AllDigits zero n = tt
itoa_ℕ-AllDigits (suc fuel) n = elim (Bool-cases (ltb n 10)) [
  | inl e ↦ rw e (omega arith, ground arith, tt)
  | inr e ↦ rw e (
      AllDigits-append (itoa_ℕ fuel (n / 10)) _ (itoa_ℕ-AllDigits fuel (n / 10))
        (omega arith, omega arith, tt))
]

itoa-AllDigits : (n : ℕ) → AllDigits (itoa (pos n))
unfolding itoa
itoa-AllDigits n = itoa_ℕ-AllDigits (suc n) n

digits-append :
    (acc : ℕ) (xs ys : Text) → digits acc (xs ++ ys) ≡ (digits acc xs >>= λ a. digits a ys)
unfolding digits
digits-append acc [] ys = refl
digits-append acc (x ∷ xs) ys = ground (arith, digits-append (acc * 10 + (x - 48)) xs ys)

-- Enough fuel prints a number that is read back.
digits-itoa_ℕ : (fuel n : ℕ) → n < fuel → digits 0 (itoa_ℕ fuel n) ≡ some n
unfolding itoa_ℕ
digits-itoa_ℕ zero n h = absurd (omega arith)
digits-itoa_ℕ (suc fuel) n h = elim (Bool-cases (ltb n 10)) [
  | inl e ↦ rw e (unfold digits in ground arith)
  | inr e ↦
      rw (e, digits-append 0 (itoa_ℕ fuel (n / 10)), digits-itoa_ℕ fuel (n / 10) (ground arith))
        (unfold digits in ground arith)
]

itoa_ℕ-cons : (fuel n : ℕ) → n < fuel → (c : ℕ) × (cs : Text) × (itoa_ℕ fuel n ≡ c ∷ cs) × (48 ≤ c)
unfolding itoa_ℕ
itoa_ℕ-cons zero n h = absurd (omega arith)
itoa_ℕ-cons (suc fuel) n h = elim (Bool-cases (ltb n 10)) [
  | inl e ↦ (48 + n, [], rw e refl, omega arith)
  | inr e ↦
      let (c, cs, p, low) = itoa_ℕ-cons fuel (n / 10) (ground arith) in
      (c, cs ++ (48 + n % 10) ∷ [], rw (e, p) refl, low)
]

atoi-digits : (c n : ℕ) (cs : Text) → 48 ≤ c → digits 0 (c ∷ cs) ≡ some n → atoi (c ∷ cs) ≡ pos n
unfolding atoi
atoi-digits c n cs low h = ground arith

atoi-itoa : (n : ℕ) → atoi (itoa (pos n)) ≡ pos n
unfolding itoa
atoi-itoa n =
    let (c, cs, e, low) = itoa_ℕ-cons (suc n) n (omega arith) in
    let d = digits-itoa_ℕ (suc n) n (omega arith) in rw e (atoi-digits c n cs low (rw e at d))

split-digits : (xs rest : Text) → AllDigits xs → split (xs ++ (b'#' ∷ rest)) ≡ xs ∷ split rest
unfolding split
split-digits [] rest h = refl
split-digits (x ∷ xs) rest (a, b, h) = ground (arith, split-digits xs rest h)

split-digits_end : (xs : Text) → AllDigits xs → split xs ≡ xs ∷ []
unfolding split
split-digits_end [] h = refl
split-digits_end (x ∷ xs) (a, b, h) = ground (arith, split-digits_end xs h)

-- Whatever clerk prints an id, the server reads the clerk's identity and its new count from it, and
-- the clerk keeps its identity and counts one request more.
pub parse_id-get_id :
    (ck : Clerk)
    → (parse_id (get_id ck).1 ≡ some (pos ck.me, pos (ck.seq + 1)))
      × ((get_id ck).0 ≡ record { me = ck.me; seq = ck.seq + 1 })
unfolding parse_id get_id
parse_id-get_id ck =
    let first = itoa (pos ck.me) in
    let second = itoa (pos (ck.seq + 1)) in
    (
      rw (
        split-digits first second (itoa-AllDigits ck.me),
        split-digits_end second (itoa-AllDigits (ck.seq + 1)),
        atoi-itoa ck.me,
        atoi-itoa (ck.seq + 1),
      ),
      refl,
    )
