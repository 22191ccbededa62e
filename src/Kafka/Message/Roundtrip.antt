-- ===== src/Kafka/Message/Roundtrip.antt =====
-- The header of an attempt, written as a decimal numeral and read.
use ofm_mail_service.Prelude.{
  ℕ, zero, suc, ◌+◌, ◌/◌, ◌%◌, ◌^◌, ◌≤◌, ◌<◌, ◌≡◌, ◌∙◌, refl, sym, ap, inl, inr, Bool-cases, List,
  [], ◌∷◌, some, arith, ltb, if◌then◌else◌, pos,
}
use ofm_mail_service.Kafka.Message.{Header, digits, number, positive, atoi, accepted, retry_attempt}

-- The decimal numeral of `n`, as strconv.Itoa writes it: the last digit first, onto `rest`.
abbrev numeral_from : ℕ → ℕ → List ℕ → List ℕ
numeral_from zero n rest = (48 + n) ∷ rest
numeral_from (suc fuel) n rest =
    let more = numeral_from fuel (n / 10) ((48 + n % 10) ∷ rest) in
    if ltb n 10 then (48 + n) ∷ rest else more

-- The fuel, the number itself, is more than its digits.
abbrev pub numeral : ℕ → List ℕ
numeral n = numeral_from n n []

digits-numeral_from :
    (fuel n : ℕ) (rest : List ℕ) → n ≤ fuel → digits 0 (numeral_from fuel n rest) ≡ digits n rest
unfolding digits
digits-numeral_from zero n rest h = ground arith
digits-numeral_from (suc fuel) n rest h =
    let ih = digits-numeral_from fuel (n / 10) ((48 + n % 10) ∷ rest) (omega arith) in ground arith

-- the first sign of a numeral is a digit
numeral_from_head :
    (fuel n : ℕ) (rest : List ℕ)
    → n ≤ fuel
    → (c : ℕ) × (cs : List ℕ) × (numeral_from fuel n rest ≡ c ∷ cs) × (48 ≤ c)
numeral_from_head zero n rest h = (48 + n, rest, refl, omega arith)
numeral_from_head (suc fuel) n rest h = elim (Bool-cases (ltb n 10)) [
  | inl one ↦ rw one (48 + n, rest, refl, omega arith)
  | inr more ↦ rw more (numeral_from_head fuel (n / 10) ((48 + n % 10) ∷ rest) (omega arith))
]

-- a text that starts with a digit is read without a sign
atoi_unsigned : (c : ℕ) (cs : List ℕ) → 48 ≤ c → atoi (c ∷ cs) ≡ positive (digits 0 (c ∷ cs))
unfolding atoi number
atoi_unsigned c cs h = ground arith

value-numeral : (n : ℕ) → n < 2 ^ 63 → positive (digits 0 (numeral n)) ≡ some (pos n)
unfolding digits positive
value-numeral n h = rw (digits-numeral_from n n [] (omega arith)) (ground arith)

atoi-numeral : (n : ℕ) → n < 2 ^ 63 → atoi (numeral n) ≡ some (pos n)
atoi-numeral n h =
    let (c, cs, shape, digit) = numeral_from_head n n [] (omega arith) in
    ap atoi shape
    ∙ atoi_unsigned c cs digit
    ∙ ap (λ signs. positive (digits 0 signs)) (sym shape)
    ∙ value-numeral n h

-- Reading the header that carries an attempt as a decimal numeral gives the attempt back, for every
-- positive int, whatever headers follow.
pub retry_attempt-numeral :
    (n : ℕ) (hs : List Header)
    → 1 ≤ n
    → n < 2 ^ 63
    → retry_attempt (record { key = "x-ofm-retry-attempt"; value = numeral n } ∷ hs) ≡ n
unfolding retry_attempt accepted
retry_attempt-numeral n hs lo hi = rw (atoi-numeral n hi) (ground arith)
