-- ===== src/Kafka/Message.antt =====
-- A Kafka message, and kafka/broker.go `retryAttempt`, which reads the attempt from its headers.
-- Header values are bytes.
pub mod Laws
pub mod Roundtrip
mod Tests
use ofm_mail_service.Prelude.{
  ℕ, zero, suc, ◌+◌, ◌-◌, ◌*◌, ◌^◌, String, List, [], ◌∷◌, Option, none, some, ◌==◌, ◌&&◌, leb, eqb,
  if◌then◌else◌, ℤ, pos, negsuc,
}

pub record Header : Type 0 where
  pub key : String
  pub value : List ℕ

pub record Message (Bytes : Type 0) : Type 0 where
  pub key : Bytes
  pub value : Bytes
  pub headers : List Header
  pub partition : ℤ
  pub offset : ℤ

-- The value of decimal digits behind those that have the value `n`.
digits : ℕ → List ℕ → Option ℕ
digits n [] = some n
digits n (c ∷ cs) =
    let rest = digits (n * 10 + (c - 48)) cs in if leb 48 c && leb c 57 then rest else none

-- At least one digit.
number : List ℕ → Option ℕ
unfolding digits
number [] = none
number (c ∷ cs) = digits 0 (c ∷ cs)

-- The range of int64.
positive : Option ℕ → Option ℤ
positive none = none
positive (some n) = if leb (2 ^ 63) n then none else some (pos n)

negative : Option ℕ → Option ℤ
negative none = none
negative (some zero) = some (pos 0)
negative (some (suc n)) = if leb (2 ^ 63) n then none else some (negsuc n)

-- strconv.Atoi
unfoldable pub atoi : List ℕ → Option ℤ
unfolding number positive negative
atoi [] = none
atoi (c ∷ cs) =
    if eqb c b'-'
    then negative (number cs)
    else if eqb c b'+'
    then positive (number cs)
    else positive (number (c ∷ cs))

-- `err == nil && n > 0`
accepted : Option ℤ → ℕ → ℕ
accepted (some (pos (suc n))) later = suc n
accepted _ later = later

unfoldable pub retry_attempt : List Header → ℕ
unfolding accepted
retry_attempt [] = 1
retry_attempt (h ∷ hs) =
    let later = retry_attempt hs in
    if h.key == "x-ofm-retry-attempt" then accepted (atoi h.value) later else later
