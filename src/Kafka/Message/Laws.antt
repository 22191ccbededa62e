-- ===== src/Kafka/Message/Laws.antt =====
-- The attempt that is read from any headers.
use ofm_mail_service.Prelude.{
  ℕ, zero, suc, ◌≤◌, ◌<◌, ◌^◌, ◌≡◌, refl, List, [], ◌∷◌, Option, none, some, arith, ℤ, pos,
}
use ofm_mail_service.Kafka.Message.{
  Header, atoi, retry_attempt, positive, negative, accepted, number,
}

positive-lt : (o : Option ℕ) {n : ℕ} → positive o ≡ some (pos n) → n < 2 ^ 63
unfolding positive
positive-lt none h = ground arith
positive-lt (some k) h = ground arith

negative-lt : (o : Option ℕ) {n : ℕ} → negative o ≡ some (pos n) → n < 2 ^ 63
unfolding negative
negative-lt none h = ground arith
negative-lt (some zero) h = ground arith
negative-lt (some (suc k)) h = ground arith

atoi-lt : (cs : List ℕ) (n : ℕ) → atoi cs ≡ some (pos n) → n < 2 ^ 63
unfolding atoi
atoi-lt [] n h = ground arith
atoi-lt (c ∷ cs) n h =
    ground (arith, positive-lt (number cs), negative-lt (number cs), positive-lt (number (c ∷ cs)))

accepted_bounds :
    (o : Option ℤ) (later : ℕ)
    → ((n : ℕ) → o ≡ some (pos n) → n < 2 ^ 63)
    → 1 ≤ later
    → later < 2 ^ 63
    → (1 ≤ accepted o later) × (accepted o later < 2 ^ 63)
unfolding accepted
accepted_bounds (some (pos (suc n))) later f lo hi = (omega arith, f (suc n) refl)
accepted_bounds _ later f lo hi = (lo, hi)

-- Whatever the headers hold, the attempt is a positive int.
pub retry_attempt_bounds : (hs : List Header) → (1 ≤ retry_attempt hs) × (retry_attempt hs < 2 ^ 63)
unfolding retry_attempt
retry_attempt_bounds [] = (omega arith, omega arith)
retry_attempt_bounds (h ∷ hs) =
    let (lo, hi) = retry_attempt_bounds hs in
    ground (arith, accepted_bounds (atoi h.value) (retry_attempt hs) (atoi-lt h.value))
