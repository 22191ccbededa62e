-- ===== src/Fx/Reconnect/Laws.antt =====
-- The delays of the reconnecting loop.
use ofm_mail_service.Prelude.{ℕ, zero, suc, ◌*◌, ◌^◌, ◌≤◌, ◌≡◌, ◌∙◌, arith, inl, inr, ◌⊎◌}
use Prim.Native.Nat.{min}
use mathlib.Core.Path.{subst}
use native.Mathlib.Nat.{pow-suc, mul-le-mul_left, mul-le-mul_right}
use ofm_mail_service.Fx.Reconnect.{
  max_backoff, next_backoff, Runner, Progress, waiting, returned, run, round, after_subscribe,
  after_wait, resume,
}

next_backoff-min : (b : ℕ) → b ≤ max_backoff → next_backoff b ≡ min (b * 2) max_backoff
unfolding next_backoff
next_backoff-min b h = ground arith

-- the delay after `k` failed rounds
abbrev pub delay : ℕ → ℕ → ℕ
delay b k = min (b * 2 ^ k) max_backoff

two_pow_pos : (k : ℕ) → 1 ≤ 2 ^ k
two_pow_pos zero = omega arith
two_pow_pos (suc k) = omega (arith, two_pow_pos k, pow-suc 2 k)

-- A cap before a multiplication does not matter to a cap behind it.
cap_twice :
    (b p cap : ℕ)
    → 1 ≤ p
    → (b * 2 ≤ cap) ⊎ (cap ≤ b * 2)
    → min (min (b * 2) cap * p) cap ≡ min (b * (p * 2)) cap
cap_twice b p cap one (inl below) =
    let e : min (b * 2) cap ≡ b * 2 = omega arith in rw e (omega arith)
cap_twice b p cap one (inr above) =
    let e : min (b * 2) cap ≡ cap = omega arith in
    rw e (omega (arith, mul-le-mul_left cap one, mul-le-mul_right p above))

delay-suc : (b k : ℕ) → b ≤ max_backoff → delay (next_backoff b) k ≡ delay b (suc k)
delay-suc b k h =
    rw (next_backoff-min b h, pow-suc 2 k)
      (cap_twice b (2 ^ k) max_backoff (two_pow_pos k) (omega arith))

next_backoff-le : (b : ℕ) → b ≤ max_backoff → next_backoff b ≤ max_backoff
unfolding next_backoff
next_backoff-le b h = ground arith

module _ {W : Type 0} (r : Runner W) where
  -- a round ends the loop, or doubles the delay
  round_next :
      (b : ℕ) (w : W) → ((round r b w).0 ≡ returned) ⊎ ((round r b w).0 ≡ waiting (next_backoff b))
  unfolding round after_subscribe after_wait
  round_next b w = ground arith

  resume-delay :
      (n b d : ℕ) (p : Progress × W)
      → b ≤ max_backoff
      → (p.0 ≡ returned) ⊎ (p.0 ≡ waiting (next_backoff b))
      → ((w : W) → (run r n (next_backoff b) w).0 ≡ waiting d → d ≡ delay (next_backoff b) n)
      → (resume r (run r n) p).0 ≡ waiting d
      → d ≡ delay b (suc n)
  resume-delay n b d (returned, w) le c ih h = cc
  resume-delay n b d (waiting x, w) le (inl c) ih h = cc
  resume-delay n b d (waiting x, w) le (inr c) ih h =
      let e : x ≡ next_backoff b = cc in
      ih w (subst (λ y. (run r n y w).0 ≡ waiting d) e h) ∙ delay-suc b n le

  -- If the loop still goes on after `n` rounds, its delay is the first one doubled `n` times, cut
  -- off at 30 seconds.
  pub run-delay :
      (n b d : ℕ) (w : W) → b ≤ max_backoff → (run r n b w).0 ≡ waiting d → d ≡ delay b n
  unfolding run
  run-delay zero b d w le h = let e : d ≡ b = cc in omega arith
  run-delay (suc n) b d w le h =
      resume-delay n b d (round r b w) le (round_next b w)
        (λ w' h'. run-delay n (next_backoff b) d w' (next_backoff-le b le) h') h
