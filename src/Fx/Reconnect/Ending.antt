-- ===== src/Fx/Reconnect/Ending.antt =====
-- When the reconnecting loop returns.
use ofm_mail_service.Prelude.{
  ℕ, zero, suc, ◌≡◌, refl, ◌∙◌, inl, inr, ◌⊎◌, Bool, true, false, Bool-cases,
}
use ofm_mail_service.Effect.{Result}
use ofm_mail_service.Fx.Reconnect.{
  Runner, Progress, waiting, returned, run, round, after_subscribe, after_wait, resume,
}

module _ {W : Type 0} (r : Runner W) where
  -- package context: `Done` is closed by a cancellation.
  pub record ContextLaws : Type 0 where
    pub done :
        (backoff : ℕ) (w : W)
        → (r.wait backoff w).0 ≡ true
        → r.cancelled (r.wait backoff w).1 ≡ true

  -- Where the loop stands after `n` rounds, and after one more.
  unfoldable pub Stands : ℕ → ℕ → W → Progress × W → Type 0
  Stands n backoff w (returned, w') = r.cancelled w' ≡ true
  Stands n backoff w (waiting d, w') =
      (r.cancelled w' ≡ false)
      ⊎ ((r.cancelled w' ≡ true) × (run r (suc n) backoff w ≡ (returned, w')))

  Returned : Progress × W → Type 0
  Returned (returned, w') = r.cancelled w' ≡ true
  Returned (waiting d, w') = Unit {0}

  resume_twice :
      (f g : ℕ → W → Progress × W) (p : Progress × W)
      → ((b : ℕ) (w : W) → f b w ≡ resume r (round r) (g b w))
      → resume r f p ≡ resume r (round r) (resume r g p)
  resume_twice f g (waiting b, w) h = h b w
  resume_twice f g (returned, w) h = refl

  resume_none : (p : Progress × W) → resume r (λ b w. (waiting b, w)) p ≡ p
  resume_none (waiting b, w) = refl
  resume_none (returned, w) = refl

  run_last :
      (n backoff : ℕ) (w : W) → run r (suc n) backoff w ≡ resume r (round r) (run r n backoff w)
  unfolding run
  run_last zero backoff w = resume_none (round r backoff w)
  run_last (suc n) backoff w =
      resume_twice (run r (suc n)) (run r n) (round r backoff w) (run_last n)

  module _ (laws : ContextLaws) where
    after_wait-Returned :
        (backoff : ℕ) (x : Bool × W)
        → (x.0 ≡ true → r.cancelled x.1 ≡ true)
        → Returned (after_wait r backoff x)
    unfolding Returned after_wait
    after_wait-Returned backoff (true, w') h = h refl
    after_wait-Returned backoff (false, w') h = tt

    after_subscribe-Returned :
        (backoff : ℕ) (x : Result (Unit {0}) × W) → Returned (after_subscribe r backoff x)
    unfolding after_subscribe Returned
    after_subscribe-Returned backoff (result, w) = elim (Bool-cases (r.cancelled w)) [
      | inl over ↦ rw over over
      | inr live ↦ rw live (after_wait-Returned backoff (r.wait backoff w) (laws.done backoff w))
    ]

    round-Returned : (backoff : ℕ) (w : W) → Returned (round r backoff w)
    unfolding round Returned
    round-Returned backoff w = elim (Bool-cases (r.cancelled w)) [
      | inl over ↦ rw over over
      | inr live ↦ rw live (after_subscribe-Returned backoff (r.subscribe w))
    ]

    resume-Returned :
        (f : ℕ → W → Progress × W) (p : Progress × W)
        → Returned p
        → ((b : ℕ) (w : W) → Returned (f b w))
        → Returned (resume r f p)
    resume-Returned f (waiting b, w) h all = all b w
    resume-Returned f (returned, w) h all = h

    run-Returned : (n backoff : ℕ) (w : W) → Returned (run r n backoff w)
    unfolding run Returned
    run-Returned zero backoff w = tt
    run-Returned (suc n) backoff w =
        resume-Returned (run r n) (round r backoff w) (round-Returned backoff w) (run-Returned n)

    stands :
        (n backoff : ℕ) (w : W) (p : Progress × W)
        → run r n backoff w ≡ p
        → Returned p
        → Stands n backoff w p
    unfolding Stands Returned round
    stands n backoff w (returned, w') e h = h
    stands n backoff w (waiting d, w') e h = elim (Bool-cases (r.cancelled w')) [
      | inl over ↦ inr (over, run_last n backoff w ∙ rw e (rw over refl))
      | inr live ↦ inl live
    ]

    -- Whatever the subscriptions return, the loop has returned only behind a cancellation; where the
    -- context is cancelled at the head of a round, the loop has returned one round later, with no
    -- further call.
    pub run-Stands : (n backoff : ℕ) (w : W) → Stands n backoff w (run r n backoff w)
    run-Stands n backoff w = stands n backoff w (run r n backoff w) refl (run-Returned n backoff w)
