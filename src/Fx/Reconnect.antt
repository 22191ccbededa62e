-- ===== src/Fx/Reconnect.antt =====
-- internal/fx/presentation.go: the loop that subscribes again, with a delay that doubles.
-- Durations are nanoseconds.
pub mod Laws
pub mod Ending
pub mod Stopping
mod Tests
use ofm_mail_service.Prelude.{
  ℕ, zero, suc, ◌*◌, ◌+◌, Bool, true, false, List, [], ◌∷◌, ltb, if◌then◌else◌, Option, none, some,
}
use ofm_mail_service.Errors.{Err}
use ofm_mail_service.Effect.{Result, Eff}

abbrev pub first_backoff : ℕ
first_backoff = 100 * 1_000_000

abbrev pub max_backoff : ℕ
max_backoff = 30 * 1_000_000_000

-- the end of a round: `if backoff < 30*time.Second { backoff *= 2; if … }`
unfoldable pub next_backoff : ℕ → ℕ
next_backoff backoff =
    if ltb backoff max_backoff
    then (if ltb max_backoff (backoff * 2) then max_backoff else backoff * 2)
    else backoff

-- What the loop asks of its context: whether it is cancelled, and which of a cancellation and the
-- timer comes first. The clock is part of the world.
pub record Runner (W : Type 0) : Type 0 where
  pub cancelled : W → Bool
  pub subscribe : Eff W (Unit {0})
  -- true if the context is done before the timer of that many nanoseconds fires
  pub wait : ℕ → W → Bool × W

-- How the goroutine stands after some rounds: it goes on with a delay, or it has returned.
pub data Progress : Type 0 where
  waiting : ℕ → Progress
  returned : Progress

module _ {W : Type 0} (r : Runner W) where
  after_wait : ℕ → Bool × W → Progress × W
  after_wait backoff (true, w) = (returned, w)
  after_wait backoff (false, w) = (waiting (next_backoff backoff), w)

  -- what follows `subscriber.Subscribe`: its error is only logged
  after_subscribe : ℕ → Result (Unit {0}) × W → Progress × W
  unfolding after_wait
  after_subscribe backoff (_, w) =
      if r.cancelled w then (returned, w) else after_wait backoff (r.wait backoff w)

  round : ℕ → W → Progress × W
  unfolding after_subscribe
  round backoff w = if r.cancelled w then (returned, w) else after_subscribe backoff (r.subscribe w)

  abbrev resume : (ℕ → W → Progress × W) → Progress × W → Progress × W
  resume rounds (waiting backoff, w) = rounds backoff w
  resume rounds (returned, w) = (returned, w)

  -- the first rounds of the loop, as many as the fuel
  pub run : ℕ → ℕ → W → Progress × W
  unfolding round
  run zero backoff w = (waiting backoff, w)
  run (suc fuel) backoff w = resume (run fuel) (round backoff w)
