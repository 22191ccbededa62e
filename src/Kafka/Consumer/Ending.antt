-- ===== src/Kafka/Consumer/Ending.antt =====
-- The rounds of the consumer loop, one after the other.
use ofm_mail_service.Prelude.{
  ℕ, zero, suc, ◌+◌, ◌≡◌, refl, ◌∙◌, ap, String, Option, none, some, arith,
}
use ofm_mail_service.Errors.{Err}
use ofm_mail_service.Effect.{err}
use ofm_mail_service.EventBroker.{MessageHandler}
use ofm_mail_service.Kafka.Consumer.{
  Client, Flow, next, stop, resume, run_pull_consumer, round, process,
}

module _ {W Bytes : Type 0} (c : Client W Bytes) (dead_letter retry_topic subject : String)
    (h : MessageHandler W Bytes) where
  abbrev run : ℕ → W → Option (Option Err) × W
  run = run_pull_consumer c dead_letter retry_topic subject h

  -- one more round, where the loop goes on
  abbrev onward : Option (Option Err) × W → Option (Option Err) × W
  onward (none, w) = run 1 w
  onward (some e, w) = (some e, w)

  resume-onward :
      (f g : W → Option (Option Err) × W) (x : Flow × W)
      → ((w : W) → f w ≡ onward (g w))
      → resume f x ≡ onward (resume g x)
  resume-onward f g (next, w) e = e w
  resume-onward f g (stop r, w) e = refl

  run_last : (n : ℕ) (w : W) → run (suc n) w ≡ onward (run n w)
  unfolding run_pull_consumer
  run_last zero w = refl
  run_last (suc n) w =
      resume-onward (run (suc n)) (run n) (round c dead_letter retry_topic subject h w) (run_last n)

  -- A loop that has returned stays so, however many rounds are allowed for.
  pub run_more :
      (k n : ℕ) (w : W) {e : Option Err} {w' : W}
      → run n w ≡ (some e, w')
      → run (k + n) w ≡ (some e, w')
  run_more zero n w e = let same : 0 + n ≡ n = omega arith in ap (λ m. run m w) same ∙ e
  run_more (suc k) n w e =
      let up : suc k + n ≡ suc (k + n) = omega arith in
      ap (λ m. run m w) up ∙ run_last (k + n) w ∙ ap onward (run_more k n w e)

  -- A loop that goes on returns one round later, where the next fetch fails.
  pub run_fetch_fails :
      (n : ℕ) (w : W) {w' : W} {e : Err}
      → run n w ≡ (none, w')
      → (c.fetch_message w').0 ≡ err e
      → run (suc n) w ≡ (some (some e), (c.fetch_message w').1)
  unfolding run_pull_consumer round process
  run_fetch_fails n w going fails = run_last n w ∙ ap onward going ∙ rw fails refl
