-- ===== src/Kafka/Consumer/Invariant.antt =====
-- What the calls of the loop preserve, the loop preserves.
use ofm_mail_service.Prelude.{ℕ, zero, suc, String, Bool, true, false, Option, if◌then◌else◌}
use ofm_mail_service.Errors.{Err}
use ofm_mail_service.Effect.{Result, ok, err, Eff, continue}
use ofm_mail_service.EventBroker.{MessageHandler}
use ofm_mail_service.Kafka.Message.{Message}
use ofm_mail_service.Kafka.Consumer.{
  Client, Flow, next, stop, resume, run_pull_consumer, round, process, unwrapped, after_handler,
  dead_letter_message,
}

module _ {ℓ} {W : Type 0} (P : W → Type ℓ) where
  continue_keeps :
      {A B : Type 0} (r : Result A) (f : A → Eff W B) (w : W)
      → P w
      → ((a : A) (v : W) → P v → P (f a v).1)
      → P (continue r f w).1
  continue_keeps (ok a) f w p keeps = keeps a w p
  continue_keeps (err e) f w p keeps = p

  choose : (b : Bool) (x y : Flow × W) → P x.1 → P y.1 → P (if b then x else y).1
  choose true x y p q = p
  choose false x y p q = q

module _ {ℓ} {W Bytes : Type 0} (P : W → Type ℓ) where
  -- A client whose calls preserve a predicate.
  pub record ClientKeeps (c : Client W Bytes) : Type ℓ where
    pub fetch : (w : W) → P w → P (c.fetch_message w).1
    pub commit : (msg : Message Bytes) (w : W) → P w → P (c.commit_messages msg w).1
    pub write :
        (topic : String) (msg : Message Bytes) (w : W) → P w → P (c.write_message topic msg w).1
    pub enqueue :
        (topic : String) (msg : Message Bytes) (subject : String) (n : ℕ) (e : Err) (w : W)
        → P w
        → P (c.enqueue topic msg subject n e w).1
    pub now : (w : W) → P w → P (c.now w).1

module _ {ℓ} {W Bytes : Type 0} (P : W → Type ℓ) where
  module _ (c : Client W Bytes) (keeps : ClientKeeps P c) (dead_letter retry_topic subject : String)
      (h : MessageHandler W Bytes)
      (preserved : (topic : String) (payload : Bytes) (w : W) → P w → P (h topic payload w).1) where
    dead_letter_preserves :
        (msg : Message Bytes) (n : ℕ) (e : Err) (w : W)
        → P w
        → P (dead_letter_message c dead_letter retry_topic subject h msg n e w).1
    unfolding dead_letter_message
    dead_letter_preserves msg n e w p =
        continue_keeps P _ _ (c.now w).1 (keeps.now w p) (λ payload. keeps.write dead_letter _)

    after_handler_preserves :
        (msg : Message Bytes) (n : ℕ) (r : Result (Unit {0})) (w : W)
        → P w
        → P (after_handler c dead_letter retry_topic subject h msg n (r, w)).1
    unfolding after_handler
    after_handler_preserves msg n (ok _) w p = keeps.commit msg w p
    after_handler_preserves msg n (err e) w p =
        choose P _ _ _ (keeps.enqueue _ _ _ _ _ w p) (dead_letter_preserves msg n e w p)

    unwrapped_preserves :
        (msg : Message Bytes) (n : ℕ) (r : Result Bytes) (w : W)
        → P w
        → P (unwrapped c dead_letter retry_topic subject h msg n r w).1
    unfolding unwrapped
    unwrapped_preserves msg n (ok payload) w p =
        after_handler_preserves msg n (h subject payload w).0 (h subject payload w).1
          (preserved subject payload w p)
    unwrapped_preserves msg n (err e) w p = dead_letter_preserves msg n e w p

    process_preserves :
        (r : Result (Message Bytes)) (w : W)
        → P w
        → P (process c dead_letter retry_topic subject h (r, w)).1
    unfolding process
    process_preserves (ok msg) w p = unwrapped_preserves msg _ _ w p
    process_preserves (err e) w p = p

    resume_preserves :
        (rounds : W → Option (Option Err) × W)
        → ((w : W) → P w → P (rounds w).1)
        → (x : Flow × W) → P x.1
        → P (resume rounds x).1
    resume_preserves rounds rest (next, w) p = rest w p
    resume_preserves rounds rest (stop e, w) p = p

    -- The loop preserves what its client and its handler do.
    pub run_invariant :
        (fuel : ℕ) (w : W)
        → P w
        → P (run_pull_consumer c dead_letter retry_topic subject h fuel w).1
    unfolding run_pull_consumer round
    run_invariant zero w p = p
    run_invariant (suc fuel) w p =
        resume_preserves (run_pull_consumer c dead_letter retry_topic subject h fuel)
          (run_invariant fuel) (process c dead_letter retry_topic subject h (c.fetch_message w))
          (process_preserves (c.fetch_message w).0 (c.fetch_message w).1 (keeps.fetch w p))
