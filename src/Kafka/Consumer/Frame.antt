-- ===== src/Kafka/Consumer/Frame.antt =====
-- The loop in a world with a part that its calls leave alone.
use ofm_mail_service.Prelude.{ℕ, ◌≡◌, refl, String, Option}
use ofm_mail_service.Errors.{Err}
use ofm_mail_service.Effect.{Eff}
use ofm_mail_service.EventBroker.{MessageHandler}
use ofm_mail_service.Kafka.Consumer.{Client, run_pull_consumer}
use ofm_mail_service.Kafka.Consumer.Invariant.{run_invariant}

module _ {L W : Type 0} where
  -- A call that leaves `L` alone.
  abbrev pub lifted : {A : Type 0} → Eff W A → Eff (L × W) A
  lifted m (l, w) = let (r, w') = m w in (r, (l, w'))

  abbrev pub lifted_client : {Bytes : Type 0} → Client W Bytes → Client (L × W) Bytes
  lifted_client c = record {
    fetch_message = lifted c.fetch_message;
    commit_messages = λ msg. lifted (c.commit_messages msg);
    write_message = λ topic msg. lifted (c.write_message topic msg);
    enqueue = λ topic msg subject attempt e. lifted (c.enqueue topic msg subject attempt e);
    unwrap = c.unwrap;
    marshal_dlq = c.marshal_dlq;
    type_name = c.type_name;
    now = λ (l, w). let (t, w') = c.now w in (t, (l, w'));
    max_attempts = c.max_attempts;
  }

  abbrev pub lifted_handler :
      {Bytes : Type 0} → MessageHandler W Bytes → MessageHandler (L × W) Bytes
  lifted_handler h subject payload = lifted (h subject payload)

module _ {L W Bytes : Type 0} (c : Client W Bytes) (dead_letter retry_topic subject : String)
    (h : MessageHandler (L × W) Bytes) where
  abbrev pub lifted_run : ℕ → L × W → Option (Option Err) × (L × W)
  lifted_run = run_pull_consumer (lifted_client c) dead_letter retry_topic subject h

  -- The loop preserves a predicate on `L` that its handler preserves.
  pub run_pull_consumer_preserves {ℓ} :
      (P : L → Type ℓ)
      → ((subject : String) (payload : Bytes) (s : L × W) → P s.0 → P (h subject payload s).1.0)
      → (fuel : ℕ) (s : L × W) → P s.0
      → P (lifted_run fuel s).1.0
  run_pull_consumer_preserves P preserved =
      run_invariant (λ s. P s.0) (lifted_client c)
        (record {
          fetch = λ s p. p;
          commit = λ msg s p. p;
          write = λ topic msg s p. p;
          enqueue = λ topic msg subject n e s p. p;
          now = λ s p. p;
        })
        dead_letter retry_topic subject h preserved

-- With a handler that leaves `L` alone the loop does.
pub run_pull_consumer_keeps :
    {L W Bytes : Type 0} (c : Client W Bytes) (dead_letter retry_topic subject : String)
    (h : MessageHandler W Bytes) (fuel : ℕ) (s : L × W)
    → (lifted_run c dead_letter retry_topic subject (lifted_handler h) fuel s).1.0 ≡ s.0
run_pull_consumer_keeps c dead_letter retry_topic subject h fuel s =
    run_pull_consumer_preserves c dead_letter retry_topic subject (lifted_handler h) (λ l. l ≡ s.0)
      (λ _ _ _ same. same) fuel s refl
