-- ===== src/Kafka/Broker/Ending.antt =====
-- A session of `RunPullConsumer` at its next fetch, which may find its context cancelled.
use ofm_mail_service.Prelude.{
  ℕ, suc, ◌+◌, ◌≡◌, ◌⊎◌, inl, inr, refl, String, List, Bool, true, Option, none, some,
}
use ofm_mail_service.Errors.{Err}
use ofm_mail_service.Effect.{Result, ok, err, Result-cases}
use ofm_mail_service.Config.{PullConsumerConfig}
use ofm_mail_service.EventBroker.{MessageHandler}
use ofm_mail_service.Kafka.Message.{Message}
use ofm_mail_service.Kafka.Consumer
use ofm_mail_service.Kafka.Consumer.Ending.{run_more, run_fetch_fails}
use ofm_mail_service.Kafka.Broker.{
  Broker, Library, run_pull_consumer, defer_close, reader_config, retry_queue_config,
}

module _ {W Reader Bytes : Type 0} (library : Library W Reader Bytes) (done : W → Bool) where
  -- Contexts do not start again: none is live behind its end.
  pub record StopLaws : Type 0 where
    pub fetch_stays :
        (r : Reader) (brokers : List String) (w : W)
        → done w ≡ true
        → done ((library.client r brokers).fetch_message w).1 ≡ true
    pub close_stays : (r : Reader) (w : W) → done w ≡ true → done (library.close_reader r w) ≡ true

  module _ (cfg : PullConsumerConfig) (h : MessageHandler W Bytes) (b : Broker Reader) (w : W) where
    abbrev pub session : ℕ → Option (Option Err) × (Broker Reader × W)
    session n = run_pull_consumer library n b cfg h w

    -- the reader of the session, and the world in which its loop begins
    pub reader : Reader × W
    reader =
        library.new_reader (reader_config library b cfg.subject)
          (library.run_retry_queue (retry_queue_config library b) w)

    abbrev loop : ℕ → Option (Option Err) × W
    loop n =
        Consumer.run_pull_consumer (library.client reader.0 b.brokers) b.dead_letter
          (library.retry_topic b.group) cfg.subject h n reader.1

    -- the next fetch of the session, from the state `s`
    abbrev pub next_fetch : Broker Reader × W → Result (Message Bytes) × W
    next_fetch s = (library.client reader.0 b.brokers).fetch_message s.1

    -- The next fetch answers a message, as kafka-go may do for messages that it holds already.
    abbrev pub FetchesOn : Broker Reader × W → Type 0
    FetchesOn s = (msg : Message Bytes) × ((next_fetch s).0 ≡ ok msg)

    -- What a session does behind the state `s`: a fetch that fails, and its reader is closed.
    pub record Ends (n : ℕ) (s : Broker Reader × W) : Type 0 where
      pub cause : Err
      pub fails : (next_fetch s).0 ≡ err cause
      pub ends :
          (k : ℕ)
          → session (k + suc n)
            ≡ (some (some cause), (s.0, library.close_reader reader.0 (next_fetch s).1))

    stays :
        (k n : ℕ) (w' : W) (e : Err)
        → loop n ≡ (none, w')
        → ((library.client reader.0 b.brokers).fetch_message w').0 ≡ err e
        → loop (k + suc n)
          ≡ (some (some e), ((library.client reader.0 b.brokers).fetch_message w').1)
    stays k n w' e run fails =
        let c = library.client reader.0 b.brokers in
        let topic = library.retry_topic b.group in
        run_more c b.dead_letter topic cfg.subject h k (suc n) reader.1
          (run_fetch_fails c b.dead_letter topic cfg.subject h n reader.1 run fails)

    Ends-by :
        (n : ℕ) (x : Option (Option Err) × W)
        → loop n ≡ x
        → (session n).0 ≡ none
        → FetchesOn (session n).1 ⊎ Ends n (session n).1
    unfolding run_pull_consumer defer_close reader
    Ends-by n (some e, w') run going = let returned = rw run at going in cc
    Ends-by n (none, w') run going =
        elim (Result-cases ((library.client reader.0 b.brokers).fetch_message w').0) [
          | inl (msg, fetched) ↦ rw run (inl (msg, fetched))
          | inr (e, fails) ↦ rw run (
              inr (record {
                cause = e;
                fails = fails;
                ends = λ k. rw (stays k n w' e run fails) refl;
              }))
        ]

    pub session-Ends :
        (n : ℕ) → (session n).0 ≡ none → FetchesOn (session n).1 ⊎ Ends n (session n).1
    session-Ends n going = Ends-by n (loop n) refl going
