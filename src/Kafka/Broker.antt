-- ===== src/Kafka/Broker.antt =====
-- kafka/broker.go: the struct of the broker, `NewBroker`, `Publish`, `Subscribe`, `RunPullConsumer`
-- around its loop, and `Close`. The lock is left out, and metrics are.
pub mod Laws
pub mod Ending
mod Tests
use Prim.Native.String.{◌++◌}
use ofm_mail_service.Prelude.{
  ℕ, ◌*◌, String, List, [], ◌∷◌, ◌++◌ as ◌+++◌, map, Option, none, some, pos,
}
use ofm_mail_service.Errors.{Err, KafkaError, kafka, sentinel}
use ofm_mail_service.Effect.{Result, ok, err, Eff, pure, fail, lift, ◌>>=◌}
use ofm_mail_service.Config.{KafkaConfig, PullConsumerConfig}
use ofm_mail_service.Config.Defaults.{empty_pull_consumer_config}
use ofm_mail_service.EventBroker.{MessageHandler}
use ofm_mail_service.Kafka.Message.{Header, Message}
use ofm_mail_service.Kafka.Consumer
use ofm_mail_service.Kafka.Consumer.{Client}

pub record Broker (Reader : Type 0) : Type 0 where
  pub brokers : List String
  pub group : String
  pub dead_letter : String
  pub readers : List Reader

-- kafka.ReaderConfig
pub record ReaderConfig : Type 0 where
  pub brokers : List String
  pub topic : String
  pub group_id : String
  pub min_bytes : ℕ
  pub max_bytes : ℕ
  pub max_wait : ℕ

-- resilience.KafkaRetryQueueConfig
pub record RetryQueueConfig : Type 0 where
  pub brokers : List String
  pub group : String
  pub max_attempts : ℕ

pub record Library (W Reader Bytes : Type 0) : Type 0 where
  -- events.Wrap, sha256.Sum256
  pub wrap : String → Bytes → Result Bytes
  pub sum256 : Bytes → Bytes
  -- kafka.Writer.WriteMessages of a writer for the brokers and the topic, which is closed again
  pub write_messages : List String → String → Message Bytes → Eff W (Unit {0})
  -- `go func() { _ = (...).Run(ctx) }()`
  pub run_retry_queue : RetryQueueConfig → W → W
  pub new_reader : ReaderConfig → W → Reader × W
  pub close_reader : Reader → W → W
  -- what the loop calls, with the reader and the brokers
  pub client : Reader → List String → Client W Bytes
  -- resilience.RetryTopic, resilience.DefaultRetryPolicy.MaxAttempts
  pub retry_topic : String → String
  pub max_attempts : ℕ

abbrev pub mail_broker : {Reader : Type 0} → List String → String → Broker Reader
mail_broker brokers group = record {
  brokers = brokers;
  group = group;
  dead_letter = group ++ ".dead-letter";
  readers = [];
}

unfoldable pub new_broker : {Reader : Type 0} → KafkaConfig → Result (Broker Reader)
new_broker cfg = elim cfg.brokers [
  | [] ↦ err (sentinel (kafka KafkaError.empty_brokers))
  | address ∷ addresses ↦ ok (mail_broker (address ∷ addresses) cfg.group_id)
]

-- with what requestmetadata.OutgoingHeaders finds in the context, in the order of the range
abbrev pub kafka_headers : List (String × List ℕ) → List Header
kafka_headers = map λ (key, value). record { key = key; value = value }

module _ {W Reader Bytes : Type 0} (library : Library W Reader Bytes) where
  abbrev event_key : Bytes → Bytes
  event_key payload = library.sum256 payload

  unfoldable pub publish :
      List (String × List ℕ) → Broker Reader → String → Bytes → Eff W (Unit {0})
  publish outgoing b subject payload = do
    enveloped ← lift (library.wrap subject payload)
    library.write_messages b.brokers subject (record {
      key = event_key enveloped;
      value = enveloped;
      headers = kafka_headers outgoing;
      partition = pos 0;
      offset = pos 0;
    })

  retry_queue_config : Broker Reader → RetryQueueConfig
  retry_queue_config b = record {
    brokers = b.brokers;
    group = b.group;
    max_attempts = library.max_attempts;
  }

  reader_config : Broker Reader → String → ReaderConfig
  reader_config b topic = record {
    brokers = b.brokers;
    topic = topic;
    group_id = b.group;
    min_bytes = 1;
    max_bytes = 10_000_000;
    max_wait = 50 * 1_000_000;
  }

  abbrev append_reader : Broker Reader → Reader → Broker Reader
  append_reader b r = record b { readers = b.readers +++ r ∷ [] }

  -- The deferred call runs when the loop has returned.
  defer_close : Reader → Option (Option Err) × W → Option (Option Err) × W
  defer_close r (none, w) = (none, w)
  defer_close r (some e, w) = (some e, library.close_reader r w)

  -- with the fuel of the loop
  unfoldable pub run_pull_consumer :
      ℕ
      → Broker Reader
      → PullConsumerConfig
      → MessageHandler W Bytes
      → W
      → Option (Option Err) × (Broker Reader × W)
  unfolding retry_queue_config reader_config defer_close
  run_pull_consumer fuel b cfg handler w =
      let (r, w') =
        library.new_reader (reader_config b cfg.subject)
          (library.run_retry_queue (retry_queue_config b) w) in
      let (outcome, w'') = defer_close r (
        Consumer.run_pull_consumer (library.client r b.brokers) b.dead_letter
          (library.retry_topic b.group) cfg.subject handler fuel w') in
      (outcome, (append_reader b r, w''))

  abbrev subject_config : String → PullConsumerConfig
  subject_config subject = record empty_pull_consumer_config { subject = subject }

  unfoldable pub subscribe :
      ℕ
      → Broker Reader
      → String
      → MessageHandler W Bytes
      → W
      → Option (Option Err) × (Broker Reader × W)
  unfolding run_pull_consumer
  subscribe fuel b subject = run_pull_consumer fuel b (subject_config subject)

  close_all : List Reader → W → W
  close_all [] w = w
  close_all (r ∷ rs) w = close_all rs (library.close_reader r w)

  unfoldable pub close : Broker Reader → W → W
  unfolding close_all
  close b = close_all b.readers
